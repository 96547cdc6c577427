-- ===== src/Dock/Daemon/Registration.antt =====
-- What a new session of crates/dock/src/daemon.rs does to the table, and what leaving does.
use easytidy.Prelude.{
  ℕ, zero, suc, ◌<◌, ◌==◌, ◌≡◌, refl, sym, ap, ◌∙◌, Bool-cases, ◌⊎◌, inl, inr, Option, none, some,
  List, [], ◌∷◌, ◌++◌, arith,
}
use easytidy.Lists.{All-retain, length, length-append, get_elem?, get_elem-append, get_elem-length}
use easytidy.Server.{Map, get, remove, insert}
use easytidy.Dock.Session.{RootSession, new}
use easytidy.Dock.Daemon.Table.{
  view_of, alive_at, register, forget, IsEntry, Numbered, All-longer, entry_of, get-insert,
  get-remove, get_elem-length_lt, alive_at-some, alive_at-other,
}

get_elem-longer :
    (cells : List RootSession) (s : RootSession) (ref : ℕ)
    → ref < length cells
    → get_elem? (cells ++ (s ∷ [])) ref ≡ get_elem? cells ref
get_elem-longer cells s ref h =
    let (t, e) = get_elem-length_lt cells ref h in
    get_elem-append cells (s ∷ []) ref {x = t} e ∙ sym e

get_elem-last :
    (cells : List RootSession) (s t : RootSession) (ref : ℕ)
    → get_elem? (cells ++ (s ∷ [])) ref ≡ some t
    → (get_elem? cells ref ≡ some t) ⊎ ((ref ≡ length cells) × (s ≡ t))
get_elem-last [] s t zero h = inr (refl, cc)
get_elem-last [] s t (suc ref) h = cc h
get_elem-last (c ∷ cells) s t zero h = inl h
get_elem-last (c ∷ cells) s t (suc ref) h = elim (get_elem-last cells s t ref h) [
  | inl e ↦ inl e
  | inr (e, d) ↦ inr (ap suc e, d)
]

module _ (m : Map ℕ) (cells : List RootSession) (next : ℕ) (n : Numbered m cells next) where
  module _ (pid : ℕ) where
    pub view-new :
        (i : ℕ)
        → view_of (insert m next (length cells)) (cells ++ (new next pid ∷ [])) i
          ≡ register next (view_of m cells) i
    view-new i = elim (Bool-cases (next == i)) [
      | inl e ↦
          rw (get-insert m next (length cells) i, e)
            (alive_at-some _ (length cells) (new next pid) (get_elem-length cells (new next pid)))
      | inr e ↦ rw (get-insert m next (length cells) i, e) (longer (get m i) refl)
    ]
      where
        longer :
            (o : Option ℕ)
            → get m i ≡ o
            → alive_at (cells ++ (new next pid ∷ [])) o ≡ alive_at cells o
        longer none k = refl
        longer (some r) k =
            alive_at-other cells _ r
              (get_elem-longer cells (new next pid) r (entry_of cells m i r n.refs k).1)

    pub Numbered-new :
        Numbered (insert m next (length cells)) (cells ++ (new next pid ∷ [])) (suc next)
    Numbered-new = record {
      ids = λ r t k. elim (get_elem-last cells (new next pid) t r k) [
        | inl e ↦ n.ids r t e
        | inr (e, d) ↦ ap (λ (q : RootSession). q.id) (sym d) ∙ n.fresh ∙ ap suc (sym e)
      ];
      refs = (
        (n.fresh, omega (arith, length-append cells (new next pid ∷ []))),
        All-retain (IsEntry (cells ++ (new next pid ∷ []))) _ m (
            All-longer cells (cells ++ (new next pid ∷ [])) m
              (omega (arith, length-append cells (new next pid ∷ []))) n.refs),
      );
      fresh = omega (arith, n.fresh, length-append cells (new next pid ∷ []));
    }

  pub view-remove : (id i : ℕ) → view_of (remove m id) cells i ≡ forget id (view_of m cells) i
  view-remove id i = elim (Bool-cases (id == i)) [
    | inl e ↦ rw (get-remove m id i, e) refl
    | inr e ↦ rw (get-remove m id i, e) refl
  ]

  pub Numbered-remove : (id : ℕ) → Numbered (remove m id) cells next
  Numbered-remove id = record {
    ids = n.ids;
    refs = All-retain (IsEntry cells) _ m n.refs;
    fresh = n.fresh;
  }

-- ===== src/Dock/Daemon/Table.antt =====
-- The daemon against a table of sessions: for each id whether a session is registered under it and
-- whether it is alive.
use easytidy.Prelude.{
  ℕ, zero, suc, ◌<◌, ◌==◌, ◌≡◌, refl, sym, ap, ◌∙◌, Bool, true, false, Bool-cases, inl, inr, Option,
  none, some, List, [], ◌∷◌, arith, if◌then◌else◌, eq-of-==,
}
use easytidy.Lists.{All, length, get_elem?, retain}
use easytidy.Server.{Map, get, remove, insert, update, get_elem-update_same, get_elem-update_other}
use easytidy.Dock.Session.{RootSession}

abbrev pub Table : Type 0
Table = ℕ → Option Bool

abbrev pub alive_at : List RootSession → Option ℕ → Option Bool
alive_at cells none = none
alive_at cells (some ref) = elim (get_elem? cells ref) [ none ↦ none | some s ↦ some s.alive ]

abbrev pub view_of : Map ℕ → List RootSession → Table
view_of m cells id = alive_at cells (get m id)

-- The abstract operations. `ref` is the session that was created as number `ref`.
abbrev pub register : ℕ → Table → Table
register id t i = if id == i then some true else t i

abbrev pub forget : ℕ → Table → Table
forget id t i = if id == i then none else t i

abbrev pub mark_dead : ℕ → Table → Table
mark_dead id t i = if id == i then elim (t i) [ none ↦ none | some b ↦ some false ] else t i

abbrev pub if_alive : Option Bool → Option Bool
if_alive none = none
if_alive (some true) = some true
if_alive (some false) = none

abbrev pub drop_dead : Table → Table
drop_dead t i = if_alive (t i)

-- An entry of the map is the id of a session of the heap, which is behind its place by one.
abbrev pub IsEntry : List RootSession → ℕ × ℕ → Type 0
IsEntry cells e = (e.0 ≡ suc e.1) × (e.1 < length cells)

-- Each session of the heap has the number behind its place as its id; the map refers to sessions
-- of the heap under their ids; the next id is free.
pub record Numbered (m : Map ℕ) (cells : List RootSession) (next : ℕ) : Type 0 where
  pub ids : (ref : ℕ) (s : RootSession) → get_elem? cells ref ≡ some s → s.id ≡ suc ref
  pub refs : All (IsEntry cells) m
  pub fresh : next ≡ suc (length cells)

pub All-longer :
    (cells cells' : List RootSession) (m : Map ℕ)
    → length cells < suc (length cells')
    → All (IsEntry cells) m
    → All (IsEntry cells') m
All-longer cells cells' [] h k = tt
All-longer cells cells' (e ∷ m) h k =
    ((k.0.0, omega (arith, k.0.1)), All-longer cells cells' m h k.1)

pub entry_of :
    (cells : List RootSession) (m : Map ℕ) (id ref : ℕ)
    → All (IsEntry cells) m
    → get m id ≡ some ref
    → (id ≡ suc ref) × (ref < length cells)
unfolding get
entry_of cells [] id ref h e = cc e
entry_of cells ((k, r) ∷ m) id ref h e = elim (Bool-cases (k == id)) [
  | inl d ↦
      let same : r ≡ ref = some-injective (rw d at e) in
      (omega (arith, eq-of-== k id d, h.0.0, same), omega (arith, h.0.1, same))
  | inr d ↦ entry_of cells m id ref h.1 (rw d at e)
]
  where
    some-injective : {a b : ℕ} → some a ≡ some b → a ≡ b
    some-injective p = cc

pub get-remove : (m : Map ℕ) (id i : ℕ) → get (remove m id) i ≡ (if id == i then none else get m i)
unfolding get retain
get-remove [] id i = ground arith
get-remove ((k, r) ∷ m) id i = ground (arith, get-remove m id i)

pub get-insert :
    (m : Map ℕ) (id r i : ℕ) → get (insert m id r) i ≡ (if id == i then some r else get m i)
unfolding get
get-insert m id r i = ground (arith, get-remove m id i)

length-update : {A : Type 0} (xs : List A) (i : ℕ) (a : A) → length (update xs i a) ≡ length xs
unfolding update
length-update [] i a = refl
length-update (x ∷ xs) zero a = refl
length-update (x ∷ xs) (suc i) a = ap suc (length-update xs i a)

pub get_elem-length_lt :
    {A : Type 0} (xs : List A) (i : ℕ) → i < length xs → (a : A) × (get_elem? xs i ≡ some a)
get_elem-length_lt [] i h = absurd (omega arith)
get_elem-length_lt (x ∷ xs) zero h = (x, refl)
get_elem-length_lt (x ∷ xs) (suc i) h = get_elem-length_lt xs i (omega arith)

pub alive_at-some :
    (cells : List RootSession) (ref : ℕ) (s : RootSession)
    → get_elem? cells ref ≡ some s
    → alive_at cells (some ref) ≡ some s.alive
alive_at-some cells ref s h = rw (alive_at, h) refl

pub alive_at-other :
    (cells cells' : List RootSession) (ref : ℕ)
    → get_elem? cells' ref ≡ get_elem? cells ref
    → alive_at cells' (some ref) ≡ alive_at cells (some ref)
alive_at-other cells cells' ref h = split (get_elem? cells ref) h refl
  where
    split :
        (o : Option RootSession)
        → get_elem? cells' ref ≡ o
        → get_elem? cells ref ≡ o
        → alive_at cells' (some ref) ≡ alive_at cells (some ref)
    split none e d = rw (alive_at, e, d) refl
    split (some s) e d = rw (alive_at, e, d) refl

module _ (m : Map ℕ) (cells : List RootSession) (next : ℕ) (n : Numbered m cells next) where
  module _ (ref : ℕ) (s s' : RootSession) (h : get_elem? cells ref ≡ some s) where
    -- A session that changes shows under its id only.
    pub view-update :
        (i : ℕ)
        → view_of m (update cells ref s') i ≡ (
            if suc ref == i
            then elim (view_of m cells i) [ none ↦ none | some b ↦ some s'.alive ]
            else view_of m cells i)
    view-update i = split (get m i) refl
      where
        split :
            (o : Option ℕ)
            → get m i ≡ o
            → view_of m (update cells ref s') i ≡ (
                if suc ref == i
                then elim (view_of m cells i) [ none ↦ none | some b ↦ some s'.alive ]
                else view_of m cells i)
        split none k = rw k (ground arith)
        split (some r) k = elim (Bool-cases (suc ref == i)) [
          | inl e ↦
              let same : r ≡ ref =
                omega (arith, (entry_of cells m i r n.refs k).0, eq-of-== (suc ref) i e) in
              rw (k, e, same)
                (alive_at-some (update cells ref s') ref s' (get_elem-update_same cells ref s' s h)
                  ∙ (rw (alive_at-some cells ref s h) refl))
          | inr e ↦
              rw (k, e)
                (alive_at-other cells (update cells ref s') r (
                  get_elem-update_other cells ref r s'
                    (λ d. ground (arith, (entry_of cells m i r n.refs k).0))))
        ]

    pub view-same :
        s'.alive ≡ s.alive → (i : ℕ) → view_of m (update cells ref s') i ≡ view_of m cells i
    view-same e i = split (get m i) refl
      where
        split : (o : Option ℕ) → get m i ≡ o → view_of m (update cells ref s') i ≡ view_of m cells i
        split none k = rw k refl
        split (some r) k = elim (Bool-cases (ref == r)) [
          | inl d ↦
              rw (k, sym (eq-of-== ref r d))
                (alive_at-some (update cells ref s') ref s' (get_elem-update_same cells ref s' s h)
                  ∙ ap some e
                  ∙ sym (alive_at-some cells ref s h))
          | inr d ↦ rw k (
              alive_at-other cells (update cells ref s') r
                (get_elem-update_other cells ref r s' (λ e. ground arith)))
        ]

    pub Numbered-update : s'.id ≡ s.id → Numbered m (update cells ref s') next
    Numbered-update e = record {
      ids = λ r t k. elim (Bool-cases (ref == r)) [
        | inl d ↦
            let same : t ≡ s' = cc (get_elem-update_same cells ref s' s h, k, eq-of-== ref r d) in
            cc (same, e, n.ids ref s h, eq-of-== ref r d)
        | inr d ↦ n.ids r t (sym (get_elem-update_other cells ref r s' (λ e. ground arith)) ∙ k)
      ];
      refs =
          All-longer cells (update cells ref s') m (omega (arith, length-update cells ref s'))
            n.refs;
      fresh = n.fresh ∙ ap suc (sym (length-update cells ref s'));
    }

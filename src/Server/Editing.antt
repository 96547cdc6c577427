-- ===== src/Server/Editing.antt =====
-- Which connection an edit request is sent to.
use easytidy.Prelude.{
  ℕ, ◌≤◌, ◌≡◌, ◌⊎◌, refl, sym, true, false, Option, none, some, [], ◌∷◌, arith, Bool-cases, inl,
  inr, ltb, ltb→lt, ltb-false→le,
}
use mathlib.Core.Path.{subst}
use easytidy.Lists.{All}
use easytidy.Server.{Json, ConnInfo, Map}
use easytidy.Server.Router.{is_gui, smaller, edit_target}

module _ (j : Json) where
  -- No GUI connection of the list has a smaller token.
  abbrev pub NotBefore : Option (ℕ × ConnInfo j) → ℕ × ConnInfo j → Type 0
  NotBefore none e = is_gui j e.1 ≡ false
  NotBefore (some best) e = (is_gui j e.1 ≡ false) ⊎ (best.0 ≤ e.0)

  -- A target is a GUI connection.
  abbrev pub TargetIsGui : Option (ℕ × ConnInfo j) → Type 0
  TargetIsGui none = Unit {0}
  TargetIsGui (some best) = is_gui j best.1 ≡ true

  NotBefore-smaller :
      (e x : ℕ × ConnInfo j) (o : Option (ℕ × ConnInfo j))
      → NotBefore o x
      → is_gui j e.1 ≡ true
      → NotBefore (smaller j e o) x
  NotBefore-smaller e x none h g = inl h
  NotBefore-smaller e x (some b) h g = elim (Bool-cases (ltb b.0 e.0)) [
    | inl l ↦ rw l h
    | inr l ↦ rw l (lower h (ltb-false→le b.0 e.0 l))
  ]
    where
      lower :
          (is_gui j x.1 ≡ false) ⊎ (b.0 ≤ x.0) → e.0 ≤ b.0 → (is_gui j x.1 ≡ false) ⊎ (e.0 ≤ x.0)
      lower (inl k) le = inl k
      lower (inr k) le = inr (omega arith)

  All-NotBefore-smaller :
      (e : ℕ × ConnInfo j) (o : Option (ℕ × ConnInfo j)) (conns : Map (ConnInfo j))
      → All (NotBefore o) conns
      → is_gui j e.1 ≡ true
      → All (NotBefore (smaller j e o)) conns
  All-NotBefore-smaller e o [] h g = h
  All-NotBefore-smaller e o (x ∷ conns) h g =
      (NotBefore-smaller e x o h.0 g, All-NotBefore-smaller e o conns h.1 g)

  smaller_self :
      (e : ℕ × ConnInfo j) (o : Option (ℕ × ConnInfo j))
      → is_gui j e.1 ≡ true
      → TargetIsGui o
      → NotBefore (smaller j e o) e × TargetIsGui (smaller j e o)
  smaller_self e none g h = (inr (omega arith), g)
  smaller_self e (some b) g h = elim (Bool-cases (ltb b.0 e.0)) [
    | inl l ↦ rw l (inr (let k = ltb→lt b.0 e.0 l in omega arith), h)
    | inr l ↦ rw l (inr (omega arith), g)
  ]

  not_gui :
      (e : ℕ × ConnInfo j) (o : Option (ℕ × ConnInfo j)) → is_gui j e.1 ≡ false → NotBefore o e
  not_gui e none g = g
  not_gui e (some b) g = inl g

  edit_target_hit :
      (e : ℕ × ConnInfo j) (conns : Map (ConnInfo j))
      → is_gui j e.1 ≡ true
      → edit_target j (e ∷ conns) ≡ smaller j e (edit_target j conns)
  unfolding edit_target
  edit_target_hit e conns g = rw g refl

  edit_target_skip :
      (e : ℕ × ConnInfo j) (conns : Map (ConnInfo j))
      → is_gui j e.1 ≡ false
      → edit_target j (e ∷ conns) ≡ edit_target j conns
  unfolding edit_target
  edit_target_skip e conns g = rw g refl

  -- An edit request goes to a GUI connection that asked for events, of these to the one with the smallest
  -- token; there is no target only if no connection of the list is such a GUI.
  pub edit_target-least :
      (conns : Map (ConnInfo j))
      → All (NotBefore (edit_target j conns)) conns × TargetIsGui (edit_target j conns)
  unfolding edit_target
  edit_target-least [] = (tt, tt)
  edit_target-least (e ∷ conns) =
      let (all, gui) = edit_target-least conns in
      elim (Bool-cases (is_gui j e.1)) [
        | inl g ↦
            let (self, target) = smaller_self e (edit_target j conns) g gui in
            subst (λ o. All (NotBefore o) (e ∷ conns) × TargetIsGui o)
              (sym (edit_target_hit e conns g))
              ((self, All-NotBefore-smaller e (edit_target j conns) conns all g), target)
        | inr g ↦
            subst (λ o. All (NotBefore o) (e ∷ conns) × TargetIsGui o)
              (sym (edit_target_skip e conns g)) ((not_gui e (edit_target j conns) g, all), gui)
      ]

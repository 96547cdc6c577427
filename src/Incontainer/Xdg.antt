-- ===== src/Incontainer/Xdg.antt =====
-- `fixup_xdg_data_dirs_value` of crates/core/src/env/incontainer.rs: the system's data directories
-- are appended to XDG_DATA_DIRS where they are missing.
use easytidy.Prelude.{
  ℕ, ◌≡◌, ◌≢◌, refl, ap, ◌∙◌, true, Bool, not, ◌||◌, List, [], ◌∷◌, ◌++◌, inl, inr, arith, ◌==◌,
  Bool-cases, if◌then◌else◌,
}
use easytidy.Lists.{any, any-append}
use easytidy.Text.{Text, Free, codes, is_empty, text_eq, split, cons_head}
use easytidy.Text.Split.{text_eq_refl}

-- `v.split(':').any(|c| c == p)`
abbrev pub has_component : Text → Text → Bool
has_component p v = any (λ c. text_eq c p) (split b':' v)

unfoldable pub append_missing : Text → Text → Text
append_missing merged p =
    if not (has_component p merged)
    then (if is_empty merged then p else merged ++ (b':' ∷ p))
    else merged

abbrev pub local_share : Text
local_share = codes "/usr/local/share"

abbrev pub share : Text
share = codes "/usr/share"

unfoldable pub fixup_xdg_data_dirs_value : Text → Text
unfolding append_missing
fixup_xdg_data_dirs_value v = append_missing (append_missing v local_share) share

cons_head-append : (x : ℕ) (a b : List Text) → a ≢ [] → cons_head x (a ++ b) ≡ cons_head x a ++ b
cons_head-append x [] b h = absurd (h refl)
cons_head-append x (w ∷ a) b h = refl

cons_head-ne-nil : (x : ℕ) (a : List Text) → cons_head x a ≢ []
cons_head-ne-nil x [] = λ e. cc
cons_head-ne-nil x (w ∷ a) = λ e. cc

split-ne-nil : (c : ℕ) (s : Text) → split c s ≢ []
unfolding split
split-ne-nil c [] = λ e. cc
split-ne-nil c (x ∷ s) = elim (Bool-cases (x == c)) [
  | inl e ↦ rw e (λ k. cc)
  | inr e ↦ rw e (cons_head-ne-nil x (split c s))
]

split-append : (c : ℕ) (a b : Text) → split c (a ++ (c ∷ b)) ≡ split c a ++ split c b
unfolding split
split-append c [] b = ground arith
split-append c (x ∷ a) b = elim (Bool-cases (x == c)) [
  | inl e ↦ rw e (ap (◌∷◌ []) (split-append c a b))
  | inr e ↦ rw e (
      ap (cons_head x) (split-append c a b)
      ∙ cons_head-append x (split c a) (split c b) (split-ne-nil c a))
]

split-Free : (c : ℕ) (a : Text) → Free c a → split c a ≡ a ∷ []
unfolding split
split-Free c [] h = refl
split-Free c (x ∷ a) h = ground (arith, split-Free c a h.1)

-- Appending a directory keeps the components and adds this one.
has_component-append :
    (p q v : Text)
    → Free b':' q
    → has_component p (v ++ (b':' ∷ q)) ≡ (has_component p v || text_eq q p)
has_component-append p q v h =
    rw (split-append, split-Free b':' q h, any-append) (unfold any in ground arith)

has_component_self : (p : Text) → Free b':' p → has_component p p ≡ true
has_component_self p h = rw (split-Free b':' p h) (unfold any in ground (arith, text_eq_refl p))

append_missing-has : (v p : Text) → Free b':' p → has_component p (append_missing v p) ≡ true
unfolding append_missing
append_missing-has v p h =
    ground (arith, has_component-append p p v h, text_eq_refl p, has_component_self p h)

append_missing-keeps :
    (v p q : Text)
    → v ≢ []
    → Free b':' p
    → has_component q v ≡ true
    → has_component q (append_missing v p) ≡ true
unfolding append_missing
append_missing-keeps v p q ne h k = ground (arith, has_component-append q p v h)

append_missing-again : (v p : Text) → has_component p v ≡ true → append_missing v p ≡ v
unfolding append_missing
append_missing-again v p h = ground arith

append_missing-ne-nil : (v p : Text) → p ≢ [] → append_missing v p ≢ []
unfolding append_missing
append_missing-ne-nil [] [] h = absurd (h refl)
append_missing-ne-nil [] (x ∷ p) h = unfold any split text_eq in (λ e. cc)
append_missing-ne-nil (x ∷ v) p h = ground arith

share-missing-ne-nil : (v : Text) → append_missing v local_share ≢ []
share-missing-ne-nil v = append_missing-ne-nil v local_share (λ e. cc)

fixup_xdg_data_dirs_value-has_defaults :
    (v : Text)
    → (has_component local_share (fixup_xdg_data_dirs_value v) ≡ true)
      × (has_component share (fixup_xdg_data_dirs_value v) ≡ true)
unfolding fixup_xdg_data_dirs_value
fixup_xdg_data_dirs_value-has_defaults v = (
  append_missing-keeps _ share local_share (share-missing-ne-nil v) (omega arith)
      (append_missing-has v local_share (omega arith)),
  append_missing-has _ share (omega arith),
)

-- No component of a value that is not empty gets lost.
fixup_xdg_data_dirs_value-keeps :
    (v q : Text)
    → v ≢ []
    → has_component q v ≡ true
    → has_component q (fixup_xdg_data_dirs_value v) ≡ true
unfolding fixup_xdg_data_dirs_value
fixup_xdg_data_dirs_value-keeps v q ne h =
    append_missing-keeps _ share q (share-missing-ne-nil v) (omega arith)
      (append_missing-keeps v local_share q ne (omega arith) h)

-- The same as a test.
kept :
    (v q : Text)
    → (is_empty v || not (has_component q v) || has_component q (fixup_xdg_data_dirs_value v))
      ≡ true
kept [] q = refl
kept (c ∷ v) q = elim (Bool-cases (has_component q (c ∷ v))) [
  | inl e ↦ rw (e, fixup_xdg_data_dirs_value-keeps (c ∷ v) q (λ n. cc) e) refl
  | inr e ↦ rw e refl
]

-- Both default directories are components of a repaired value, whatever the value was, and so is
-- each component of a value that is not empty; a repaired value is not changed again.
pub fixup_xdg_data_dirs_value-settles :
    (v q : Text)
    → (has_component local_share (fixup_xdg_data_dirs_value v) ≡ true)
      × (has_component share (fixup_xdg_data_dirs_value v) ≡ true)
      × ((is_empty v || not (has_component q v) || has_component q (fixup_xdg_data_dirs_value v))
          ≡ true)
      × (fixup_xdg_data_dirs_value (fixup_xdg_data_dirs_value v) ≡ fixup_xdg_data_dirs_value v)
fixup_xdg_data_dirs_value-settles v q =
    let (a, b) = fixup_xdg_data_dirs_value-has_defaults v in
    (
      a,
      b,
      kept v q,
      unfold fixup_xdg_data_dirs_value in
          rw (append_missing-again _ local_share a) (append_missing-again _ share b),
    )

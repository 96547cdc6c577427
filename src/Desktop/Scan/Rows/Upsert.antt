-- ===== src/Desktop/Scan/Rows/Upsert.antt =====
-- Putting one row among the rows of `scan_desktop_icons`.
use easytidy.Prelude.{
  Bool, true, false, Bool-cases, inl, inr, ◌&&◌, ◌≡◌, refl, Option, none, some, List, [], ◌∷◌,
  arith,
}
use easytidy.Lists.{All, any}
use easytidy.Text.{Text, text_eq}
use easytidy.Text.Order.{text_lt, text_lt_trans, text_lt-total}
use easytidy.Text.Split.{text_eq_iff, text_eq_refl}
use easytidy.Desktop.Scan.{DesktopIconEntry, place, upsert}

abbrev Below : Text → List DesktopIconEntry → Type 0
Below t rs = All (λ (r : DesktopIconEntry). text_lt t r.identity ≡ true) rs

-- The rows stand in the order of their identities, no two of which are equal.
abbrev pub Sorted : List DesktopIconEntry → Type 0
Sorted [] = Unit {0}
Sorted (r ∷ rs) = Below r.identity rs × Sorted rs

-- The place of the applications folder, or of the desktop.
abbrev side : Bool → DesktopIconEntry → Option Text
side true r = r.desktop_path
side false r = r.menu_path

abbrev is_some : Option Text → Bool
is_some none = false
is_some (some p) = true

-- There is a row of the identity with a path there.
abbrev pub has_row : Bool → Text → List DesktopIconEntry → Bool
has_row b t rows = any (λ (r : DesktopIconEntry). text_eq r.identity t && is_some (side b r)) rows

place-identity :
    (b : Bool) (path : Text) (r : DesktopIconEntry) → (place b path r).identity ≡ r.identity
place-identity true path r = refl
place-identity false path r = refl

place-side :
    (b : Bool) (path : Text) (r : DesktopIconEntry) → is_some (side b (place b path r)) ≡ true
place-side true path r = refl
place-side false path r = refl

place-keeps :
    (b c : Bool) (path : Text) (r : DesktopIconEntry)
    → is_some (side c r) ≡ true
    → is_some (side c (place b path r)) ≡ true
place-keeps true true path r h = refl
place-keeps true false path r h = h
place-keeps false true path r h = h
place-keeps false false path r h = refl

Below-place :
    (t : Text) (b : Bool) (path : Text) (r : DesktopIconEntry)
    → text_lt t r.identity ≡ true
    → text_lt t (place b path r).identity ≡ true
Below-place t true path r h = h
Below-place t false path r h = h

Below-trans :
    (t u : Text) (rs : List DesktopIconEntry) → text_lt t u ≡ true → Below u rs → Below t rs
Below-trans t u [] h k = tt
Below-trans t u (r ∷ rs) h k = (text_lt_trans t u r.identity h k.0, Below-trans t u rs h k.1)

Below-placed :
    (b : Bool) (path : Text) (r : DesktopIconEntry) (rs : List DesktopIconEntry)
    → Below r.identity rs
    → Below (place b path r).identity rs
Below-placed true path r rs h = h
Below-placed false path r rs h = h

module _ (b : Bool) (path : Text) (new : DesktopIconEntry) where
  upsert-Below :
      (t : Text) (rs : List DesktopIconEntry)
      → text_lt t new.identity ≡ true
      → Below t rs
      → Below t (upsert b path new rs)
  unfolding upsert
  upsert-Below t [] h k = (Below-place t b path new h, tt)
  upsert-Below t (r ∷ rs) h k = elim (Bool-cases (text_eq r.identity new.identity)) [
    | inl e ↦ rw e (Below-place t b path r k.0, k.1)
    | inr e ↦ elim (Bool-cases (text_lt new.identity r.identity)) [
      | inl d ↦ rw (e, d) (Below-place t b path new h, k)
      | inr d ↦ rw (e, d) (k.0, upsert-Below t rs h k.1)
    ]
  ]

  below-new :
      (r : DesktopIconEntry)
      → text_eq r.identity new.identity ≡ false
      → text_lt new.identity r.identity ≡ false
      → text_lt r.identity new.identity ≡ true
  below-new r e d = elim (Bool-cases (text_lt r.identity new.identity)) [
    | inl l ↦ l
    | inr l ↦
        cc ((text_eq_iff r.identity new.identity).1 (text_lt-total r.identity new.identity l d), e)
  ]

  pub upsert-Sorted : (rs : List DesktopIconEntry) → Sorted rs → Sorted (upsert b path new rs)
  unfolding upsert
  upsert-Sorted [] h = (tt, tt)
  upsert-Sorted (r ∷ rs) h = elim (Bool-cases (text_eq r.identity new.identity)) [
    | inl e ↦ rw e (Below-placed b path r rs h.0, h.1)
    | inr e ↦ elim (Bool-cases (text_lt new.identity r.identity)) [
      | inl d ↦
          rw (e, d)
            (Below-placed b path new (r ∷ rs) (d, Below-trans new.identity r.identity rs d h.0), h)
      | inr d ↦ rw (e, d) (upsert-Below r.identity rs (below-new r e d) h.0, upsert-Sorted rs h.1)
    ]
  ]

  pub upsert-All :
      (P : DesktopIconEntry → Type 0) (rs : List DesktopIconEntry)
      → P (place b path new)
      → ((r : DesktopIconEntry) → r.identity ≡ new.identity → P r → P (place b path r))
      → All P rs
      → All P (upsert b path new rs)
  unfolding upsert
  upsert-All P [] k f h = (k, tt)
  upsert-All P (r ∷ rs) k f h = elim (Bool-cases (text_eq r.identity new.identity)) [
    | inl e ↦ rw e (f r ((text_eq_iff r.identity new.identity).0 e) h.0, h.1)
    | inr e ↦ elim (Bool-cases (text_lt new.identity r.identity)) [
      | inl d ↦ rw (e, d) (k, h)
      | inr d ↦ rw (e, d) (h.0, upsert-All P rs k f h.1)
    ]
  ]

  pub upsert-has :
      (rs : List DesktopIconEntry) → has_row b new.identity (upsert b path new rs) ≡ true
  unfolding upsert any
  upsert-has [] =
      rw (place-identity b path new, text_eq_refl new.identity, place-side b path new) refl
  upsert-has (r ∷ rs) = ground (
    arith,
    place-identity b path new,
    place-identity b path r,
    place-side b path new,
    place-side b path r,
    text_eq_refl new.identity,
    upsert-has rs,
  )

  pub upsert-keeps :
      (c : Bool) (t : Text) (rs : List DesktopIconEntry)
      → has_row c t rs ≡ true
      → has_row c t (upsert b path new rs) ≡ true
  unfolding upsert any
  upsert-keeps c t [] h = cc h
  upsert-keeps c t (r ∷ rs) h =
      ground (arith, place-identity b path r, place-keeps b c path r, upsert-keeps c t rs)

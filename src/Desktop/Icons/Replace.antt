-- ===== src/Desktop/Icons/Replace.antt =====
-- What `replace_icon_line` does to the fields of an entry.
use mathlib.Core.Path.{subst}
use easytidy.Prelude.{
  Bool, true, false, ◌⊎◌, inl, inr, ◌≡◌, refl, sym, ap, ◌∙◌, Option, none, some, List, [], ◌∷◌,
  ◌++◌, arith, if◌then◌else◌,
}
use easytidy.Lists.{All, find_map}
use easytidy.Text.{Text, codes, Free, lines, join, strip_prefix, starts_with}
use easytidy.Text.Lines.{IsLine, lines-join, lines-IsLine}
use easytidy.Text.Split.{strip_prefix-some}
use easytidy.Desktop.{field_of}
use easytidy.Desktop.Content.{IsLine-append}
use easytidy.Desktop.Icons.{icon_line, icon_loop, insert_second, replaced_lines, replace_icon_line}

icon_key-icon_line : (icon : Text) → strip_prefix (codes "Icon=") (icon_line icon) ≡ some icon
unfolding strip_prefix
icon_key-icon_line icon = refl

field_of-none :
    (key x : Text) (xs : List Text)
    → strip_prefix key x ≡ none
    → field_of key (x ∷ xs) ≡ field_of key xs
unfolding field_of find_map
field_of-none key x xs h = ground arith

field_of-some :
    (key x t : Text) (xs : List Text) → strip_prefix key x ≡ some t → field_of key (x ∷ xs) ≡ some t
unfolding field_of find_map
field_of-some key x t xs h = ground arith

field_of-same :
    (key x : Text) (xs ys : List Text)
    → field_of key xs ≡ field_of key ys
    → field_of key (x ∷ xs) ≡ field_of key (x ∷ ys)
unfolding field_of find_map
field_of-same key x xs ys h = ground arith

field_of-nil : (key : Text) → none ≡ field_of key []
unfolding field_of find_map
field_of-nil key = refl

field_of-first :
    (key x : Text) (xs : List Text) → field_of key (x ∷ xs) ≡ none → strip_prefix key x ≡ none
unfolding field_of find_map
field_of-first key x xs h = ground arith

-- A key that no `Icon=` line begins with.
abbrev pub OtherKey : Text → Type 0
OtherKey key = (t : Text) → strip_prefix key (icon_line t) ≡ none

icon_or_none :
    (l : Text)
    → (strip_prefix (codes "Icon=") l ≡ none)
      ⊎ ((t : Text) × (l ≡ icon_line t) × (starts_with (codes "Icon=") l ≡ true))
icon_or_none l = split (strip_prefix (codes "Icon=") l) refl
  where
    split :
        (o : Option Text)
        → strip_prefix (codes "Icon=") l ≡ o
        → (strip_prefix (codes "Icon=") l ≡ none)
          ⊎ ((t : Text) × (l ≡ icon_line t) × (starts_with (codes "Icon=") l ≡ true))
    split none e = inl e
    split (some t) e = inr (t, strip_prefix-some (codes "Icon=") l t e, rw (starts_with, e) refl)

module _ (icon : Text) where
  icon_loop-found : (ls : List Text) → icon_loop icon true ls ≡ (ls, true)
  unfolding icon_loop
  icon_loop-found [] = refl
  icon_loop-found (l ∷ ls) = rw (icon_loop-found ls) refl

  icon_loop-hit :
      (l : Text) (ls : List Text)
      → starts_with (codes "Icon=") l ≡ true
      → icon_loop icon false (l ∷ ls) ≡ (icon_line icon ∷ ls, true)
  unfolding icon_loop
  icon_loop-hit l ls e = rw (e, icon_loop-found ls) refl

  icon_loop-pass :
      (l : Text) (ls : List Text)
      → strip_prefix (codes "Icon=") l ≡ none
      → icon_loop icon false (l ∷ ls)
        ≡ (l ∷ (icon_loop icon false ls).0, (icon_loop icon false ls).1)
  unfolding icon_loop
  icon_loop-pass l ls e = rw e refl

  -- The lines that come out of the loop over `ls`, in its two ends.
  abbrev Left : List Text → List Text × Bool → Type 0
  Left ls (out, false) = (out ≡ ls) × (field_of (codes "Icon=") ls ≡ none)
  Left ls (out, true) =
      (field_of (codes "Icon=") out ≡ some icon)
      × ((key : Text) → OtherKey key → field_of key out ≡ field_of key ls)
      × (IsLine icon → All IsLine ls → All IsLine out)

  Left-pass :
      (l : Text) (ls : List Text) (r : List Text × Bool)
      → strip_prefix (codes "Icon=") l ≡ none
      → Left ls r
      → Left (l ∷ ls) (l ∷ r.0, r.1)
  Left-pass l ls (out, false) e h = (ap (◌∷◌ l) (h.0), field_of-none _ l ls e ∙ h.1)
  Left-pass l ls (out, true) e h = (
    field_of-none _ l out e ∙ h.0,
    λ key k. field_of-same key l out ls (h.1 key k),
    λ i a. (a.0, h.2 i a.1),
  )

  icon_line-IsLine : IsLine icon → IsLine (icon_line icon)
  icon_line-IsLine h = IsLine-append (codes "Icon=") icon (omega arith) h

  Left-hit : (t : Text) (ls : List Text) → Left (icon_line t ∷ ls) (icon_line icon ∷ ls, true)
  Left-hit t ls = (
    field_of-some _ (icon_line icon) icon ls (icon_key-icon_line icon),
    λ key k.
        field_of-none key (icon_line icon) ls (k icon)
        ∙ sym (field_of-none key (icon_line t) ls (k t)),
    λ i a. (icon_line-IsLine i, a.1),
  )

  icon_loop-Left : (ls : List Text) → Left ls (icon_loop icon false ls)
  icon_loop-Left [] = unfold icon_loop field_of find_map in (refl, refl)
  icon_loop-Left (l ∷ ls) = elim (icon_or_none l) [
    | inl e ↦
        rw (icon_loop-pass l ls e) (Left-pass l ls (icon_loop icon false ls) e (icon_loop-Left ls))
    | inr (t, d, e) ↦ rw (icon_loop-hit l ls e) (rw d (Left-hit t ls))
  ]

  -- The lines of the new text: the icon's line is among them, and other fields stay.
  abbrev Replaced : List Text → Option (List Text) → Type 0
  Replaced ls none = ls ≡ []
  Replaced ls (some []) = ◌≡◌ {A = Bool} true false
  Replaced ls (some (x ∷ xs)) =
      (field_of (codes "Icon=") (x ∷ xs) ≡ some icon)
      × ((key : Text) → OtherKey key → field_of key (x ∷ xs) ≡ field_of key ls)
      × (IsLine icon → All IsLine ls → All IsLine (x ∷ xs))

  Replaced-Left :
      (ls : List Text) (r : List Text × Bool)
      → Left ls r
      → Replaced ls (if r.1 then some r.0 else insert_second (icon_line icon) r.0)
  Replaced-Left ls ([], true) h = cc (field_of-nil (codes "Icon=") ∙ h.0)
  Replaced-Left ls (x ∷ xs, true) h = h
  Replaced-Left ls ([], false) h = sym h.0
  Replaced-Left ls (x ∷ xs, false) h =
      let miss : field_of (codes "Icon=") (x ∷ xs) ≡ none =
        subst (λ k. field_of (codes "Icon=") k ≡ none) (sym h.0) h.1 in
      (
        field_of-none (codes "Icon=") x _ (field_of-first _ x xs miss)
            ∙ field_of-some _ (icon_line icon) icon xs (icon_key-icon_line icon),
        λ key k.
            field_of-same key x (icon_line icon ∷ xs) xs
              (field_of-none key (icon_line icon) xs (k icon))
            ∙ ap (field_of key) h.0,
        λ i a.
            let b : All IsLine (x ∷ xs) = subst (All IsLine) (sym h.0) a in
            (b.0, (icon_line-IsLine i, b.1)),
      )

  replaced_lines-Replaced : (ls : List Text) → Replaced ls (replaced_lines icon ls)
  unfolding replaced_lines
  replaced_lines-Replaced ls = Replaced-Left ls (icon_loop icon false ls) (icon_loop-Left ls)

  -- For a text without carriage returns and an icon that is one line: only a text that has no
  -- line makes `replace_icon_line` panic. Otherwise the icon is read back from the new text, and every
  -- other field, one whose key no line with `Icon=` begins with, is read as before.
  pub replace_icon_line-fields :
      (content : Text)
      → Free b'\r' content
      → IsLine icon
      → ((lines content ≡ []) × (replace_icon_line content icon ≡ none))
        ⊎ ((new : Text) × (replace_icon_line content icon ≡ some new)
            × (field_of (codes "Icon=") (lines new) ≡ some icon)
            × ((key : Text)
                → OtherKey key
                → field_of key (lines new) ≡ field_of key (lines content)))
  unfolding replace_icon_line
  replace_icon_line-fields content h i =
      split (replaced_lines icon (lines content)) (replaced_lines-Replaced (lines content)) refl
    where
      split :
          (o : Option (List Text))
          → Replaced (lines content) o
          → replaced_lines icon (lines content) ≡ o
          → ((lines content ≡ []) × (replace_icon_line content icon ≡ none))
            ⊎ ((new : Text) × (replace_icon_line content icon ≡ some new)
                × (field_of (codes "Icon=") (lines new) ≡ some icon)
                × ((key : Text)
                    → OtherKey key
                    → field_of key (lines new) ≡ field_of key (lines content)))
      split none r e = inl (r, rw (replace_icon_line, e) refl)
      split (some []) r e = cc r
      split (some (x ∷ xs)) r e =
          let back = lines-join x xs (r.2 i (lines-IsLine content h)) in
          inr (
            join b'\n' (x ∷ xs) ++ (b'\n' ∷ []),
            rw (replace_icon_line, e) refl,
            rw back (r.0),
            λ key k. rw back (r.1 key k),
          )

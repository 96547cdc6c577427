-- ===== src/Desktop/Fields.antt =====
-- The fields of an exported entry, read back by `parse_pt_value` and `desktop_field`.
use mathlib.Core.Path.{subst}
use easytidy.Prelude.{
  Bool, true, false, ◌≡◌, ◌≢◌, refl, ap, ◌∙◌, Option, none, some, List, [], ◌∷◌, ◌++◌, arith,
  append_assoc,
}
use easytidy.Lists.{find_map}
use easytidy.Text.{Text, codes, is_empty, unlines, lines, strip_prefix, contains}
use easytidy.Text.Split.{text_eq_refl, text_eq_iff}
use easytidy.Text.White.{trim}
use easytidy.Desktop.{
  PassthroughSpec, sanitize_ini_value, display_or, passthrough_display, name_lines, middle_lines,
  mark_lines, generate_passthrough_content, field_of, parse_pt_value, desktop_field, optional,
  notify_line, sanitized, optional_lines,
}
use easytidy.Desktop.Sanitize.{trim-sanitize_ini_value}
use easytidy.Desktop.Content.{IsSpec, lines-generate_passthrough_content}

pub field_of-append :
    (key : Text) (xs ys : List Text)
    → field_of key xs ≡ none
    → field_of key (xs ++ ys) ≡ field_of key ys
unfolding field_of find_map
field_of-append key [] ys h = refl
field_of-append key (x ∷ xs) ys h = ground (arith, field_of-append key xs ys)

strip_prefix-append : (p s : Text) → strip_prefix p (p ++ s) ≡ some s
unfolding strip_prefix
strip_prefix-append [] s = refl
strip_prefix-append (x ∷ p) s = ground (arith, strip_prefix-append p s)

contains-behind : (p a s : Text) → contains p s ≡ true → contains p (a ++ s) ≡ true
unfolding contains
contains-behind p [] s h = h
contains-behind p (x ∷ a) s h = ground (arith, contains-behind p a s h)

contains-front : (p s : Text) → contains p (p ++ s) ≡ true
unfolding contains
contains-front [] [] = unfold strip_prefix in refl
contains-front [] (x ∷ s) = unfold strip_prefix in refl
contains-front (x ∷ p) s = ground (arith, strip_prefix-append (x ∷ p) s)

unlines-append : (xs ys : List Text) → unlines (xs ++ ys) ≡ unlines xs ++ unlines ys
unfolding unlines
unlines-append [] ys = refl
unlines-append (x ∷ xs) ys = simp (unlines-append xs ys, append_assoc)

optional-I : (k key : Text) (o : Option Text) → field_of (b'X' ∷ k) (optional (b'I' ∷ key) o) ≡ none
unfolding field_of find_map strip_prefix
optional-I k key none = refl
optional-I k key (some t) = refl

optional-S : (k key : Text) (o : Option Text) → field_of (b'X' ∷ k) (optional (b'S' ∷ key) o) ≡ none
unfolding field_of find_map strip_prefix
optional-S k key none = refl
optional-S k key (some t) = refl

notify-X : (k : Text) (b : Bool) → field_of (b'X' ∷ k) (notify_line b) ≡ none
unfolding field_of find_map strip_prefix
notify-X k true = refl
notify-X k false = refl

contains-unlines : (p : Text) (xs ys : List Text) → contains p (unlines (xs ++ (p ∷ ys))) ≡ true
unfolding unlines
contains-unlines p [] ys = contains-front p (b'\n' ∷ unlines ys)
contains-unlines p (x ∷ xs) ys =
    contains-behind p x _ (contains-behind p (b'\n' ∷ []) _ (contains-unlines p xs ys))

trim-display_or : (o : Option Text) (t : Text) → trim t ≡ t → trim (display_or o t) ≡ display_or o t
unfolding display_or
trim-display_or none t h = unfold display_or in h
trim-display_or (some n) t h = split (is_empty (sanitize_ini_value n)) refl
  where
    split :
        (b : Bool)
        → is_empty (sanitize_ini_value n) ≡ b
        → trim (display_or (some n) t) ≡ display_or (some n) t
    split true e = rw (display_or, e) h
    split false e = rw (display_or, e) (trim-sanitize_ini_value n)

module _ (spec : PassthroughSpec) where
  name-X : (k : Text) → field_of (b'X' ∷ k) (name_lines spec) ≡ none
  unfolding name_lines field_of find_map strip_prefix
  name-X k = refl

  optional_lines-X : (k : Text) → field_of (b'X' ∷ k) (optional_lines spec) ≡ none
  optional_lines-X k =
      field_of-append (b'X' ∷ k) (optional (codes "Icon=") (sanitized spec.icon)) _
        (optional-I k (codes "con=") (sanitized spec.icon))
      ∙ field_of-append (b'X' ∷ k) (notify_line spec.startup_notify) _
          (notify-X k spec.startup_notify)
      ∙ optional-S k (codes "tartupWMClass=") (sanitized spec.startup_wm_class)

  middle-X : (k : Text) → field_of (b'X' ∷ k) (middle_lines spec) ≡ none
  unfolding middle_lines field_of find_map strip_prefix
  middle-X k = field_of-append (b'X' ∷ k) (optional_lines spec) _ (optional_lines-X k)

  -- A field whose name starts with `X` is looked up among the marks.
  field_of-marks :
      (k : Text)
      → IsSpec spec
      → field_of (b'X' ∷ k) (lines (generate_passthrough_content spec))
        ≡ field_of (b'X' ∷ k) (mark_lines spec)
  field_of-marks k h = rw (lines-generate_passthrough_content spec h) (
      field_of-append (b'X' ∷ k) (name_lines spec) _ (name-X k)
      ∙ field_of-append (b'X' ∷ k) (middle_lines spec) _ (middle-X k))

  pub mark-container :
      field_of (codes "X-easytidy-container=") (mark_lines spec) ≡ some spec.container
  unfolding mark_lines field_of find_map strip_prefix
  mark-container = refl

  pub mark-app_id : field_of (codes "X-easytidy-app-id=") (mark_lines spec) ≡ some spec.app_id
  unfolding mark_lines field_of find_map strip_prefix
  mark-app_id = refl

  pub mark-app :
      field_of (codes "X-easytidy-app=") (mark_lines spec)
      ≡ some (sanitize_ini_value spec.desktop_file)
  unfolding mark_lines field_of find_map strip_prefix
  mark-app = refl

  name_field :
      (ls : List Text)
      → field_of (codes "Name=") (name_lines spec ++ ls) ≡ some (passthrough_display spec)
  unfolding name_lines field_of find_map strip_prefix
  name_field ls = refl

  module _ (h : IsSpec spec) where
    pub field_container :
        field_of (codes "X-easytidy-container=") (lines (generate_passthrough_content spec))
        ≡ some spec.container
    field_container = field_of-marks _ h ∙ mark-container

    pub parse_own :
        (k : Text)
        → parse_pt_value (generate_passthrough_content spec) spec.container (b'X' ∷ k)
          ≡ field_of (b'X' ∷ k) (mark_lines spec)
    unfolding parse_pt_value
    parse_own k =
        rw (parse_pt_value, field_container, text_eq_refl spec.container) (field_of-marks k h)

    pub parse_other :
        (other key : Text)
        → other ≢ spec.container
        → parse_pt_value (generate_passthrough_content spec) other key ≡ none
    unfolding parse_pt_value
    parse_other other key ne = rw field_container (ground (arith, text_eq_iff spec.container other))

    title_read :
        desktop_field (generate_passthrough_content spec) (codes "Name=")
        ≡ some (passthrough_display spec)
    unfolding passthrough_display desktop_field
    title_read =
        rw
          (
            desktop_field,
            lines-generate_passthrough_content spec h,
            name_field (middle_lines spec ++ mark_lines spec),
          )
          (ap some (trim-display_or spec.display_name _ (trim-sanitize_ini_value spec.app_name)))

    pub has_mark : contains (codes "X-easytidy-pt=1") (generate_passthrough_content spec) ≡ true
    unfolding generate_passthrough_content mark_lines
    has_mark =
        subst (λ ls. contains (codes "X-easytidy-pt=1") (unlines ls) ≡ true)
          (append_assoc (name_lines spec) (middle_lines spec) (mark_lines spec))
          (contains-unlines (codes "X-easytidy-pt=1") (name_lines spec ++ middle_lines spec) _)

    -- From the text that `generate_passthrough_content` makes of a container, an id and a path of
    -- a program without line breaks, the first two without white space: for its container the id, the tidied path of
    -- the desktop file and, as the title, the display name are read back just as they are, whatever
    -- the texts of the application hold; for any other container nothing is read.
    pub generate_passthrough_content-fields :
        (other key : Text)
        → other ≢ spec.container
        → (parse_pt_value
              (generate_passthrough_content spec)
              spec.container
              (codes "X-easytidy-app-id=")
            ≡ some spec.app_id)
          × (parse_pt_value
                (generate_passthrough_content spec)
                spec.container
                (codes "X-easytidy-app=")
              ≡ some (sanitize_ini_value spec.desktop_file))
          × (desktop_field (generate_passthrough_content spec) (codes "Name=")
              ≡ some (passthrough_display spec))
          × (parse_pt_value (generate_passthrough_content spec) other key ≡ none)
    generate_passthrough_content-fields other key ne =
        (parse_own _ ∙ mark-app_id, parse_own _ ∙ mark-app, title_read, parse_other other key ne)

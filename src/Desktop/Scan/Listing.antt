-- ===== src/Desktop/Scan/Listing.antt =====
-- Which files are entries of which identity, apart from the rows of the scan.
use easytidy.Prelude.{
  Bool, true, false, not, ◌&&◌, ◌||◌, ◌≡◌, refl, ap, sym, ◌∙◌, Option, none, some, List, [], ◌∷◌,
  ◌++◌, arith, if◌then◌else◌,
}
use easytidy.Lists.{All, All-imp, any}
use easytidy.Text.{Text, codes, is_empty, text_eq, starts_with, lines}
use easytidy.Text.Split.{text_eq_iff, text_eq_refl}
use easytidy.Desktop.{unwrap_or, desktop_field}
use easytidy.Desktop.Folders.{File, ends_with}
use easytidy.Desktop.Icons.{is_pt_line}
use easytidy.Desktop.Scan.{DesktopIconEntry, classify, container_of, row_of}

-- The container's name, with the application's id behind it where the file is an application's.
abbrev pub identity_in : Text → Text → Text
identity_in name content =
    if any is_pt_line (lines content) || starts_with (codes "easytidy-pt-") name
    then container_of name content
      ++ (b'/' ∷ unwrap_or (desktop_field content (codes "X-easytidy-app-id=")) [])
    else container_of name content

-- The file has the name of an entry, can be read, and has a container and the identity `t`.
abbrev pub lists : Text → File → Bool
lists t (name, none) = false
lists t (name, some content) =
    (starts_with (codes "easytidy-") name
      && ends_with (codes ".desktop") name
      && not (is_empty (container_of name content)))
    && text_eq (identity_in name content) t

classify-identity :
    (b : Bool) (container aid : Text)
    → (classify b container aid).1 ≡ (if b then container ++ (b'/' ∷ aid) else container)
classify-identity true container aid = refl
classify-identity false container aid = refl

identity-is :
    (name content : Text)
    → (classify
        (any is_pt_line (lines content) || starts_with (codes "easytidy-pt-") name)
        (container_of name content)
        (unwrap_or (desktop_field content (codes "X-easytidy-app-id=")) [])).1
      ≡ identity_in name content
identity-is name content =
    classify-identity (any is_pt_line (lines content) || starts_with (codes "easytidy-pt-") name)
      (container_of name content)
      (unwrap_or (desktop_field content (codes "X-easytidy-app-id=")) [])

guarded :
    (g : Bool) (x r : DesktopIconEntry)
    → ◌≡◌ {A = Option DesktopIconEntry} (if g then some x else none) (some r)
    → (g ≡ true) × (x ≡ r)
guarded true x r h = (refl, cc h)
guarded false x r h = cc h

present :
    (g : Bool) (x : DesktopIconEntry)
    → g ≡ true
    → ◌≡◌ {A = Option DesktopIconEntry} (if g then some x else none) (some x)
present true x h = refl
present false x h = cc h

both_true : (a b : Bool) → (a && b) ≡ true → (a ≡ true) × (b ≡ true)
both_true true b h = (refl, h)
both_true false b h = cc h

-- A file that begins a row lists its identity, and the row has no path yet.
pub row-lists :
    (f : File) (r : DesktopIconEntry)
    → row_of f ≡ some r
    → (lists r.identity f ≡ true) × (r.menu_path ≡ none) × (r.desktop_path ≡ none)
unfolding row_of
row-lists (name, none) r e = cc
row-lists (name, some content) r e =
    let (g, q) = guarded _ _ r e in
    let same : identity_in name content ≡ r.identity =
      sym (identity-is name content) ∙ ap (λ (x : DesktopIconEntry). x.identity) q in
    (
      rw (g, same, text_eq_refl r.identity) refl,
      sym (ap (λ (x : DesktopIconEntry). x.menu_path) q),
      sym (ap (λ (x : DesktopIconEntry). x.desktop_path) q),
    )

pub lists-row :
    (t : Text) (f : File)
    → lists t f ≡ true
    → (r : DesktopIconEntry) × (row_of f ≡ some r) × (r.identity ≡ t)
unfolding row_of
lists-row t (name, none) h = cc h
lists-row t (name, some content) h =
    let (g, k) = both_true _ _ h in
    (_, present _ _ g, identity-is name content ∙ (text_eq_iff (identity_in name content) t).0 k)

-- The path, if there is one, is a file of the list that lists the identity.
abbrev pub is_from : List File → Text → Option Text → Bool
is_from fs t none = true
is_from fs t (some path) = any (λ (f : File). text_eq f.0 path && lists t f) fs

is_from-more :
    (f : File) (fs : List File) (t path : Text)
    → is_from fs t (some path) ≡ true
    → is_from (f ∷ fs) t (some path) ≡ true
unfolding any
is_from-more f fs t path h = ground (arith, h)

abbrev pub Own : List File → File → Type 0
Own fs f = (t : Text) → lists t f ≡ true → is_from fs t (some f.0) ≡ true

pub is_from-Own : (fs : List File) → All (Own fs) fs
unfolding any
is_from-Own [] = tt
is_from-Own (f ∷ fs) = (
  λ t h. rw (text_eq_refl f.0, h) refl,
  All-imp (λ g k t h. is_from-more f fs t g.0 (k t h)) fs (is_from-Own fs),
)

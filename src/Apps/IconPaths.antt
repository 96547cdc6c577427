-- ===== src/Apps/IconPaths.antt =====
-- `rewrite_icon_paths` of crates/server/src/services/passthrough.rs: the icons of applications after
-- their folder has moved.
use easytidy.Prelude.{◌≡◌, refl, sym, Option, none, some, List, [], ◌∷◌, ◌++◌, map}
use easytidy.Text.{Text, strip_prefix}
use easytidy.Apps.{PtConfiguredApp, File}

abbrev pub rewritten : Text → Option Text → Text → Text
rewritten new_prefix none icon = icon
rewritten new_prefix (some rest) icon = new_prefix ++ rest

unfoldable pub rewrite_icon : Text → Text → Option Text → Option Text
unfolding strip_prefix
rewrite_icon legacy_prefix new_prefix none = none
rewrite_icon legacy_prefix new_prefix (some icon) =
    some (rewritten new_prefix (strip_prefix legacy_prefix icon) icon)

abbrev pub with_icon : Text → Text → PtConfiguredApp → PtConfiguredApp
with_icon legacy_prefix new_prefix a = record a {
  icon = rewrite_icon legacy_prefix new_prefix a.icon;
}

-- A file that did not change is not written, which leaves the same.
unfoldable pub rewrite_icon_paths : Text → Text → File → File
unfolding rewrite_icon
rewrite_icon_paths legacy_dir new_dir none = none
rewrite_icon_paths legacy_dir new_dir (some cfg) =
    let f = with_icon (legacy_dir ++ (b'/' ∷ [])) (new_dir ++ (b'/' ∷ [])) in
    some (record { apps = map f cfg.apps; pinned = map f cfg.pinned })

-- The prefixes for which a rewritten path is not an old one.
abbrev pub Apart : Text → Text → Type 0
Apart legacy_prefix new_prefix =
    (rest : Text) → strip_prefix legacy_prefix (new_prefix ++ rest) ≡ none

rewrite_icon-twice :
    (l n : Text) (i : Option Text)
    → Apart l n
    → rewrite_icon l n (rewrite_icon l n i) ≡ rewrite_icon l n i
unfolding rewrite_icon
rewrite_icon-twice l n none h = refl
rewrite_icon-twice l n (some i) h =
    elim (strip_prefix l i)
        as (λ o.
          o ≡ strip_prefix l i
          → some (rewritten n (strip_prefix l (rewritten n o i)) (rewritten n o i))
            ≡ some (rewritten n o i)) [
              | none ↦ λ e. rw (sym e) refl
              | some rest ↦ λ e. rw (h rest) refl
            ]
      refl

map-twice :
    (l n : Text) (apps : List PtConfiguredApp)
    → Apart l n
    → map (with_icon l n) (map (with_icon l n) apps) ≡ map (with_icon l n) apps
map-twice l n [] h = refl
map-twice l n (a ∷ apps) h = rw (rewrite_icon-twice l n a.icon h, map-twice l n apps h) refl

-- Rewriting the paths of icons again leaves the file as it is, if a path below the new folder is
-- never one below the old.
pub rewrite_icon_paths-twice :
    (legacy_dir new_dir : Text) (file : File)
    → Apart (legacy_dir ++ (b'/' ∷ [])) (new_dir ++ (b'/' ∷ []))
    → rewrite_icon_paths legacy_dir new_dir (rewrite_icon_paths legacy_dir new_dir file)
      ≡ rewrite_icon_paths legacy_dir new_dir file
unfolding rewrite_icon_paths
rewrite_icon_paths-twice legacy_dir new_dir none h = refl
rewrite_icon_paths-twice legacy_dir new_dir (some cfg) h =
    rw (map-twice _ _ cfg.apps h, map-twice _ _ cfg.pinned h) refl

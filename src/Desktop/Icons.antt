-- ===== src/Desktop/Icons.antt =====
-- crates/core/src/desktop.rs: the icon of an entry that is already written, and the removal of the
-- entries of a container. The picture itself is made by another package.
pub mod Replace
use easytidy.Prelude.{
  ℕ, zero, suc, ◌+◌, ◌==◌, Bool, true, false, not, ◌&&◌, ◌||◌, Option, none, some, List, [], ◌∷◌,
  ◌++◌, if◌then◌else◌,
}
use easytidy.Lists.{find, any, retain}
use easytidy.Text.{Text, codes, text_eq, strip_prefix, starts_with, join, lines}
use easytidy.Text.White.{trim}
use easytidy.Desktop.{or_else, parse_pt_value, gui_file_name}
use easytidy.Desktop.Folders.{
  File, Folder, Applications, no_data_home, missing, present, HostFolders, ConfigError,
  cannot_update, no_entry, no_shortcut, named, delete, ends_with, is_text,
}

abbrev pub icon_line : Text → Text
icon_line icon = codes "Icon=" ++ icon

-- The loop of `replace_icon_line`: what it puts out, and whether a line was replaced. `found` is
-- `done` of the source.
unfoldable pub icon_loop : Text → Bool → List Text → List Text × Bool
unfolding strip_prefix
icon_loop icon found [] = ([], found)
icon_loop icon found (line ∷ ls) =
    let hit = not found && starts_with (codes "Icon=") line in
    let (out, found') = icon_loop icon (found || hit) ls in
    ((if hit then icon_line icon else line) ∷ out, found')

-- `insert(1, ..)`, which panics on an empty vector: `none`.
abbrev pub insert_second : Text → List Text → Option (List Text)
insert_second line [] = none
insert_second line (x ∷ xs) = some (x ∷ line ∷ xs)

unfoldable pub replaced_lines : Text → List Text → Option (List Text)
unfolding icon_loop
replaced_lines icon ls =
    let (out, found) = icon_loop icon false ls in
    if found then some out else insert_second (icon_line icon) out

-- `none` is a panic.
unfoldable pub replace_icon_line : Text → Text → Option Text
unfolding replaced_lines lines join
replace_icon_line content icon = elim (replaced_lines icon (lines content)) [
  | none ↦ none
  | some ls ↦ some (join b'\n' ls ++ (b'\n' ∷ []))
]

-- How an update ends: with so many files touched, with an error, or with a panic.
pub data IconUpdate : Type 0 where
  touched : ℕ → IconUpdate
  refused : ConfigError → IconUpdate
  panicked : IconUpdate

abbrev one_more : IconUpdate → IconUpdate
one_more (touched n) = touched (suc n)
one_more (refused e) = refused e
one_more panicked = panicked

-- The files of a folder that `hit` accepts get the icon, up to the first failure.
unfoldable pub update_files :
    (Text → Text → Bool) → Text → Bool → List File → List File × IconUpdate
unfolding replace_icon_line
update_files hit icon writable [] = ([], touched 0)
update_files hit icon writable ((name, none) ∷ fs) =
    let (fs', r) = update_files hit icon writable fs in ((name, none) ∷ fs', r)
update_files hit icon writable ((name, some content) ∷ fs) =
    let (fs', r) = update_files hit icon writable fs in
    if hit name content
    then elim (replace_icon_line content icon) [
      | none ↦ ((name, some content) ∷ fs, panicked)
      | some content' ↦
          if writable
          then ((name, some content') ∷ fs', one_more r)
          else ((name, some content) ∷ fs, refused (cannot_update name))
    ]
    else ((name, some content) ∷ fs', r)

abbrev pub update_applications :
    (Text → Text → Bool) → Text → Applications → Applications × IconUpdate
update_applications hit icon no_data_home = (no_data_home, touched 0)
update_applications hit icon (missing b) = (missing b, touched 0)
update_applications hit icon (present d) =
    let (fs, r) = update_files hit icon d.writable d.files in (present (record d { files = fs }), r)

abbrev pub update_desktop : (Text → Text → Bool) → Text → Option Folder → Option Folder × IconUpdate
update_desktop hit icon none = (none, touched 0)
update_desktop hit icon (some d) =
    let (fs, r) = update_files hit icon d.writable d.files in (some (record d { files = fs }), r)

-- The result where no file was touched is `missed`.
abbrev pub total : ConfigError → ℕ → IconUpdate → IconUpdate
total missed n (touched m) = if n + m == 0 then refused missed else touched (n + m)
total missed n (refused e) = refused e
total missed n panicked = panicked

-- The applications folder first, then the desktop.
unfoldable pub update_folders :
    (Text → Text → Bool) → ConfigError → HostFolders → Text → HostFolders × IconUpdate
unfolding update_files
update_folders hit missed h icon =
    let (apps, r) = update_applications hit icon h.applications in
    let h' : HostFolders = record h { applications = apps } in
    elim r [
      | refused e ↦ (h', refused e)
      | panicked ↦ (h', panicked)
      | touched n ↦
          let (desktop, r') = update_desktop hit icon h.desktop in
          (record h' { desktop = desktop }, total missed n r')
    ]

-- A folder holds one file of the name at most.
unfoldable pub update_entry_icons : HostFolders → Text → Text → HostFolders × IconUpdate
unfolding update_folders
update_entry_icons h container icon =
    update_folders (λ name content. text_eq name (gui_file_name container)) (no_entry container) h
      icon

abbrev pub is_pt_line : Text → Bool
is_pt_line line = text_eq (trim line) (codes "X-easytidy-pt=1")

-- `X-easytidy-app-id`, or in an older file `X-easytidy-app`, is the id. There is no match
-- without an id.
abbrev matches_id : Text → Text → Option Text → Bool
matches_id content container none = false
matches_id content container (some id) =
    is_text
      (or_else (parse_pt_value content container (codes "X-easytidy-app-id="))
        (parse_pt_value content container (codes "X-easytidy-app=")))
      id

abbrev is_there : Option Text → Bool
is_there none = false
is_there (some t) = true

-- The tests of the loop of `update_pt_icons`.
unfoldable pub is_shortcut_of : Text → Option Text → Text → Text → Bool
unfolding ends_with trim parse_pt_value any lines
is_shortcut_of container app_id name content =
    starts_with (codes "easytidy-") name
    && ends_with (codes ".desktop") name
    && any is_pt_line (lines content)
    && is_there (parse_pt_value content container (codes "X-easytidy-container="))
    && matches_id content container app_id

unfoldable pub update_pt_icons : HostFolders → Text → Option Text → Text → HostFolders × IconUpdate
unfolding update_folders is_shortcut_of
update_pt_icons h container app_id icon =
    update_folders (is_shortcut_of container app_id) (no_shortcut container app_id) h icon

-- Whether a file of the name was removed from the folder.
unfoldable pub remove_named : Text → Folder → Folder × Bool
unfolding delete any
remove_named name d =
    if any (named name) d.files && d.writable
    then (record d { files = delete name d.files }, true)
    else (d, false)

abbrev removed_path : Bool → Text → List Text
removed_path true name = name ∷ []
removed_path false name = []

unfoldable pub remove_entry_desktops : HostFolders → Text → HostFolders × List Text
unfolding remove_named
remove_entry_desktops h container =
    let name = gui_file_name container in
    let (apps, a) : Applications × Bool = elim h.applications [
      | present d ↦ let (d', b) = remove_named name d in (present d', b)
      | no_data_home ↦ (no_data_home, false)
      | missing c ↦ (missing c, false)
    ] in
    let (desktop, b) : Option Folder × Bool = elim h.desktop [
      | some d ↦ let (d', b) = remove_named name d in (some d', b)
      | none ↦ (none, false)
    ] in
    (record { applications = apps; desktop = desktop }, removed_path a name ++ removed_path b name)

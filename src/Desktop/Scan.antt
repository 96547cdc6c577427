-- ===== src/Desktop/Scan.antt =====
-- crates/core/src/desktop.rs, `scan_desktop_icons`: the entries of the applications folder and of the
-- desktop, one row for each identity. The `BTreeMap` is a list in the order of identities.
pub mod Listing
pub mod Rows
use easytidy.Prelude.{
  ℕ, zero, suc, Bool, true, false, not, ◌&&◌, ◌||◌, Option, none, some, List, [], ◌∷◌, ◌++◌,
  if◌then◌else◌,
}
use easytidy.Lists.{length, any}
use easytidy.Text.{Text, codes, is_empty, text_eq, strip_prefix, starts_with, split, lines}
use easytidy.Text.Order.{text_lt}
use easytidy.Desktop.{unwrap_or, desktop_field}
use easytidy.Desktop.Folders.{
  File, Folder, Applications, no_data_home, missing, present, HostFolders, ends_with,
}
use easytidy.Desktop.Icons.{is_pt_line}

pub data Kind : Type 0 where
  entry app : Kind

pub record DesktopIconEntry : Type 0 where
  pub identity : Text
  pub kind : Kind
  pub container : Text
  pub title : Text
  pub icon : Text
  pub app_id : Option Text
  pub app_file : Option Text
  pub menu_path : Option Text
  pub desktop_path : Option Text

-- `str::strip_suffix`
unfoldable pub strip_suffix : Text → Text → Option Text
unfolding text_eq
strip_suffix p [] = if is_empty p then some [] else none
strip_suffix p (x ∷ xs) =
    let rest = strip_suffix p xs in
    if text_eq p (x ∷ xs) then some [] else elim rest [ none ↦ none | some r ↦ some (x ∷ r) ]

-- `trim_start_matches` and `trim_end_matches` take a text that is not empty away as often as it is
-- there; the fuel is the length of the text.
unfoldable pub strip_often : (Text → Option Text) → ℕ → Text → Text
strip_often strip zero s = s
strip_often strip (suc f) s = elim (strip s) [ none ↦ s | some r ↦ strip_often strip f r ]

unfoldable pub stem_of : Text → Text
unfolding strip_often strip_suffix strip_prefix
stem_of name =
    let front = strip_often (strip_prefix (codes "easytidy-")) (length name) name in
    strip_often (strip_suffix (codes ".desktop")) (length front) front

abbrev first : List Text → Option Text
first [] = none
first (w ∷ ws) = some w

-- The container by the name of the file.
unfoldable pub container_of_name : Text → Option Text
unfolding stem_of split
container_of_name name = elim (strip_prefix (codes "gui-") (stem_of name)) [
  | some c ↦ some c
  | none ↦ elim (strip_prefix (codes "pt-") (stem_of name)) [
    | some rest ↦ first (split b'-' rest)
    | none ↦ none
  ]
]

unfoldable pub container_of : Text → Text → Text
unfolding desktop_field container_of_name
container_of name content = elim (desktop_field content (codes "X-easytidy-container=")) [
  | some c ↦ c
  | none ↦ unwrap_or (container_of_name name) []
]

-- `(kind, identity, entry_app_id)`
abbrev pub classify : Bool → Text → Text → Kind × Text × Option Text
classify true container aid = (app, container ++ (b'/' ∷ aid), some aid)
classify false container aid = (entry, container, none)

-- The row that a file begins, still without a path.
unfoldable pub row_of : File → Option DesktopIconEntry
unfolding desktop_field container_of ends_with any
row_of (name, none) = none
row_of (name, some content) =
    let container = container_of name content in
    let is_pt = any is_pt_line (lines content) || starts_with (codes "easytidy-pt-") name in
    let aid = unwrap_or (desktop_field content (codes "X-easytidy-app-id=")) [] in
    let (kind, identity, app_id) = classify is_pt container aid in
    if starts_with (codes "easytidy-") name
      && ends_with (codes ".desktop") name
      && not (is_empty container)
    then some (record {
      identity = identity;
      kind = kind;
      container = container;
      title = unwrap_or (desktop_field content (codes "Name=")) name;
      icon = unwrap_or (desktop_field content (codes "Icon=")) [];
      app_id = app_id;
      app_file = desktop_field content (codes "X-easytidy-app=");
      menu_path = none;
      desktop_path = none;
    })
    else none

abbrev pub place : Bool → Text → DesktopIconEntry → DesktopIconEntry
place true path r = record r { desktop_path = some path }
place false path r = record r { menu_path = some path }

-- `entries.entry(identity).or_insert_with(..)`, and the path.
unfoldable pub upsert :
    Bool → Text → DesktopIconEntry → List DesktopIconEntry → List DesktopIconEntry
unfolding text_lt text_eq
upsert is_desktop path new [] = place is_desktop path new ∷ []
upsert is_desktop path new (r ∷ rs) =
    let rest = upsert is_desktop path new rs in
    if text_eq r.identity new.identity
    then place is_desktop path r ∷ rs
    else if text_lt new.identity r.identity
    then place is_desktop path new ∷ r ∷ rs
    else r ∷ rest

unfoldable pub scan_file : Bool → List DesktopIconEntry → File → List DesktopIconEntry
unfolding row_of upsert
scan_file is_desktop rows f = elim (row_of f) [
  | none ↦ rows
  | some r ↦ upsert is_desktop f.0 r rows
]

unfoldable pub scan_files : Bool → List DesktopIconEntry → List File → List DesktopIconEntry
unfolding scan_file
scan_files is_desktop rows [] = rows
scan_files is_desktop rows (f ∷ fs) = scan_files is_desktop (scan_file is_desktop rows f) fs

abbrev pub menu_files : Applications → List File
menu_files no_data_home = []
menu_files (missing b) = []
menu_files (present d) = d.files

abbrev pub desktop_files : Option Folder → List File
desktop_files none = []
desktop_files (some d) = d.files

unfoldable pub scan_desktop_icons : HostFolders → List DesktopIconEntry
unfolding scan_files
scan_desktop_icons h =
    scan_files true (scan_files false [] (menu_files h.applications)) (desktop_files h.desktop)

-- ===== src/Desktop.antt =====
-- crates/core/src/desktop.rs: the texts of desktop entries. A text that the source formats line by
-- line is the list of its lines. Icons are pictures of another package: `ensure_icon` stands for
-- `ensure_container_entry_icon`, which draws one and answers its path.
pub mod Sanitize
pub mod Content
pub mod Fields
pub mod Folders
pub mod Export
pub mod Icons
pub mod Scan
pub mod ResourceDirs
mod Tests
use easytidy.Prelude.{
  ℕ, Bool, true, false, ◌&&◌, ◌||◌, Option, none, some, List, [], ◌∷◌, ◌++◌, ◌==◌, ltb, leb,
  if◌then◌else◌, map,
}
use easytidy.Lists.{find_map}
use easytidy.Text.{Text, codes, is_empty, join, unlines, lines, strip_prefix, text_eq}
use easytidy.Text.White.{words, trim}

-- The `filter_map` of `sanitize_ini_value`.
unfoldable pub clean_ini : Text → Text
clean_ini [] = []
clean_ini (c ∷ cs) =
    let rest = clean_ini cs in
    if c == b'\n' || c == b'\r' then b' ' ∷ rest else if ltb c 32 then rest else c ∷ rest

unfoldable pub sanitize_ini_value : Text → Text
unfolding clean_ini words
sanitize_ini_value s = join b' ' (words (clean_ini s))

pub record PassthroughSpec : Type 0 where
  pub container : Text
  pub app_name : Text
  pub display_name : Option Text
  pub comment : Option Text
  pub categories : Option Text
  pub app_id : Text
  pub icon : Option Text
  pub desktop_file : Text
  pub cli_path : Text
  pub startup_notify : Bool
  pub startup_wm_class : Option Text

-- `map(sanitize_ini_value).filter(|s| !s.is_empty()).unwrap_or_else(..)`
unfoldable pub display_or : Option Text → Text → Text
display_or none fallback = fallback
display_or (some name) fallback =
    let tidy = sanitize_ini_value name in if is_empty tidy then fallback else tidy

abbrev pub unwrap_or : Option Text → Text → Text
unwrap_or none fallback = fallback
unwrap_or (some t) fallback = t

-- The line of a field that is written only if it has a value.
abbrev pub optional : Text → Option Text → List Text
optional key none = []
optional key (some value) = (key ++ value) ∷ []

abbrev pub sanitized : Option Text → Option Text
sanitized none = none
sanitized (some t) = some (sanitize_ini_value t)

abbrev pub notify_line : Bool → List Text
notify_line true = codes "StartupNotify=true" ∷ []
notify_line false = []

unfoldable pub passthrough_display : PassthroughSpec → Text
unfolding display_or
passthrough_display spec = display_or spec.display_name (sanitize_ini_value spec.app_name)

-- The lines of the entry itself. `Icon`, `StartupNotify` and `StartupWMClass` may be missing.
unfoldable pub name_lines : PassthroughSpec → List Text
unfolding passthrough_display sanitize_ini_value
name_lines spec =
    let display = passthrough_display spec in
    let comment = unwrap_or spec.comment (codes "easytidy passthrough") in
    let categories = unwrap_or spec.categories (codes "Application;Utility;") in
    codes "[Desktop Entry]"
    ∷ (codes "Name=" ++ display)
    ∷ (codes "GenericName=easytidy " ++ (spec.container ++ (codes " - " ++ display)))
    ∷ (codes "Comment=" ++ sanitize_ini_value comment)
    ∷ (codes "Categories=" ++ sanitize_ini_value categories)
    ∷ []

abbrev exec_line : PassthroughSpec → Text
exec_line spec =
    let options = spec.app_id ++ (codes " --container " ++ spec.container) in
    codes "Exec=" ++ (spec.cli_path ++ (codes " launch --id " ++ options))

abbrev optional_lines : PassthroughSpec → List Text
optional_lines spec =
    optional (codes "Icon=") (sanitized spec.icon)
    ++ (notify_line spec.startup_notify
        ++ optional (codes "StartupWMClass=") (sanitized spec.startup_wm_class))

abbrev fixed_lines : Text → Text → List Text
fixed_lines container cli_path =
    (codes "Keywords=easytidy;" ++ (container ++ codes ";"))
    ∷ codes "NoDisplay=false"
    ∷ codes "Terminal=false"
    ∷ (codes "TryExec=" ++ cli_path)
    ∷ codes "Type=Application"
    ∷ []

-- The action that removes the entry.
abbrev action_lines : PassthroughSpec → Text → List Text
action_lines spec display =
    codes "Actions=Remove;"
    ∷ []
    ∷ codes "[Desktop Action Remove]"
    ∷ (codes "Name=Remove " ++ (display ++ codes " from system"))
    ∷ (codes "Exec="
        ++ (spec.cli_path
            ++ (codes " unexport --container "
                ++ (spec.container ++ (codes " --app-id " ++ spec.app_id)))))
    ∷ []

unfoldable pub mark_lines : PassthroughSpec → List Text
unfolding sanitize_ini_value
mark_lines spec =
    codes "X-easytidy-pt=1"
    ∷ (codes "X-easytidy-container=" ++ spec.container)
    ∷ (codes "X-easytidy-app-id=" ++ spec.app_id)
    ∷ (codes "X-easytidy-app=" ++ sanitize_ini_value spec.desktop_file)
    ∷ []

-- What stands between the names and the marks.
unfoldable pub middle_lines : PassthroughSpec → List Text
unfolding passthrough_display sanitize_ini_value
middle_lines spec =
    (exec_line spec ∷ optional_lines spec)
    ++ (fixed_lines spec.container spec.cli_path ++ action_lines spec (passthrough_display spec))

unfoldable pub generate_passthrough_content : PassthroughSpec → Text
unfolding name_lines middle_lines mark_lines unlines
generate_passthrough_content spec =
    unlines (name_lines spec ++ (middle_lines spec ++ mark_lines spec))

abbrev some_text : Option Text → Option Text
some_text none = none
some_text (some t) = if is_empty t then none else some t

abbrev pub or_else : Option Text → Option Text → Option Text
or_else none other = other
or_else (some t) other = some t

unfoldable pub generate_gui_entry_content :
    (ensure_icon : Text → Text → Option Text) (container cli_path : Text)
    (icon display_name : Option Text)
    → Text
unfolding display_or unlines
generate_gui_entry_content ensure_icon container cli_path icon display_name =
    let display = display_or display_name (codes "easytidy " ++ container) in
    let drawn = or_else (some_text icon) (ensure_icon container display) in
    unlines (
      (codes "[Desktop Entry]"
        ∷ (codes "Name=" ++ display)
        ∷ (codes "GenericName=Container GUI for " ++ container)
        ∷ (codes "Comment=Open " ++ (container ++ codes " management interface"))
        ∷ codes "Categories=System;Utility;ContainerManagement;"
        ∷ (codes "Exec=" ++ (cli_path ++ (codes " open --container " ++ container)))
        ∷ [])
      ++ (optional (codes "Icon=") drawn
          ++ (fixed_lines container cli_path
              ++ (codes "X-easytidy-gui=1" ∷ (codes "X-easytidy-container=" ++ container) ∷ []))))

abbrev is_safe : ℕ → Bool
is_safe c =
    (leb b'0' c && leb c b'9')
    || (leb b'A' c && leb c b'Z')
    || (leb b'a' c && leb c b'z')
    || c == b'-'
    || c == b'_'

-- The characters of an id that a file name keeps; any other becomes `-`.
unfoldable pub safe_name : Text → Text
safe_name app_id = map (λ c. if is_safe c then c else b'-') app_id

unfoldable pub passthrough_file_name : Text → Text → Text
unfolding safe_name
passthrough_file_name container app_id =
    codes "easytidy-pt-" ++ (container ++ (b'-' ∷ (safe_name app_id ++ codes ".desktop")))

abbrev pub gui_file_name : Text → Text
gui_file_name container = codes "easytidy-gui-" ++ (container ++ codes ".desktop")

-- What `find_map(|l| l.strip_prefix(key))` finds in the lines.
unfoldable pub field_of : Text → List Text → Option Text
unfolding find_map strip_prefix
field_of key ls = find_map (λ l. strip_prefix key l) ls

unfoldable pub parse_pt_value : Text → Text → Text → Option Text
unfolding field_of lines text_eq
parse_pt_value content container key =
    if text_eq (unwrap_or (field_of (codes "X-easytidy-container=") (lines content)) []) container
    then field_of key (lines content)
    else none

unfoldable pub desktop_field : Text → Text → Option Text
unfolding field_of lines trim
desktop_field content key = elim (field_of key (lines content)) [
  | none ↦ none
  | some value ↦ some (trim value)
]

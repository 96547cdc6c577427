-- ===== src/Desktop/Folders.antt =====
-- crates/core/src/desktop.rs: the operations on the applications folder and the desktop folder. A
-- folder lists its files in the order in which `read_dir` gives them; a file that
-- `read_to_string` cannot read has no content. In a folder that is not writable, writing and
-- removing fail. A returned path is the file's name in the folder; `ConfigError` has a
-- constructor for each text of `Error::Config`.
use easytidy.Prelude.{
  Bool, true, false, not, ◌&&◌, ◌||◌, Option, none, some, List, [], ◌∷◌, ◌++◌, if◌then◌else◌, map,
}
use easytidy.Lists.{find, retain}
use easytidy.Text.{Text, codes, is_empty, text_eq, starts_with, contains}
use easytidy.Desktop.{
  PassthroughSpec, generate_passthrough_content, generate_gui_entry_content, passthrough_file_name,
  gui_file_name, parse_pt_value,
}

abbrev pub File : Type 0
File = Text × Option Text

pub record Folder : Type 0 where
  pub files : List File
  pub writable : Bool

-- `passthrough_dir`: the user's data folder is not known, or the folder is not there and may be
-- created or not, or it is there.
pub data Applications : Type 0 where
  no_data_home : Applications
  missing : Bool → Applications
  present : Folder → Applications

-- `desktop` is what `desktop_dir` finds.
pub record HostFolders : Type 0 where
  pub applications : Applications
  pub desktop : Option Folder

pub data ConfigError : Type 0 where
  unknown_data_home cannot_create : ConfigError
  cannot_write cannot_update : Text → ConfigError
  no_applications cannot_delete : ConfigError
  not_exported : Text → ConfigError
  no_entry : Text → ConfigError
  no_shortcut : Text → Option Text → ConfigError

pub data Outcome {ℓ} (A : Type ℓ) : Type ℓ where
  done : A → Outcome A
  failed : ConfigError → Outcome A

abbrev pub named : Text → File → Bool
named name f = text_eq f.0 name

-- Overwrites the file of this name, or adds it.
unfoldable pub put : Text → Text → List File → List File
put name content [] = (name, some content) ∷ []
put name content (f ∷ fs) =
    let rest = put name content fs in if named name f then (name, some content) ∷ fs else f ∷ rest

unfoldable pub delete : Text → List File → List File
delete name fs = retain (λ f. not (named name f)) fs

unfoldable pub write_desktop_file : Folder → Text → Text → Option Folder
unfolding put
write_desktop_file d name content =
    if d.writable then some (record d { files = put name content d.files }) else none

-- `fs::create_dir_all` on the applications folder.
unfoldable pub create_applications : Applications → Outcome Folder
create_applications no_data_home = failed unknown_data_home
create_applications (missing true) = done (record { files = []; writable = true })
create_applications (missing false) = failed cannot_create
create_applications (present d) = done d

-- The copy on the desktop; where it cannot be written it is left out.
unfoldable pub write_copy : Bool → Option Folder → Text → Text → Option Folder
unfolding write_desktop_file
write_copy false desktop name content = desktop
write_copy true none name content = none
write_copy true (some dd) name content = elim (write_desktop_file dd name content) [
  | some dd' ↦ some dd'
  | none ↦ some dd
]

-- What `write_gui_entry` and `write_passthrough` do with the name and the content.
unfoldable pub write_entry : HostFolders → Text → Text → Bool → HostFolders × Outcome Text
unfolding create_applications write_desktop_file write_copy
write_entry h name content desktop_icon = elim (create_applications h.applications) [
  | failed e ↦ (h, failed e)
  | done d ↦ elim (write_desktop_file d name content) [
    | none ↦ (record h { applications = present d }, failed (cannot_write name))
    | some d' ↦ (
      record {
        applications = present d';
        desktop = write_copy desktop_icon h.desktop name content;
      },
      done name,
    )
  ]
]

unfoldable pub write_passthrough : HostFolders → PassthroughSpec → Bool → HostFolders × Outcome Text
unfolding write_entry passthrough_file_name generate_passthrough_content
write_passthrough h spec desktop_icon =
    write_entry h (passthrough_file_name spec.container spec.app_id)
      (generate_passthrough_content spec) desktop_icon

unfoldable pub write_gui_entry :
    HostFolders
    → (ensure_icon : Text → Text → Option Text) (container cli_path : Text) (desktop_icon : Bool)
      (icon display_name : Option Text)
    → HostFolders × Outcome Text
unfolding write_entry generate_gui_entry_content
write_gui_entry h ensure_icon container cli_path desktop_icon icon display_name =
    write_entry h (gui_file_name container)
      (generate_gui_entry_content ensure_icon container cli_path icon display_name) desktop_icon

-- `str::ends_with`
unfoldable pub ends_with : Text → Text → Bool
unfolding text_eq
ends_with p [] = text_eq p []
ends_with p (x ∷ xs) = text_eq p (x ∷ xs) || ends_with p xs

-- The tests on the name and the mark that the loops over the folder begin with.
unfoldable pub exported_content : File → Option Text
unfolding ends_with contains
exported_content (name, none) = none
exported_content (name, some content) =
    if starts_with (codes "easytidy-pt-") name
      && ends_with (codes ".desktop") name
      && contains (codes "X-easytidy-pt=1") content
    then some content
    else none

pub record ExportedPassthrough : Type 0 where
  pub desktop_file : Text
  pub content : Text
  pub path : Text

-- One round of the loop of `list_passthrough_detailed`.
unfoldable pub listed : Text → File → List ExportedPassthrough
unfolding exported_content parse_pt_value
listed container f = elim (exported_content f) [
  | none ↦ []
  | some content ↦ elim (parse_pt_value content container (codes "X-easytidy-app=")) [
    | none ↦ []
    | some app ↦
        if is_empty app
        then []
        else record { desktop_file = app; content = content; path = f.0 } ∷ []
  ]
]

unfoldable pub list_files : Text → List File → List ExportedPassthrough
unfolding listed
list_files container [] = []
list_files container (f ∷ fs) = listed container f ++ list_files container fs

unfoldable pub list_passthrough_detailed : HostFolders → Text → Outcome (List ExportedPassthrough)
unfolding list_files
list_passthrough_detailed h container = elim h.applications [
  | no_data_home ↦ failed unknown_data_home
  | missing b ↦ done []
  | present d ↦ done (list_files container d.files)
]

unfoldable pub list_passthrough : HostFolders → Text → Outcome (List Text)
unfolding list_passthrough_detailed
list_passthrough h container = elim (list_passthrough_detailed h container) [
  | failed e ↦ failed e
  | done es ↦ done (map (λ (e : ExportedPassthrough). e.desktop_file) es)
]

-- Whether the value is there and equal.
abbrev pub is_text : Option Text → Text → Bool
is_text none t = false
is_text (some s) t = text_eq s t

-- The tests of the loop of `remove_passthrough`. The value of `X-easytidy-container=` is there only
-- if it is the container.
unfoldable pub matches_app : Text → Text → File → Bool
unfolding exported_content parse_pt_value
matches_app container app_id f = elim (exported_content f) [
  | none ↦ false
  | some content ↦ elim (parse_pt_value content container (codes "X-easytidy-container=")) [
    | none ↦ false
    | some c ↦ is_text (parse_pt_value content container (codes "X-easytidy-app-id=")) app_id
  ]
]

-- The copy on the desktop goes too, where it is there and can be removed.
abbrev pub delete_copy : Option Folder → Text → Option Folder
delete_copy none name = none
delete_copy (some dd) name =
    some (if dd.writable then record dd { files = delete name dd.files } else dd)

unfoldable pub remove_passthrough : HostFolders → Text → Text → HostFolders × Outcome Text
unfolding find matches_app delete
remove_passthrough h container app_id = elim h.applications [
  | no_data_home ↦ (h, failed unknown_data_home)
  | missing b ↦ (h, failed no_applications)
  | present d ↦ elim (find (matches_app container app_id) d.files) [
    | none ↦ (h, failed (not_exported app_id))
    | some f ↦
        if d.writable
        then (
          record {
            applications = present (record d { files = delete f.0 d.files });
            desktop = delete_copy h.desktop f.0;
          },
          done f.0,
        )
        else (h, failed cannot_delete)
  ]
]

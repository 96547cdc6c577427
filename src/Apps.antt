-- ===== src/Apps.antt =====
-- The applications of a container that the user configures: crates/gui/src/commands/passthrough.rs reads
-- the whole configuration, changes it and writes it back; crates/server/src/services/passthrough.rs keeps
-- it in a file, of which `none` is a file that is missing or cannot be parsed, and starts applications
-- from it; crates/server/src/services/apps.rs finds the application of a reference.
pub mod Ids
pub mod Consistent
pub mod AutoStart
pub mod Stale
pub mod Resolve
pub mod IconPaths
mod Tests
use easytidy.Prelude.{
  ℕ, ◌+◌, ◌==◌, Bool, true, false, not, ◌&&◌, ◌||◌, leb, Option, none, some, List, [], ◌∷◌, ◌++◌,
  map, if◌then◌else◌,
}
use easytidy.Lists.{any, find, retain}
use easytidy.Text.{Text, codes, text_eq, is_empty, strip_prefix, starts_with, join}
use easytidy.Text.White.{trim, words, is_white}
use easytidy.Config.Mode.{to_ascii_lowercase}

pub record PtConfiguredApp : Type 0 where
  pub id : Text
  pub name : Text
  pub cmd : Text
  pub desktop_file : Option Text
  pub auto_start : Bool
  pub icon : Option Text

pub record ContainerPtConfig : Type 0 where
  pub apps : List PtConfiguredApp
  pub pinned : List PtConfiguredApp

-- `passthrough.list` and `passthrough.set`.
abbrev pub File : Type 0
File = Option ContainerPtConfig

unfoldable pub read_container_config : File → ContainerPtConfig
read_container_config none = record { apps = []; pinned = [] }
read_container_config (some cfg) = cfg

unfoldable pub handle_passthrough_set : ContainerPtConfig → File → File
handle_passthrough_set cfg file = some cfg

abbrev pub has_id : Text → PtConfiguredApp → Bool
has_id id a = text_eq a.id id

abbrev pub is_custom : Text → Bool
is_custom id = starts_with (codes "custom:") id

-- What `iter_mut().find` with an assignment does to a list.
unfoldable pub change_first :
    Text → (PtConfiguredApp → PtConfiguredApp) → List PtConfiguredApp → List PtConfiguredApp
unfolding text_eq
change_first id f [] = []
change_first id f (a ∷ as_) =
    let rest = change_first id f as_ in if has_id id a then f a ∷ as_ else a ∷ rest

unfoldable pub upsert : Text → PtConfiguredApp → List PtConfiguredApp → List PtConfiguredApp
unfolding change_first any
upsert id app apps =
    if any (has_id id) apps then change_first id (λ a. app) apps else apps ++ (app ∷ [])

unfoldable pub clean_exec : Text → Text
unfolding words join strip_prefix
clean_exec exec = join b' ' (retain (λ w. not (starts_with (codes "%") w)) (words exec))

abbrev pub desktop_file_of : Text → Option Text
desktop_file_of id = if is_custom id then none else some id

-- The errors that a command answers; it writes nothing then.
pub data Refusal : Type 0 where
  empty_name no_custom_app exists absent : Refusal

pub data Answer : Type 0 where
  saved : ContainerPtConfig → Answer
  refused : Refusal → Answer

unfoldable pub set_pinned : Text → Text → Text → Option Text → Bool → ContainerPtConfig → Answer
unfolding upsert retain clean_exec
set_pinned id name cmd icon_path pinned cfg =
    if pinned
    then saved (record cfg {
      pinned =
          upsert id
            (record {
              id = id;
              name = name;
              cmd = clean_exec cmd;
              desktop_file = desktop_file_of id;
              auto_start = false;
              icon = icon_path;
            })
            cfg.pinned;
    })
    else saved (record cfg { pinned = retain (λ a. not (has_id id a)) cfg.pinned })

abbrev pub icon_of : Option PtConfiguredApp → Option Text
icon_of none = none
icon_of (some a) = a.icon

unfoldable pub auto_start_entry : Text → Text → Text → ContainerPtConfig → PtConfiguredApp
unfolding find clean_exec
auto_start_entry id name cmd cfg = record {
  id = id;
  name = name;
  cmd = clean_exec cmd;
  desktop_file = desktop_file_of id;
  auto_start = true;
  icon = icon_of (find (has_id id) cfg.apps);
}

unfoldable pub set_auto_start : Text → Text → Text → Bool → ContainerPtConfig → Answer
unfolding upsert change_first any retain auto_start_entry
set_auto_start id name cmd enabled cfg =
    if enabled
    then saved (record cfg { apps = upsert id (auto_start_entry id name cmd cfg) cfg.apps })
    else if any (has_id id) cfg.apps
    then (if is_custom id
        then saved
            (record cfg { apps = change_first id (λ a. record a { auto_start = false }) cfg.apps })
        else saved (record cfg { apps = retain (λ a. not (has_id id a)) cfg.apps }))
    else saved cfg

abbrev pub custom_id : Text → Text
custom_id name = codes "custom:" ++ name

unfoldable pub add_custom : Text → Text → ContainerPtConfig → Answer
unfolding any trim
add_custom name cmd cfg =
    if is_empty (trim name) || is_empty (trim cmd)
    then refused empty_name
    else if any (has_id (custom_id name)) cfg.apps
    then refused exists
    else saved (record cfg {
      apps =
          cfg.apps
          ++ (record {
            id = custom_id name;
            name = name;
            cmd = trim cmd;
            desktop_file = none;
            auto_start = false;
            icon = none;
          }
              ∷ []);
    })

-- The entry of an application under its new id, name and command.
abbrev pub renamed : Text → Text → Text → PtConfiguredApp → PtConfiguredApp
renamed id name cmd a = record a { id = id; name = name; cmd = cmd }

abbrev pub if_id : Text → (PtConfiguredApp → PtConfiguredApp) → PtConfiguredApp → PtConfiguredApp
if_id id f a = if has_id id a then f a else a

unfoldable pub change_custom : Text → Text → Text → Text → ContainerPtConfig → Answer
unfolding change_first any
change_custom id new_id new_name new_cmd cfg =
    if not (any (has_id id) cfg.apps)
    then refused absent
    else if text_eq new_id id
    then saved (record cfg { apps = change_first id (λ a. record a { cmd = new_cmd }) cfg.apps })
    else if any (has_id new_id) cfg.apps
    then refused exists
    else saved (record {
      apps = change_first id (renamed new_id new_name new_cmd) cfg.apps;
      pinned = map (if_id id (renamed new_id new_name new_cmd)) cfg.pinned;
    })

unfoldable pub update_custom : Text → Text → Text → ContainerPtConfig → Answer
unfolding change_custom trim strip_prefix
update_custom id name cmd cfg =
    if not (is_custom id)
    then refused no_custom_app
    else if is_empty (trim name) || is_empty (trim cmd)
    then refused empty_name
    else change_custom id (custom_id (trim name)) (trim name) (trim cmd) cfg

unfoldable pub set_custom_icon : Text → Option Text → ContainerPtConfig → Answer
unfolding change_first any
set_custom_icon id icon cfg =
    if any (has_id id) cfg.apps
    then saved (record cfg { apps = change_first id (λ a. record a { icon = icon }) cfg.apps })
    else refused absent

unfoldable pub remove_app : Text → ContainerPtConfig → Answer
unfolding retain text_eq
remove_app id cfg = saved (record {
  apps = retain (λ a. not (has_id id a)) cfg.apps;
  pinned = retain (λ a. not (has_id id a)) cfg.pinned;
})

pub data Command : Type 0 where
  pin : Text → Text → Text → Option Text → Bool → Command
  auto : Text → Text → Text → Bool → Command
  add : Text → Text → Command
  update : Text → Text → Text → Command
  icon : Text → Option Text → Command
  remove : Text → Command

unfoldable pub run : Command → ContainerPtConfig → Answer
run (pin id name cmd icon_path on) cfg = set_pinned id name cmd icon_path on cfg
run (auto id name cmd enabled) cfg = set_auto_start id name cmd enabled cfg
run (add name cmd) cfg = add_custom name cmd cfg
run (update id name cmd) cfg = update_custom id name cmd cfg
run (icon id path) cfg = set_custom_icon id path cfg
run (remove id) cfg = remove_app id cfg

abbrev pub write_back : Answer → File → File
write_back (saved cfg) file = handle_passthrough_set cfg file
write_back (refused r) file = file

-- A command of the window, up to the file in the container.
unfoldable pub command : Command → File → File
unfolding run read_container_config handle_passthrough_set
command c file = write_back (run c (read_container_config file)) file

-- The applications that `launch_auto_start` starts, in its order.
unfoldable pub launch_auto_start : File → List PtConfiguredApp
unfolding read_container_config retain
launch_auto_start file = retain (λ a. a.auto_start) (read_container_config file).apps

-- The command that `passthrough_launch` gives to the server for a pinned application.
unfoldable pub passthrough_launch : Text → File → Option Text
unfolding read_container_config find
passthrough_launch id file = elim (find (has_id id) (read_container_config file).pinned) [
  | none ↦ none
  | some a ↦ some a.cmd
]

unfoldable pub custom_apps : File → List PtConfiguredApp
unfolding read_container_config retain strip_prefix
custom_apps file =
    let cfg = read_container_config file in retain (λ a. is_custom a.id) (cfg.apps ++ cfg.pinned)

-- A scanned application.
pub record AppInfo : Type 0 where
  pub id : Text
  pub desktop_file : Text
  pub name : Text
  pub icon_path : Option Text
  pub exec : Text
  pub comment : Option Text
  pub categories : Option Text
  pub startup_notify : Bool
  pub startup_wm_class : Option Text

unfoldable pub eq_ignore_ascii_case : Text → Text → Bool
unfolding text_eq to_ascii_lowercase
eq_ignore_ascii_case a b = text_eq (to_ascii_lowercase a) (to_ascii_lowercase b)

-- `seen` are the ids so far.
unfoldable pub dedup_from : List Text → List AppInfo → List AppInfo
unfolding any text_eq
dedup_from seen [] = []
dedup_from seen (a ∷ as_) = elim (any (text_eq a.id) seen) [
  | true ↦ dedup_from seen as_
  | false ↦ a ∷ dedup_from (a.id ∷ seen) as_
]

unfoldable pub dedup_by_id : List AppInfo → List AppInfo
unfolding dedup_from
dedup_by_id apps = dedup_from [] apps

-- `registry` are the applications of the registry, or of a fresh scan where it is empty.
unfoldable pub resolve_app : Text → List AppInfo → File → Option (Text × Text × Text)
unfolding find custom_apps eq_ignore_ascii_case
resolve_app ref registry file = elim (find (λ (a : AppInfo). text_eq a.id ref) registry) [
  | some a ↦ some (a.id, a.name, a.exec)
  | none ↦ elim (find (λ (a : AppInfo). eq_ignore_ascii_case a.name ref) registry) [
    | some a ↦ some (a.id, a.name, a.exec)
    | none ↦
        elim (find (λ a. text_eq a.id ref || eq_ignore_ascii_case a.name ref) (custom_apps file)) [
          | some a ↦ some (a.id, a.name, a.cmd)
          | none ↦ none
        ]
  ]
]

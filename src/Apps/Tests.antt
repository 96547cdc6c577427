-- ===== src/Apps/Tests.antt =====
-- A container with a browser of the user's own, which is pinned, and a scanned terminal.
use easytidy.Prelude.{◌≡◌, refl, true, false, none, some, [], ◌∷◌}
use easytidy.Lists.{any, find}
use easytidy.Text.{codes, text_eq, strip_prefix}
use easytidy.Text.White.{trim, is_white}
use easytidy.Apps.{
  PtConfiguredApp, File, read_container_config, has_id, auto, update, command, launch_auto_start,
  passthrough_launch,
}
use easytidy.Apps.Consistent.{IsConsistent}
use easytidy.Apps.Consistent.Commands.{Kept, command-IsConsistent}
use easytidy.Apps.AutoStart.{launch_auto_start-toggled}
use easytidy.Apps.Stale.{command_of, update_custom-launch}

abbrev browser : PtConfiguredApp
browser = record {
  id = codes "custom:web";
  name = codes "web";
  cmd = codes "web --old";
  desktop_file = none;
  auto_start = false;
  icon = none;
}

abbrev terminal : PtConfiguredApp
terminal = record {
  id = codes "term";
  name = codes "Terminal";
  cmd = codes "term";
  desktop_file = some (codes "term");
  auto_start = true;
  icon = none;
}

abbrev file : File
file = some (record { apps = browser ∷ terminal ∷ []; pinned = browser ∷ [] })

file-IsConsistent : IsConsistent (read_container_config file)
unfolding read_container_config any text_eq strip_prefix
file-IsConsistent = record {
  apps = (refl, (refl, tt));
  pinned = (refl, tt);
  configured = (refl, tt);
}

command-IsConsistent_example :
    Kept (update (codes "custom:web") (codes "net") (codes "net")) (
      read_container_config
        (command (update (codes "custom:web") (codes "net") (codes "net")) file))
command-IsConsistent_example =
    command-IsConsistent (update (codes "custom:web") (codes "net") (codes "net")) file
      file-IsConsistent

launch_auto_start-toggled_example :
    any (has_id (codes "custom:web")) (
      launch_auto_start
        (command (auto (codes "custom:web") (codes "web") (codes "web %U") true) file))
    ≡ true
unfolding text_eq
launch_auto_start-toggled_example =
    launch_auto_start-toggled file (codes "custom:web") (codes "web") (codes "web %U") true
      (codes "custom:web") file-IsConsistent.apps

-- The pinned browser still runs its old command.
update_custom-launch_example :
    (command_of (
        find
          (has_id (codes "custom:web"))
          (read_container_config
            (command (update (codes "custom:web") (codes "web") (codes "web --new")) file)).apps)
      ≡ some (codes "web --new"))
    × (passthrough_launch
          (codes "custom:web")
          (command (update (codes "custom:web") (codes "web") (codes "web --new")) file)
        ≡ some (codes "web --old"))
unfolding read_container_config any find text_eq trim strip_prefix passthrough_launch is_white
update_custom-launch_example =
    update_custom-launch file (codes "custom:web") (codes "web") (codes "web --new")
      file-IsConsistent refl refl refl refl

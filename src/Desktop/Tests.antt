-- ===== src/Desktop/Tests.antt =====
-- Desktop entries of two applications, and what is done with them.
use mathlib.Core.Path.{subst}
use easytidy.Prelude.{◌≡◌, ◌≢◌, refl, true, Option, none, some, [], arith, ◌⊎◌}
use easytidy.Lists.{All, any, retain}
use easytidy.Text.{Text, codes, Free, lines, join}
use easytidy.Text.White.{is_white, split_white, words}
use easytidy.PathVars.{HostUser}
use easytidy.Desktop.{
  PassthroughSpec, clean_ini, sanitize_ini_value, display_or, passthrough_display,
  generate_passthrough_content, safe_name, field_of, parse_pt_value, desktop_field,
}
use easytidy.Desktop.Content.{IsSpec}
use easytidy.Desktop.Fields.{generate_passthrough_content-fields}
use easytidy.Desktop.Folders.{
  Folder, HostFolders, not_exported, failed, write_passthrough, remove_passthrough,
}
use easytidy.Desktop.Export.{
  with_files, remove_passthrough-write_passthrough, write_passthrough-collides,
}
use easytidy.Desktop.Icons.{replace_icon_line}
use easytidy.Desktop.Icons.Replace.{OtherKey, replace_icon_line-fields}
use easytidy.Desktop.ResourceDirs.{host_user_resource_dirs}
use easytidy.Desktop.ResourceDirs.Portable.{Portable, host_user_resource_dirs-Portable}

abbrev app_of : Text → Text → PassthroughSpec
app_of name id = record {
  container = codes "dev";
  app_name = name;
  display_name = none;
  comment = some (codes "first\nExec=/bin/false");
  categories = none;
  app_id = id;
  icon = some (codes "/icons/a.png");
  desktop_file = codes "/usr/share/applications/a.desktop";
  cli_path = codes "/usr/bin/easytidy";
  startup_notify = true;
  startup_wm_class = none;
}

abbrev chat : PassthroughSpec
chat = app_of (codes "My\n  Chat ") (codes "custom:微信")

abbrev talk : PassthroughSpec
talk = app_of (codes "Talk") (codes "custom:钉钉")

chat-IsSpec : IsSpec chat
unfolding is_white
chat-IsSpec = record { container = ground arith; app_id = ground arith; cli_path = omega arith }

talk-IsSpec : IsSpec talk
unfolding is_white
talk-IsSpec = record { container = ground arith; app_id = ground arith; cli_path = omega arith }

web_ne : codes "web" ≢ chat.container
web_ne e = ground arith

-- The display name has single spaces, and the comment makes no line of its own.
fields_example :
    (parse_pt_value (generate_passthrough_content chat) (codes "dev") (codes "X-easytidy-app-id=")
      ≡ some (codes "custom:微信"))
    × (parse_pt_value (generate_passthrough_content chat) (codes "dev") (codes "X-easytidy-app=")
        ≡ some (sanitize_ini_value (codes "/usr/share/applications/a.desktop")))
    × (desktop_field (generate_passthrough_content chat) (codes "Name=")
        ≡ some (passthrough_display chat))
    × (parse_pt_value (generate_passthrough_content chat) (codes "web") (codes "Name=") ≡ none)
fields_example =
    generate_passthrough_content-fields chat chat-IsSpec (codes "web") (codes "Name=") web_ne

tidy_name : passthrough_display chat ≡ codes "My Chat"
unfolding passthrough_display display_or sanitize_ini_value clean_ini words split_white is_white
    retain join
tidy_name = refl

abbrev no_files : Option Folder
no_files = some (record { files = []; writable = true })

export_example :
    remove_passthrough
      (write_passthrough (with_files [] no_files) chat true).0
      (codes "dev")
      (codes "custom:微信")
    ≡ (with_files [] no_files, (write_passthrough (with_files [] no_files) chat true).1)
unfolding any
export_example =
    remove_passthrough-write_passthrough chat [] no_files true chat-IsSpec refl refl refl

chat_ne_talk : chat.app_id ≢ talk.app_id
chat_ne_talk e = ground arith

-- Two names of two characters that are not ASCII.
collision_example :
    remove_passthrough
      (write_passthrough (write_passthrough (with_files [] no_files) chat true).0 talk true).0
      (codes "dev")
      (codes "custom:微信")
    ≡ (
      (write_passthrough (write_passthrough (with_files [] no_files) chat true).0 talk true).0,
      failed (not_exported (codes "custom:微信")),
    )
unfolding any safe_name
collision_example =
    write_passthrough-collides chat talk [] no_files true true talk-IsSpec refl chat_ne_talk refl
      refl refl

abbrev both : HostFolders
both = (write_passthrough (with_files [] no_files) chat true).0

abbrev entry_text : Text
entry_text = codes "[Desktop Entry]\nIcon=old\nName=A\n"

replace_example :
    ((lines entry_text ≡ []) × (replace_icon_line entry_text (codes "/new.png") ≡ none))
    ⊎ ((new : Text) × (replace_icon_line entry_text (codes "/new.png") ≡ some new)
        × (field_of (codes "Icon=") (lines new) ≡ some (codes "/new.png"))
        × ((key : Text)
            → OtherKey key
            → field_of key (lines new) ≡ field_of key (lines entry_text)))
replace_example = replace_icon_line-fields (codes "/new.png") entry_text (omega arith) (omega arith)

abbrev user : HostUser
user = record { name = codes "div"; uid = 1000; gid = 1000; home = codes "/home/div" }

-- `xdg-user-dir` that answers the home itself for every key.
abbrev answers_home : Text → Option Text
answers_home key = some (codes "/home/div")

answers_plain : (key p : Text) → answers_home key ≡ some p → Free b'$' p
answers_plain key p e = subst (Free b'$') (some-injective e) (omega arith)
  where
    some-injective : some (codes "/home/div") ≡ some p → codes "/home/div" ≡ p
    some-injective e = cc

resource_example :
    All (Portable user) (host_user_resource_dirs answers_home (λ p. true) (codes "/home/div"))
resource_example =
    host_user_resource_dirs-Portable user refl answers_home (λ p. true) refl (omega arith)
      answers_plain

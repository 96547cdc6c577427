-- ===== src/Desktop/Content.antt =====
-- What is read back from the text of an exported entry.
use easytidy.Prelude.{ℕ, ◌==◌, Bool, true, false, ◌≡◌, refl, Option, none, some, [], ◌++◌}
use easytidy.Lists.{All, All-append, any}
use easytidy.Text.{Text, codes, is_empty, lines}
use easytidy.Text.Split.{Free-append, Free-of-any}
use easytidy.Text.Lines.{IsLine, lines-unlines}
use easytidy.Text.Words.{NoWhite, NoWhite-IsLine}
use easytidy.Desktop.{
  PassthroughSpec, sanitize_ini_value, display_or, passthrough_display, name_lines, middle_lines,
  mark_lines, generate_passthrough_content, optional, notify_line, sanitized, unwrap_or, exec_line,
  optional_lines, fixed_lines, action_lines,
}
use easytidy.Desktop.Sanitize.{sanitize_ini_value-IsLine}

-- A pair, for the proofs about the lines of a list one by one.
infixr 4 ◌&◌
◌&◌ : {A B : Type 0} → A → B → A × B
h & k = (h, k)

pub IsLine-append : (a b : Text) → IsLine a → IsLine b → IsLine (a ++ b)
IsLine-append a b h k = (Free-append b'\n' a b h.0 k.0, Free-append b'\r' a b h.1 k.1)

-- The container, the id and the program's path are single lines.
pub record IsSpec (spec : PassthroughSpec) : Type 0 where
  pub container : NoWhite spec.container
  pub app_id : NoWhite spec.app_id
  pub cli_path : IsLine spec.cli_path

display_or-IsLine : (o : Option Text) (t : Text) → IsLine t → IsLine (display_or o t)
unfolding display_or
display_or-IsLine none t h = h
display_or-IsLine (some n) t h = split (is_empty (sanitize_ini_value n)) refl
  where
    split : (b : Bool) → is_empty (sanitize_ini_value n) ≡ b → IsLine (display_or (some n) t)
    split true e = rw (display_or, e) h
    split false e = rw (display_or, e) (sanitize_ini_value-IsLine n)

abbrev breaks : ℕ → Text → Bool
breaks c t = any (λ x. x == c) t

literal-IsLine : (t : Text) → breaks b'\n' t ≡ false → breaks b'\r' t ≡ false → IsLine t
literal-IsLine t h k = (Free-of-any b'\n' t h, Free-of-any b'\r' t k)

-- A fixed text, and a line behind it.
key-IsLine :
    (key value : Text)
    → breaks b'\n' key ≡ false
    → breaks b'\r' key ≡ false
    → IsLine value
    → IsLine (key ++ value)
key-IsLine key value h k l = IsLine-append key value (literal-IsLine key h k) l

optional-IsLine :
    (key : Text) (o : Option Text)
    → breaks b'\n' key ≡ false
    → breaks b'\r' key ≡ false
    → All IsLine (optional key (sanitized o))
optional-IsLine key none h k = tt
optional-IsLine key (some t) h k = (key-IsLine key _ h k (sanitize_ini_value-IsLine t), tt)

notify_line-IsLine : (b : Bool) → All IsLine (notify_line b)
unfolding any
notify_line-IsLine true = (literal-IsLine (codes "StartupNotify=true") refl refl & tt)
notify_line-IsLine false = tt

module _ (spec : PassthroughSpec) (h : IsSpec spec) where
  display-IsLine : IsLine (passthrough_display spec)
  unfolding passthrough_display
  display-IsLine = display_or-IsLine _ _ (sanitize_ini_value-IsLine spec.app_name)

  container-IsLine : IsLine spec.container
  container-IsLine = NoWhite-IsLine _ h.container

  app_id-IsLine : IsLine spec.app_id
  app_id-IsLine = NoWhite-IsLine _ h.app_id

  name_lines-IsLine : All IsLine (name_lines spec)
  unfolding name_lines any
  name_lines-IsLine =
      literal-IsLine (codes "[Desktop Entry]") refl refl
      & key-IsLine (codes "Name=") _ refl refl display-IsLine
      & key-IsLine (codes "GenericName=easytidy ") _ refl refl (
          IsLine-append spec.container _ container-IsLine
            (key-IsLine (codes " - ") _ refl refl display-IsLine))
      & key-IsLine (codes "Comment=") _ refl refl
          (sanitize_ini_value-IsLine (unwrap_or spec.comment (codes "easytidy passthrough")))
      & key-IsLine (codes "Categories=") _ refl refl
          (sanitize_ini_value-IsLine (unwrap_or spec.categories (codes "Application;Utility;")))
      & tt

  exec_line-IsLine : IsLine (exec_line spec)
  unfolding any
  exec_line-IsLine = key-IsLine (codes "Exec=") _ refl refl (
      IsLine-append spec.cli_path _ h.cli_path (
        key-IsLine (codes " launch --id ") _ refl refl (
          IsLine-append spec.app_id _ app_id-IsLine
            (key-IsLine (codes " --container ") _ refl refl container-IsLine))))

  fixed_lines-IsLine : All IsLine (fixed_lines spec.container spec.cli_path)
  unfolding any
  fixed_lines-IsLine =
      key-IsLine (codes "Keywords=easytidy;") _ refl refl
        (IsLine-append spec.container _ container-IsLine (literal-IsLine (codes ";") refl refl))
      & literal-IsLine (codes "NoDisplay=false") refl refl
      & literal-IsLine (codes "Terminal=false") refl refl
      & key-IsLine (codes "TryExec=") _ refl refl h.cli_path
      & literal-IsLine (codes "Type=Application") refl refl
      & tt

  action_lines-IsLine : All IsLine (action_lines spec (passthrough_display spec))
  unfolding any
  action_lines-IsLine =
      literal-IsLine (codes "Actions=Remove;") refl refl
      & literal-IsLine [] refl refl
      & literal-IsLine (codes "[Desktop Action Remove]") refl refl
      & key-IsLine (codes "Name=Remove ") _ refl refl (
          IsLine-append (passthrough_display spec) _ display-IsLine
            (literal-IsLine (codes " from system") refl refl))
      & key-IsLine (codes "Exec=") _ refl refl (
          IsLine-append spec.cli_path _ h.cli_path (
            key-IsLine (codes " unexport --container ") _ refl refl (
              IsLine-append spec.container _ container-IsLine
                (key-IsLine (codes " --app-id ") _ refl refl app_id-IsLine))))
      & tt

  middle_lines-IsLine : All IsLine (middle_lines spec)
  unfolding middle_lines any
  middle_lines-IsLine =
      exec_line-IsLine
      & All-append IsLine (optional_lines spec)
          (fixed_lines spec.container spec.cli_path ++ action_lines spec (passthrough_display spec))
          (All-append IsLine (optional (codes "Icon=") (sanitized spec.icon)) _
            (optional-IsLine (codes "Icon=") spec.icon refl refl)
            (All-append IsLine (notify_line spec.startup_notify) _
              (notify_line-IsLine spec.startup_notify)
              (optional-IsLine (codes "StartupWMClass=") spec.startup_wm_class refl refl)))
          (All-append IsLine (fixed_lines spec.container spec.cli_path)
            (action_lines spec (passthrough_display spec)) fixed_lines-IsLine action_lines-IsLine)

  mark_lines-IsLine : All IsLine (mark_lines spec)
  unfolding mark_lines any
  mark_lines-IsLine =
      literal-IsLine (codes "X-easytidy-pt=1") refl refl
      & key-IsLine (codes "X-easytidy-container=") _ refl refl container-IsLine
      & key-IsLine (codes "X-easytidy-app-id=") _ refl refl app_id-IsLine
      & key-IsLine (codes "X-easytidy-app=") _ refl refl
          (sanitize_ini_value-IsLine spec.desktop_file)
      & tt

  pub lines-generate_passthrough_content :
      lines (generate_passthrough_content spec)
      ≡ name_lines spec ++ (middle_lines spec ++ mark_lines spec)
  unfolding generate_passthrough_content
  lines-generate_passthrough_content = lines-unlines _ (
      All-append IsLine (name_lines spec) (middle_lines spec ++ mark_lines spec) name_lines-IsLine (
        All-append IsLine (middle_lines spec) (mark_lines spec) middle_lines-IsLine
          mark_lines-IsLine))

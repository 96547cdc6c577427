-- ===== src/Config/Mode.antt =====
-- `GuiMode` of crates/core/src/models.rs.
use easytidy.Prelude.{◌+◌, Bool, true, false, ◌&&◌, leb, ◌≡◌, refl, map, if◌then◌else◌}
use easytidy.Text.{Text, codes, text_eq, is_empty}
use easytidy.Text.White.{is_white, trim}
use easytidy.Config.Format.{Result, ok, err, invalid, Visit, visit_bool, visit_str, other}

pub data GuiMode : Type 0 where
  none direct bypass : GuiMode

abbrev pub is_direct : GuiMode → Bool
is_direct direct = true
is_direct _ = false

abbrev pub is_bypass : GuiMode → Bool
is_bypass bypass = true
is_bypass _ = false

abbrev pub is_active : GuiMode → Bool
is_active none = false
is_active _ = true

unfoldable pub as_str : GuiMode → Text
as_str none = codes "none"
as_str direct = codes "direct"
as_str bypass = codes "bypass"

-- `str::to_ascii_lowercase`
unfoldable pub to_ascii_lowercase : Text → Text
to_ascii_lowercase t = map (λ c. if leb b'A' c && leb c b'Z' then c + 32 else c) t

unfoldable pub mode_of_name : Text → Result GuiMode
unfolding text_eq
mode_of_name t =
    if text_eq t (codes "none")
    then ok none
    else if is_empty t
    then ok none
    else if text_eq t (codes "direct")
    then ok direct
    else if text_eq t (codes "bypass")
    then ok bypass
    else err invalid

-- `deserialize_any` with the visitor of modes.
unfoldable pub visit_mode : Visit → Result GuiMode
unfolding mode_of_name to_ascii_lowercase trim is_white
visit_mode (visit_bool v) = ok (if v then direct else none)
visit_mode (visit_str v) = mode_of_name (to_ascii_lowercase (trim v))
visit_mode other = err invalid

pub visit_mode-as_str : (m : GuiMode) → visit_mode (visit_str (as_str m)) ≡ ok m
unfolding visit_mode as_str
visit_mode-as_str none = refl
visit_mode-as_str direct = refl
visit_mode-as_str bypass = refl

-- ===== src/Env/Gui/Steps.antt =====
-- What every step of the injection keeps, the whole injection keeps.
use easytidy.Prelude.{Bool, true, false, ◌||◌, List, [], ◌∷◌, if◌then◌else◌}
use easytidy.Text.{Text}
use easytidy.Config.Mode.{GuiMode, is_direct, is_bypass}
use easytidy.Env.Gui.{
  GuiPassthroughMount, GuiPassthroughSection, GuiPassthroughRule, Injection, View, Sources,
  inject_env, inject_mount, inject_envs, inject_mounts, or_keep_id, inject_section, inject_rule,
  inject_rules,
}

module _ (s : Sources) (P : Injection → Type 0)
    (keeps_env : (v : View) (e : Text) (st : Injection) → P st → P (inject_env v s.hv e st))
    (keeps_mount : (v : View) (m : GuiPassthroughMount) (st : Injection)
      → P st
      → P (inject_mount v s.hv s.exists m st))
    (keeps_flag : (st : Injection) → P st → P (record st { keep_id = true })) where
  keeps_envs : (v : View) (es : List Text) (st : Injection) → P st → P (inject_envs v s.hv es st)
  unfolding inject_envs
  keeps_envs v [] st h = h
  keeps_envs v (e ∷ es) st h = keeps_envs v es (inject_env v s.hv e st) (keeps_env v e st h)

  keeps_mounts :
      (v : View) (ms : List GuiPassthroughMount) (st : Injection)
      → P st
      → P (inject_mounts v s.hv s.exists ms st)
  unfolding inject_mounts
  keeps_mounts v [] st h = h
  keeps_mounts v (m ∷ ms) st h =
      keeps_mounts v ms (inject_mount v s.hv s.exists m st) (keeps_mount v m st h)

  keeps_or : (on : Bool) (st : Injection) → P st → P (or_keep_id on st)
  keeps_or true st h = keeps_flag st h
  keeps_or false st h = h

  keeps_section :
      (v : View) (section : GuiPassthroughSection) (st : Injection)
      → P st
      → P (inject_section v s.hv s.exists section st)
  unfolding inject_section
  keeps_section v section st h = keeps_or section.keep_id _ (
      keeps_mounts v section.mounts (inject_envs v s.hv section.env st)
        (keeps_envs v section.env st h))

  keeps_if : (b : Bool) (st u : Injection) → P st → P u → P (if b then u else st)
  keeps_if true st u h k = k
  keeps_if false st u h k = h

  keeps_rule :
      (v : View) (rule : GuiPassthroughRule) (x11 wayland : Bool) (st : Injection)
      → P st
      → P (inject_rule v s.hv s.exists rule x11 wayland st)
  unfolding inject_rule
  keeps_rule v rule x11 wayland st h =
      let a = keeps_section v rule.shared st h in
      let b = keeps_if x11 _ _ a (keeps_section v rule.x11 _ a) in
      keeps_if wayland _ _ b (keeps_section v rule.wayland _ b)

  pub inject_rules-keeps :
      (x11 wayland : GuiMode) (st : Injection) → P st → P (inject_rules s x11 wayland st)
  unfolding inject_rules
  inject_rules-keeps x11 wayland st h =
      let bypassed = is_bypass x11 || is_bypass wayland in
      let a = keeps_if (is_direct x11 || is_direct wayland) _ _ h (
        keeps_rule (record { bypass_view = false; suppress_runtime_dir = bypassed }) s.rule
          (is_direct x11) (is_direct wayland) st h) in
      keeps_if bypassed _ _ a (
        keeps_rule (record { bypass_view = true; suppress_runtime_dir = false }) s.bypass_rule
          (is_bypass x11) (is_bypass wayland) _ a)

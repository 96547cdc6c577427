-- ===== src/Env/Host.antt =====
-- crates/core/src/env/host.rs: the entry of all injections, and the graphics processors of the host. A
-- folder is the list of its names; what stands in a file is an argument.
pub mod Declared
pub mod Injected
mod Tests
use easytidy.Prelude.{
  ℕ, Bool, true, false, not, ◌&&◌, ◌||◌, Option, none, some, List, [], ◌∷◌, ◌++◌, if◌then◌else◌,
}
use easytidy.Lists.{any, retain}
use easytidy.Text.{Text, codes, text_eq, is_empty, is_digit, strip_prefix, starts_with}
use easytidy.Text.White.{trim}
use easytidy.Text.Order.{text_lt}
use easytidy.Config.{ContainerParams, ContainerConfig}
use easytidy.Config.Mode.{GuiMode, is_active}
use easytidy.Env.Gui.{Sources, env_keys, has, apply}

unfoldable pub inject_gpu_passthrough : List Text → Bool → Bool → List Text
unfolding env_keys any text_eq
inject_gpu_passthrough env nvidia amd =
    if not nvidia
    then env
    else if has (env_keys env) (codes "NVIDIA_DRIVER_CAPABILITIES")
    then env
    else env ++ (codes "NVIDIA_DRIVER_CAPABILITIES=all" ∷ [])

abbrev pub with_gpu : ContainerConfig → ContainerConfig
with_gpu c =
    if c.params.gpu_nvidia || c.params.gpu_amd
    then record c { env = inject_gpu_passthrough c.env c.params.gpu_nvidia c.params.gpu_amd }
    else c

unfoldable pub inject_gui_passthrough : Sources → ContainerConfig → ContainerConfig
unfolding apply
inject_gui_passthrough s c =
    let (params, env) =
      apply s c.params c.env c.params.gui_x11 c.params.gui_wayland (env_keys c.env) in
    record c { params = params; env = env }

unfoldable pub inject_passthrough : Sources → ContainerConfig → ContainerConfig
unfolding inject_gui_passthrough inject_gpu_passthrough
inject_passthrough s c = with_gpu (
    if is_active c.params.gui_x11 || is_active c.params.gui_wayland
    then inject_gui_passthrough s c
    else c)

-- ===== src/Env/Host/Tests.antt =====
-- A configuration with both halves in different modes.
use easytidy.Prelude.{◌≡◌, refl, true, false, Option, none, some, [], ◌∷◌, if◌then◌else◌}
use easytidy.Lists.{any, retain}
use easytidy.Text.{Text, codes, text_eq, decimal}
use easytidy.Config.{ContainerConfig, default_params}
use easytidy.Config.Mode.{direct, bypass}
use easytidy.Env.Gui.{
  GuiPassthroughMount, GuiPassthroughSection, GuiPassthroughRule, Sources, host_vars, env_keys,
  starts,
}
use easytidy.Env.Host.{inject_passthrough}
use easytidy.Env.Host.Declared.{inject_passthrough-declared}
use easytidy.Env.Host.Injected.{Added, inject_passthrough-mounts}

abbrev no_section : GuiPassthroughSection
no_section = record { env = []; mounts = []; keep_id = false }

abbrev mount : Text → Text → GuiPassthroughMount
mount host target = record {
  host_path = host;
  container_path = target;
  read_only = false;
  require_exists = false;
}

abbrev direct_rule : GuiPassthroughRule
direct_rule = record {
  shared = record {
    env = codes "XDG_RUNTIME_DIR=${XDG_RUNTIME_DIR}" ∷ codes "XDG_DATA_DIRS=/mnt/host" ∷ [];
    mounts =
        mount (codes "${XDG_RUNTIME_DIR}") (codes "${XDG_RUNTIME_DIR}")
        ∷ mount (codes "/usr/share/fonts") (codes "/mnt/host/fonts")
        ∷ [];
    keep_id = true;
  };
  x11 = record {
    env = codes "DISPLAY=${DISPLAY}" ∷ [];
    mounts = mount (codes "/tmp/.X11-unix") (codes "/tmp/.X11-unix") ∷ [];
    keep_id = false;
  };
  wayland = no_section;
}

abbrev bypass_rule : GuiPassthroughRule
bypass_rule = record {
  shared = record {
    env =
        codes "XDG_RUNTIME_DIR=/run/user/${UID}" ∷ codes "HOST_XDG_RUNTIME_DIR=/run/user/999" ∷ [];
    mounts = mount (codes "${XDG_RUNTIME_DIR}") (codes "${HOST_XDG_RUNTIME_DIR}") ∷ [];
    keep_id = true;
  };
  x11 = no_section;
  wayland = record { env = codes "WAYLAND_DISPLAY=" ∷ []; mounts = []; keep_id = false };
}

-- The host's process has a display and a runtime folder.
abbrev process : Text → Option Text
process k =
    if text_eq k (codes "DISPLAY")
    then some (codes ":1")
    else if text_eq k (codes "XDG_RUNTIME_DIR")
    then some (codes "/run/user/7")
    else none

abbrev sources : Sources
sources = record {
  rule = direct_rule;
  bypass_rule = bypass_rule;
  hv = host_vars process 7 8;
  exists = λ path. true;
}

abbrev config : ContainerConfig
config = record {
  name = codes "box";
  params = record default_params {
    mounts =
        record {
          host_path = codes "/mine";
          container_path = codes "/mnt/host/fonts";
          read_only = true;
        }
        ∷ [];
    gui_x11 = direct;
    gui_wayland = bypass;
    gpu_nvidia = true;
  };
  env = codes "XDG_DATA_DIRS=/own" ∷ [];
  silent_boot = false;
  icon = none;
}

-- The runtime folder is the container's own, and the folder of fonts the one that was configured.
injected :
    ((inject_passthrough sources config).env
      ≡ codes "XDG_DATA_DIRS=/own"
        ∷ codes "XDG_RUNTIME_DIR=/run/user/7"
        ∷ codes "HOST_XDG_RUNTIME_DIR=/run/user/999"
        ∷ codes "DISPLAY=:1"
        ∷ codes "XAUTHORITY=/run/easytidy/xauthority"
        ∷ codes "HOST_XAUTHORITY="
        ∷ codes "WAYLAND_DISPLAY="
        ∷ codes "NVIDIA_DRIVER_CAPABILITIES=all"
        ∷ [])
    × ((inject_passthrough sources config).params.keep_id ≡ true)
unfolding inject_passthrough host_vars decimal
injected = (refl, refl)

declared_example :
    retain (starts (codes "XDG_DATA_DIRS")) (inject_passthrough sources config).env
    ≡ retain (starts (codes "XDG_DATA_DIRS")) config.env
unfolding env_keys any text_eq
declared_example = inject_passthrough-declared sources config (codes "XDG_DATA_DIRS") refl

mounts_example : Added config.params.mounts (inject_passthrough sources config).params.mounts
unfolding any
mounts_example = inject_passthrough-mounts sources config (refl, tt)

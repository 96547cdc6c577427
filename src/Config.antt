-- ===== src/Config.antt =====
-- crates/core/src/models.rs: the parameters of a container. Their fields of unsigned types are natural
-- numbers with the bound in `Fits`; a data format of serde is the record `Serde`.
pub mod Format
pub mod Mode
pub mod Params
mod Tests
use easytidy.Prelude.{ℕ, ◌<◌, ◌^◌, ◌≡◌, Bool, true, false, ◌||◌, Option, none, some, List, []}
use easytidy.Lists.{All}
use easytidy.Text.{Text}
use easytidy.PathVars.{MountConfig}
use easytidy.Config.Format.{Codec, Nullable, Visit, visit_str}
use easytidy.Config.Mode.{GuiMode, is_active}

pub record VolumeMount : Type 0 where
  pub name : Text
  pub container_path : Text
  pub read_only : Bool

pub record IdMapping : Type 0 where
  pub container_id : ℕ
  pub host_id : ℕ
  pub length : ℕ

pub record PortMapping : Type 0 where
  pub host_port : ℕ
  pub container_port : ℕ
  pub protocol : Text

pub data NetworkMode : Type 0 where
  host mapped : NetworkMode

pub record NetworkConfig : Type 0 where
  pub mode : NetworkMode
  pub ports : List PortMapping

pub record ContainerParams : Type 0 where
  pub image : Text
  pub mounts : List MountConfig
  pub volumes : List VolumeMount
  pub network : NetworkConfig
  pub keep_id : Bool
  pub uidmaps : List IdMapping
  pub gidmaps : List IdMapping
  pub user_uid : Option ℕ
  pub user_gid : Option ℕ
  pub user_name : Option Text
  pub gui_x11 : GuiMode
  pub gui_wayland : GuiMode
  pub gpu_nvidia : Bool
  pub gpu_amd : Bool
  pub devices : List Text
  pub extra_opts : List Text
  pub pid : Option Text
  pub tmpfs_tmp : Bool
  pub tmpfs_run : Bool

abbrev pub default_network : NetworkConfig
default_network = record { mode = host; ports = [] }

-- `ContainerParams::default`
abbrev pub default_params : ContainerParams
default_params = record {
  image = [];
  mounts = [];
  volumes = [];
  network = default_network;
  keep_id = true;
  uidmaps = [];
  gidmaps = [];
  user_uid = none;
  user_gid = none;
  user_name = none;
  gui_x11 = GuiMode.none;
  gui_wayland = GuiMode.none;
  gpu_nvidia = false;
  gpu_amd = false;
  devices = [];
  extra_opts = [];
  pid = none;
  tmpfs_tmp = false;
  tmpfs_run = false;
}

abbrev pub gui_enabled : ContainerParams → Bool
gui_enabled p = is_active p.gui_x11 || is_active p.gui_wayland

pub record ContainerConfig : Type 0 where
  pub name : Text
  pub params : ContainerParams
  pub env : List Text
  pub silent_boot : Bool
  pub icon : Option Text

-- The values that the Rust types have.
abbrev pub IsU32 : ℕ → Type 0
IsU32 n = n < 2 ^ 32

abbrev pub IsMapping : IdMapping → Type 0
IsMapping m = IsU32 m.container_id × IsU32 m.host_id × IsU32 m.length

abbrev pub IsPort : PortMapping → Type 0
IsPort p = (p.host_port < 2 ^ 16) × (p.container_port < 2 ^ 16)

abbrev pub Any : {A : Type 0} → A → Type 0
Any a = Unit {0}

-- A data format. `text_visits` and `bool` are what it does for the visitor of modes.
pub record Serde : Type 1 where
  pub Value : Type 0
  pub null : Value
  pub visits : Value → Visit
  pub text : Codec Value Text Any
  pub bool : Codec Value Bool Any
  pub network : Codec Value NetworkConfig (λ n. All IsPort n.ports)
  pub mounts : Nullable Value null (List MountConfig) Any
  pub volumes : Nullable Value null (List VolumeMount) Any
  pub mappings : Nullable Value null (List IdMapping) (All IsMapping)
  pub texts : Nullable Value null (List Text) Any
  pub some_u32 : Nullable Value null ℕ IsU32
  pub some_text : Nullable Value null Text Any
  pub text_visits : (t : Text) → visits (text.encode t) ≡ visit_str t

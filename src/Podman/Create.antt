-- ===== src/Podman/Create.antt =====
-- `create_inner` of crates/core/src/podman/mod.rs, from the injected configuration to the request. The
-- folder of sockets, the mounts after the expansion of their variables and what the host and the
-- engine answer are arguments.
pub mod Accepted
pub mod Entries
pub mod Request
pub mod Ports
mod Tests
use easytidy.Prelude.{
  ℕ, ◌==◌, Bool, true, false, not, ◌&&◌, ◌||◌, Option, none, some, List, [], ◌∷◌, ◌++◌, map,
  if◌then◌else◌,
}
use easytidy.Lists.{find_map, any}
use easytidy.Text.{Text, codes, text_eq, is_empty, strip_prefix, starts_with, decimal}
use easytidy.Text.White.{trim}
use easytidy.PathVars.{MountConfig, HostUser}
use easytidy.Config.{
  VolumeMount, PortMapping, NetworkMode, host, mapped, ContainerParams, ContainerConfig,
}
use easytidy.Config.Mode.{is_bypass}
use easytidy.Podman.Mounts.{MountError, validate_mount}
use easytidy.Podman.Body.{
  MountEntry, PortBinding, CreateArgs, CreateBody, insert, or_else, keep_id_create_body,
}

pub data CreateError : Type 0 where
  no_image no_volume_name no_volume_path no_volume no_user no_port no_amd_gpu no_nvidia_gpu
        no_cdi_spec no_expansion :
      CreateError
  bad_mount : MountError → CreateError

pub data Created {ℓ} (A : Type ℓ) : Type ℓ where
  ok : A → Created A
  err : CreateError → Created A

infixl 5 ◌>>=◌
abbrev pub ◌>>=◌ {ℓ κ} : {A : Type ℓ} {B : Type κ} → Created A → (A → Created B) → Created B
ok a >>= f = f a
err e >>= f = err e

pub data NvidiaGpuReadiness : Type 0 where
  ready no_gpu missing_cdi_spec : NvidiaGpuReadiness

pub record ContainerBins : Type 0 where
  pub server : Text
  pub dock : Text
  pub ets : Option Text

-- What the engine and the host answer. `expand` is `expand_user_mounts` for the user of a container.
pub record Answers : Type 0 where
  pub image_exists : Bool
  pub socket_host_dir : Text
  pub user : Option HostUser
  pub volume_ensure : Text → Bool
  pub expand : ℕ → ℕ → Option (List MountConfig)
  pub exists : Text → Bool
  pub amd_gpu : List Text
  pub nvidia_gpu : NvidiaGpuReadiness

abbrev pub entry : Text → MountEntry
entry typ = record {
  typ = some typ;
  name = none;
  dest = none;
  source = none;
  target = none;
  read_only = none;
  options = none;
}

abbrev pub tmpfs_mount : Text → List Text → MountEntry
tmpfs_mount dest options = record (entry (codes "tmpfs")) {
  target = some dest;
  options = some options;
}

abbrev pub volume_mount : Text → Text → Bool → MountEntry
volume_mount name dest read_only = record (entry (codes "volume")) {
  name = some name;
  dest = some dest;
  options = some (if read_only then codes "ro" ∷ codes "U" ∷ [] else codes "U" ∷ []);
}

abbrev pub bind : Text → Text → Bool → MountEntry
bind source target read_only = record (entry (codes "bind")) {
  source = some source;
  target = some target;
  read_only = some read_only;
}

abbrev pub server_target : Text
server_target = codes "/run/easytidy-bin/easytidy-server"

abbrev pub dock_target : Text
dock_target = codes "/run/easytidy-bin/easytidy-dock"

abbrev pub ets_target : Text
ets_target = codes "/run/easytidy-bin/ets"

abbrev pub when : Bool → MountEntry → List MountEntry
when true m = m ∷ []
when false m = []

-- The folder of a container's own display.
unfoldable pub runtime_tmpfs : ContainerConfig → List MountEntry
unfolding find_map strip_prefix
runtime_tmpfs config =
    if is_bypass config.params.gui_x11 || is_bypass config.params.gui_wayland
    then elim (find_map (strip_prefix (codes "XDG_RUNTIME_DIR=")) config.env) [
      | some xdg ↦
          when (starts_with (codes "/run/user/") xdg)
            (tmpfs_mount xdg (codes "rw" ∷ codes "nosuid" ∷ codes "nodev" ∷ codes "mode=0700" ∷ []))
      | none ↦ []
    ]
    else []

unfoldable pub tmpfs_mounts : ContainerConfig → List MountEntry
unfolding runtime_tmpfs
tmpfs_mounts config =
    when config.params.tmpfs_tmp (
      tmpfs_mount (codes "/tmp")
        (codes "rw" ∷ codes "nosuid" ∷ codes "nodev" ∷ codes "mode=1777" ∷ []))
    ++ (when config.params.tmpfs_run (
          tmpfs_mount (codes "/run")
            (codes "rw" ∷ codes "nosuid" ∷ codes "nodev" ∷ codes "noexec" ∷ codes "mode=0755" ∷ []))
        ++ runtime_tmpfs config)

unfoldable pub volume_mounts : List VolumeMount → Created (List MountEntry)
unfolding trim strip_prefix
volume_mounts [] = ok []
volume_mounts (v ∷ vs) =
    let rest = volume_mounts vs in
    if is_empty (trim v.name)
    then err no_volume_name
    else if not (starts_with (codes "/") v.container_path)
    then err no_volume_path
    else (rest >>= λ es. ok (volume_mount v.name v.container_path v.read_only ∷ es))

abbrev pub engine_mounts : ContainerBins → Text → List MountEntry
engine_mounts bins socket_host_dir =
    bind bins.server server_target true
    ∷ bind bins.dock dock_target true
    ∷ bind socket_host_dir (codes "/run/easytidy") false
    ∷ elim bins.ets [ some ets ↦ bind ets ets_target true ∷ [] | none ↦ [] ]

abbrev pub uid_of : Option HostUser → Option ℕ
uid_of none = none
uid_of (some h) = some h.uid

abbrev pub gid_of : Option HostUser → Option ℕ
gid_of none = none
gid_of (some h) = some h.gid

abbrev pub both : Option ℕ → Option ℕ → Option (ℕ × ℕ)
both (some uid) (some gid) = some (uid, gid)
both _ _ = none

unfoldable pub resolve_container_user : ContainerParams → Option HostUser → Option (ℕ × ℕ)
resolve_container_user p user =
    both (or_else p.user_uid (uid_of user)) (or_else p.user_gid (gid_of user))

unfoldable pub ensure_volumes : (Text → Bool) → List VolumeMount → Created {0} (Unit {0})
unfolding trim
ensure_volumes ensure [] = ok tt
ensure_volumes ensure (v ∷ vs) =
    let rest = ensure_volumes ensure vs in if ensure (trim v.name) then rest else err no_volume

unfoldable pub user_mounts : (Text → Bool) → List MountConfig → Created (List MountEntry)
unfolding validate_mount
user_mounts exists [] = ok []
user_mounts exists (m ∷ ms) =
    let rest = user_mounts exists ms in
    elim (validate_mount exists m) [
      | some e ↦ err (bad_mount e)
      | none ↦ rest >>= λ es. ok (bind m.host_path m.container_path m.read_only ∷ es)
    ]

abbrev pub Bindings : Type 0
Bindings = List (Text × List PortBinding)

abbrev pub protocol_of : PortMapping → Text
protocol_of p = if is_empty p.protocol then codes "tcp" else p.protocol

unfoldable pub binding_key : PortMapping → Text
unfolding decimal
binding_key p = decimal p.container_port ++ (b'/' ∷ protocol_of p)

abbrev pub binding : PortMapping → List PortBinding
binding p = record { host_ip = []; host_port = decimal p.host_port } ∷ []

unfoldable pub bind_ports : Bindings → List PortMapping → Created Bindings
unfolding insert binding_key
bind_ports m [] = ok m
bind_ports m (p ∷ ps) =
    let rest = bind_ports (insert (binding_key p) (binding p) m) ps in
    if p.container_port == 0 || p.host_port == 0 then err no_port else rest

-- The mode and the bindings; ports of the host's network are left out.
unfoldable pub bind_network :
    NetworkMode → List PortMapping → Created (Option Text × Option Bindings)
unfolding bind_ports
bind_network host ports = ok (some (codes "host"), none)
bind_network mapped [] = ok (none, none)
bind_network mapped (p ∷ ps) = bind_ports [] (p ∷ ps) >>= λ m. ok (none, some m)

unfoldable pub amd_devices : ContainerParams → List Text → Created (List Text)
amd_devices p [] = if p.gpu_amd then err no_amd_gpu else ok []
amd_devices p (d ∷ ds) = if p.gpu_amd then ok (d ∷ ds) else ok []

unfoldable pub check_nvidia : ContainerParams → NvidiaGpuReadiness → Created {0} (Unit {0})
check_nvidia p ready = ok tt
check_nvidia p no_gpu = if p.gpu_nvidia then err no_nvidia_gpu else ok tt
check_nvidia p missing_cdi_spec = if p.gpu_nvidia then err no_cdi_spec else ok tt

-- The image of a rebuild is not there yet.
abbrev pub check_image : Bool → Bool → Created {0} (Unit {0})
check_image false false = err no_image
check_image _ _ = ok tt

abbrev pub env_of : ContainerConfig → List Text
env_of config = elim config.params.user_name [
  | some name ↦ config.env ++ ((codes "EASYTIDY_USER_NAME=" ++ name) ∷ [])
  | none ↦ config.env
]

abbrev pub server_cmd : List Text
server_cmd =
    server_target
    ∷ codes "--socket"
    ∷ codes "/run/easytidy/server.sock"
    ∷ codes "--log-file"
    ∷ codes "/run/easytidy/server.log"
    ∷ []

abbrev pub of_option {ℓ} : {A : Type ℓ} → CreateError → Option A → Created A
of_option e (some a) = ok a
of_option e none = err e

abbrev pub keys : Option Bindings → Option (List Text)
keys none = none
keys (some m) = some (map (λ e. e.0) m)

abbrev pub create_args :
    Answers
    → Text
    → Text
    → Text
    → ContainerBins
    → ContainerConfig
    → ℕ × ℕ
    → List MountEntry
    → List MountEntry
    → Option Text × Option Bindings
    → List Text
    → CreateArgs
create_args answers name container_name image bins config user volumes binds net amd_gpu_devices =
    record {
      name = container_name;
      hostname = name;
      image = image;
      cmd = server_cmd;
      env = env_of config;
      labels = (codes "manager", codes "easytidy") ∷ (codes "easytidy.name", name) ∷ [];
      mounts =
          tmpfs_mounts config ++ (volumes ++ (engine_mounts bins answers.socket_host_dir ++ binds));
      network_mode = net.0;
      exposed_ports = keys net.1;
      port_bindings = net.1;
      working_dir = none;
      default_user = some (decimal user.0 ++ (b':' ∷ decimal user.1));
      keep_id = config.params.keep_id;
      uidmaps = config.params.uidmaps;
      gidmaps = config.params.gidmaps;
      devices = config.params.devices;
      gpu_nvidia = config.params.gpu_nvidia;
      amd_gpu_devices = amd_gpu_devices;
      pid = config.params.pid;
      extra_opts = config.params.extra_opts;
    }

unfoldable pub create_inner :
    Answers → Text → Text → Text → ContainerBins → ContainerConfig → Bool → Created CreateBody
unfolding tmpfs_mounts volume_mounts resolve_container_user ensure_volumes user_mounts bind_network
    amd_devices check_nvidia keep_id_create_body
create_inner answers name container_name image bins config rebuild = do
  _ ← check_image rebuild answers.image_exists
  volumes ← volume_mounts config.params.volumes
  user ← of_option no_user (resolve_container_user config.params answers.user)
  _ ← ensure_volumes answers.volume_ensure config.params.volumes
  expanded ← of_option no_expansion (answers.expand user.0 user.1)
  binds ← user_mounts answers.exists expanded
  net ← bind_network config.params.network.mode config.params.network.ports
  amd_gpu_devices ← amd_devices config.params answers.amd_gpu
  _ ← check_nvidia config.params answers.nvidia_gpu
  ok (
      keep_id_create_body (
        create_args answers name container_name image bins config user volumes binds net
          amd_gpu_devices))

-- ===== src/Podman/Body.antt =====
-- `keep_id_create_body` of crates/core/src/libpod.rs: the request that creates a container. The JSON
-- objects that its callers build are records, of which a field can be absent; a number in a text
-- is below 2^32, and the types of mounts have letters of ASCII.
use easytidy.Prelude.{
  ℕ, ◌^◌, Bool, true, false, not, ◌&&◌, ◌||◌, ltb, Option, none, some, List, [], ◌∷◌, ◌++◌, map,
  if◌then◌else◌,
}
use easytidy.Lists.{any}
use easytidy.Text.{Text, codes, text_eq, is_empty, split_once, parse_u32}
use easytidy.Text.White.{trim}
use easytidy.Text.Order.{text_lt}
use easytidy.Config.{IdMapping}
use easytidy.Config.Mode.{to_ascii_lowercase}

pub record MountEntry : Type 0 where
  pub typ : Option Text
  pub name : Option Text
  pub dest : Option Text
  pub source : Option Text
  pub target : Option Text
  pub read_only : Option Bool
  pub options : Option (List Text)

-- `none` is the JSON null.
pub record PodmanMount : Type 0 where
  pub typ : Text
  pub source : Option Text
  pub destination : Option Text
  pub options : List Text

pub record NamedVolume : Type 0 where
  pub name : Text
  pub dest : Text
  pub options : List Text

pub record PortBinding : Type 0 where
  pub host_ip : Text
  pub host_port : Text

pub record PodmanPort : Type 0 where
  pub host_ip : Text
  pub host_port : ℕ
  pub container_port : ℕ
  pub protocol : Text

-- A map of serde_json, sorted by its keys.
unfoldable pub insert : {V : Type 0} → Text → V → List (Text × V) → List (Text × V)
unfolding text_eq text_lt
insert k v [] = (k, v) ∷ []
insert k v ((j, w) ∷ m) =
    let rest = insert k v m in
    if text_eq k j then (k, v) ∷ m else if text_lt k j then (k, v) ∷ ((j, w) ∷ m) else (j, w) ∷ rest

unfoldable pub env_from : List (Text × Text) → List Text → List (Text × Text)
unfolding insert split_once
env_from m [] = m
env_from m (kv ∷ env) = elim (split_once b'=' kv) [
  | some (k, v) ↦ env_from (insert k v m) env
  | none ↦ env_from m env
]

abbrev pub or_else {ℓ} : {A : Type ℓ} → Option A → Option A → Option A
or_else (some a) b = some a
or_else none b = b

abbrev pub unwrap_or {ℓ} : {A : Type ℓ} → A → Option A → A
unwrap_or d (some a) = a
unwrap_or d none = d

-- Where an entry goes.
pub data Place : Type 0 where
  in_mounts : PodmanMount → Place
  in_volumes : NamedVolume → Place
  skip : Place

abbrev pub volume_place : Text → Option Text → List Text → Place
volume_place name none options = skip
volume_place name (some dest) options =
    if is_empty name
    then skip
    else in_volumes (record { name = name; dest = dest; options = options })

unfoldable pub place_mount : MountEntry → Place
unfolding to_ascii_lowercase text_eq
place_mount m =
    let typ = to_ascii_lowercase (unwrap_or (codes "bind") m.typ) in
    if text_eq typ (codes "volume")
    then volume_place (unwrap_or [] m.name) (or_else m.dest m.target) (unwrap_or [] m.options)
    else if text_eq typ (codes "tmpfs")
    then in_mounts (record {
      typ = codes "tmpfs";
      source = some (codes "tmpfs");
      destination = m.target;
      options = unwrap_or [] m.options;
    })
    else in_mounts (record {
      typ = typ;
      source = m.source;
      destination = m.target;
      options = if unwrap_or false m.read_only then codes "ro" ∷ [] else [];
    })

unfoldable pub podman_mounts : List MountEntry → List PodmanMount
unfolding place_mount
podman_mounts [] = []
podman_mounts (m ∷ ms) = elim (place_mount m) [
  | in_mounts p ↦ p ∷ podman_mounts ms
  | _ ↦ podman_mounts ms
]

unfoldable pub podman_volumes : List MountEntry → List NamedVolume
unfolding place_mount
podman_volumes [] = []
podman_volumes (m ∷ ms) = elim (place_mount m) [
  | in_volumes v ↦ v ∷ podman_volumes ms
  | _ ↦ podman_volumes ms
]

-- `parse::<u16>`: a prefix of the digits is not above the whole.
abbrev pub below : ℕ → Option ℕ → Option ℕ
below b (some n) = if ltb n b then some n else none
below b none = none

unfoldable pub port_key : Text → ℕ × Text
unfolding split_once parse_u32
port_key key =
    let (port, proto) = unwrap_or (key, codes "tcp") (split_once b'/' key) in
    (unwrap_or 0 (below (2 ^ 16) (parse_u32 port)), proto)

abbrev pub port_of : Text → PortBinding → PodmanPort
port_of key b =
    let (container_port, protocol) = port_key key in
    record {
      host_ip = b.host_ip;
      host_port = unwrap_or 0 (parse_u32 b.host_port);
      container_port = container_port;
      protocol = protocol;
    }

unfoldable pub portmappings : List (Text × List PortBinding) → List PodmanPort
unfolding port_key
portmappings [] = []
portmappings ((key, bs) ∷ m) = map (port_of key) bs ++ portmappings m

unfoldable pub add_devices : List Text → List Text → List Text
unfolding trim any
add_devices acc [] = acc
add_devices acc (d ∷ ds) =
    add_devices
      (if is_empty (trim d) || any (text_eq (trim d)) acc then acc else acc ++ (trim d ∷ [])) ds

unfoldable pub device_list : List Text → List Text → Bool → List Text
unfolding add_devices
device_list devices amd_gpu_devices gpu_nvidia =
    let raw = add_devices [] (devices ++ amd_gpu_devices) in
    if gpu_nvidia then raw ++ (codes "nvidia.com/gpu=all" ∷ []) else raw

-- No mode is the private one.
unfoldable pub pid_mode : Option Text → Option Text
unfolding trim text_eq
pid_mode none = none
pid_mode (some p) =
    if is_empty (trim p) || text_eq (trim p) (codes "private") then none else some (trim p)

pub record SecurityOpts : Type 0 where
  pub apparmor_profile : Option Text
  pub selinux_opts : List Text
  pub seccomp_profile_path : Option Text

abbrev pub with_opt : Text → Text → SecurityOpts → SecurityOpts
with_opt key val s =
    if text_eq key (codes "apparmor")
    then record s { apparmor_profile = some val }
    else if text_eq key (codes "label")
    then record s { selinux_opts = s.selinux_opts ++ (val ∷ []) }
    else if text_eq key (codes "seccomp")
    then record s { seccomp_profile_path = some val }
    else s

unfoldable pub security_opts : SecurityOpts → List Text → SecurityOpts
unfolding split_once text_eq
security_opts s [] = s
security_opts s (opt ∷ opts) = elim (split_once b'=' opt) [
  | some (key, val) ↦ security_opts (with_opt key val s) opts
  | none ↦ security_opts s opts
]

pub record CreateArgs : Type 0 where
  pub name : Text
  pub hostname : Text
  pub image : Text
  pub cmd : List Text
  pub env : List Text
  pub labels : List (Text × Text)
  pub mounts : List MountEntry
  pub network_mode : Option Text
  pub exposed_ports : Option (List Text)
  pub port_bindings : Option (List (Text × List PortBinding))
  pub working_dir : Option Text
  pub default_user : Option Text
  pub keep_id : Bool
  pub uidmaps : List IdMapping
  pub gidmaps : List IdMapping
  pub devices : List Text
  pub gpu_nvidia : Bool
  pub amd_gpu_devices : List Text
  pub pid : Option Text
  pub extra_opts : List Text

-- An empty list of `uidmappings`, `gidmappings`, `devices` and the options of SELinux is a field that
-- is left out, as is `none` of the other options.
pub record CreateBody : Type 0 where
  pub name : Text
  pub image : Text
  pub command : List Text
  pub user : Text
  pub env : List (Text × Text)
  pub labels : List (Text × Text)
  pub hostname : Text
  pub init : Bool
  pub mounts : List PodmanMount
  pub volumes : List NamedVolume
  pub netns : Option Text
  pub exposed_ports : Option (List Text)
  pub portmappings : List PodmanPort
  pub working_dir : Option Text
  pub entrypoint : List Text
  pub uidmappings : List IdMapping
  pub gidmappings : List IdMapping
  pub userns : Option Text
  pub devices : List Text
  pub pidns : Option Text
  pub security : SecurityOpts

abbrev pub no_maps : List IdMapping → Bool
no_maps [] = true
no_maps (m ∷ ms) = false

abbrev pub is_none {ℓ} : {A : Type ℓ} → Option A → Bool
is_none none = true
is_none (some a) = false

unfoldable pub keep_id_create_body : CreateArgs → CreateBody
unfolding env_from podman_mounts podman_volumes portmappings device_list pid_mode security_opts
keep_id_create_body a = record {
  name = a.name;
  image = a.image;
  command = a.cmd;
  user = unwrap_or (codes "0:0") a.default_user;
  env = env_from [] a.env;
  labels = a.labels;
  hostname = a.hostname;
  init = is_none (pid_mode a.pid);
  mounts = podman_mounts a.mounts;
  volumes = podman_volumes a.mounts;
  netns = a.network_mode;
  exposed_ports = a.exposed_ports;
  portmappings = portmappings (unwrap_or [] a.port_bindings);
  working_dir = a.working_dir;
  entrypoint = [];
  uidmappings = a.uidmaps;
  gidmappings = a.gidmaps;
  userns =
      if not (no_maps a.uidmaps && no_maps a.gidmaps)
      then none
      else if a.keep_id
      then some (codes "keep-id")
      else none;
  devices = device_list a.devices a.amd_gpu_devices a.gpu_nvidia;
  pidns = pid_mode a.pid;
  security =
      security_opts
        (record { apparmor_profile = none; selinux_opts = []; seccomp_profile_path = none })
        a.extra_opts;
}

-- ===== src/Config/Params.antt =====
-- The hand-written `Serialize` and `Deserialize` of `ContainerParams` in crates/core/src/models.rs, over a
-- data format. The flag of `Seen` for a field is that the field was read.
pub mod Reading
pub mod RoundTrip
use easytidy.Prelude.{
  ℕ, Bool, true, false, ◌||◌, flatten, Option, none, some, List, [], ◌∷◌, ◌++◌, if◌then◌else◌,
}
use easytidy.Text.{Text, codes, text_eq}
use easytidy.PathVars.{MountConfig}
use easytidy.Config.{VolumeMount, IdMapping, NetworkConfig, ContainerParams, default_params, Serde}
use easytidy.Config.Format.{Result, ok, err, duplicate_field, missing_field, invalid, ◌>>=◌}
use easytidy.Config.Mode.{GuiMode, as_str, visit_mode, direct, bypass}

-- The fields that were read so far.
pub record Fields : Type 0 where
  pub image : Option Text
  pub mounts : Option (List MountConfig)
  pub volumes : Option (List VolumeMount)
  pub network : Option NetworkConfig
  pub keep_id : Option Bool
  pub uidmaps : Option (List IdMapping)
  pub gidmaps : Option (List IdMapping)
  pub user_uid : Option (Option ℕ)
  pub user_gid : Option (Option ℕ)
  pub user_name : Option (Option Text)
  pub gui_x11 : Option GuiMode
  pub gui_wayland : Option GuiMode
  pub gpu_nvidia : Option Bool
  pub gpu_amd : Option Bool
  pub devices : Option (List Text)
  pub extra_opts : Option (List Text)
  pub pid : Option (Option Text)
  pub tmpfs_tmp : Option Bool
  pub tmpfs_run : Option Bool

abbrev pub no_fields : Fields
no_fields = record {
  image = none;
  mounts = none;
  volumes = none;
  network = none;
  keep_id = none;
  uidmaps = none;
  gidmaps = none;
  user_uid = none;
  user_gid = none;
  user_name = none;
  gui_x11 = none;
  gui_wayland = none;
  gpu_nvidia = none;
  gpu_amd = none;
  devices = none;
  extra_opts = none;
  pid = none;
  tmpfs_tmp = none;
  tmpfs_run = none;
}

-- One arm of the `match`: a field that was seen is refused before its value is read.
abbrev pub read {ℓ} : {A : Type ℓ} → Text → Option A → Option A → (A → Fields) → Result Fields
read name (some old) value put = err (duplicate_field name)
read name none none put = err invalid
read name none (some a) put = ok (put a)

-- `null_to_empty_vec`
abbrev pub null_to_empty_vec {ℓ} : {A : Type ℓ} → Option (Option (List A)) → Option (List A)
null_to_empty_vec none = none
null_to_empty_vec (some none) = some []
null_to_empty_vec (some (some xs)) = some xs

abbrev pub mode_of : Result GuiMode → Option GuiMode
mode_of (ok m) = some m
mode_of (err e) = none

abbrev pub or_default {ℓ} : {A : Type ℓ} → Option A → A → A
or_default none d = d
or_default (some a) d = a

-- A field that is written only if there is something to write.
abbrev pub given {ℓ κ} : {A : Type ℓ} {V : Type κ} → Text → (A → V) → Option A → List (Text × V)
given key enc none = []
given key enc (some a) = (key, enc a) ∷ []

abbrev pub unless_empty {ℓ} : {A : Type ℓ} → List A → Option (List A)
unless_empty [] = none
unless_empty (x ∷ xs) = some (x ∷ xs)

abbrev pub if_set : Bool → Option Bool
if_set false = none
if_set true = some true

abbrev pub unless_none : GuiMode → Option GuiMode
unless_none GuiMode.none = none
unless_none direct = some direct
unless_none bypass = some bypass

module _ (s : Serde) where
  abbrev pub encode_mode : GuiMode → s.Value
  encode_mode m = s.text.encode (as_str m)

  abbrev pub decode_mode : s.Value → Option GuiMode
  decode_mode v = mode_of (visit_mode (s.visits v))

  unfoldable pub serialize : ContainerParams → List (Text × s.Value)
  unfolding as_str flatten
  serialize p = flatten (
      (given (codes "image") s.text.encode (some p.image))
      ∷ (given (codes "mounts") s.mounts.encode (some p.mounts))
      ∷ (given (codes "volumes") s.volumes.encode (unless_empty p.volumes))
      ∷ (given (codes "network") s.network.encode (some p.network))
      ∷ (given (codes "keep_id") s.bool.encode (some p.keep_id))
      ∷ (given (codes "uidmaps") s.mappings.encode (unless_empty p.uidmaps))
      ∷ (given (codes "gidmaps") s.mappings.encode (unless_empty p.gidmaps))
      ∷ (given (codes "user_uid") s.some_u32.encode p.user_uid)
      ∷ (given (codes "user_gid") s.some_u32.encode p.user_gid)
      ∷ (given (codes "user_name") s.some_text.encode p.user_name)
      ∷ (given (codes "gui_x11") encode_mode (unless_none p.gui_x11))
      ∷ (given (codes "gui_wayland") encode_mode (unless_none p.gui_wayland))
      ∷ (given (codes "gpu_nvidia") s.bool.encode (if_set p.gpu_nvidia))
      ∷ (given (codes "gpu_amd") s.bool.encode (if_set p.gpu_amd))
      ∷ (given (codes "devices") s.texts.encode (some p.devices))
      ∷ (given (codes "extra_opts") s.texts.encode (some p.extra_opts))
      ∷ (given (codes "pid") s.some_text.encode p.pid)
      ∷ (given (codes "tmpfs_tmp") s.bool.encode (if_set p.tmpfs_tmp))
      ∷ (given (codes "tmpfs_run") s.bool.encode (if_set p.tmpfs_run))
      ∷ [])

  unfoldable pub visit_entry : Fields → Text → s.Value → Result Fields
  unfolding text_eq visit_mode
  visit_entry f key v =
      if text_eq key (codes "image")
      then read (codes "image") f.image (s.text.decode v) (λ x. record f { image = some x })
      else if text_eq key (codes "mounts")
      then read (codes "mounts") f.mounts (null_to_empty_vec (s.mounts.decode v))
          (λ x. record f { mounts = some x })
      else if text_eq key (codes "volumes")
      then read (codes "volumes") f.volumes (null_to_empty_vec (s.volumes.decode v))
          (λ x. record f { volumes = some x })
      else if text_eq key (codes "network")
      then read (codes "network") f.network (s.network.decode v)
          (λ x. record f { network = some x })
      else if text_eq key (codes "keep_id") || text_eq key (codes "user_home")
      then read (codes "keep_id") f.keep_id (s.bool.decode v) (λ x. record f { keep_id = some x })
      else if text_eq key (codes "uidmaps")
      then read (codes "uidmaps") f.uidmaps (null_to_empty_vec (s.mappings.decode v))
          (λ x. record f { uidmaps = some x })
      else if text_eq key (codes "gidmaps")
      then read (codes "gidmaps") f.gidmaps (null_to_empty_vec (s.mappings.decode v))
          (λ x. record f { gidmaps = some x })
      else if text_eq key (codes "user_uid")
      then read (codes "user_uid") f.user_uid (s.some_u32.decode v)
          (λ x. record f { user_uid = some x })
      else if text_eq key (codes "user_gid")
      then read (codes "user_gid") f.user_gid (s.some_u32.decode v)
          (λ x. record f { user_gid = some x })
      else if text_eq key (codes "user_name")
      then read (codes "user_name") f.user_name (s.some_text.decode v)
          (λ x. record f { user_name = some x })
      else if text_eq key (codes "gui_x11")
      then read (codes "gui_x11") f.gui_x11 (decode_mode v) (λ x. record f { gui_x11 = some x })
      else if text_eq key (codes "gui_wayland")
      then read (codes "gui_wayland") f.gui_wayland (decode_mode v)
          (λ x. record f { gui_wayland = some x })
      else if text_eq key (codes "gpu_nvidia")
      then read (codes "gpu_nvidia") f.gpu_nvidia (s.bool.decode v)
          (λ x. record f { gpu_nvidia = some x })
      else if text_eq key (codes "gpu_amd")
      then read (codes "gpu_amd") f.gpu_amd (s.bool.decode v) (λ x. record f { gpu_amd = some x })
      else if text_eq key (codes "devices")
      then read (codes "devices") f.devices (null_to_empty_vec (s.texts.decode v))
          (λ x. record f { devices = some x })
      else if text_eq key (codes "extra_opts") || text_eq key (codes "security_opts")
      then read (codes "extra_opts") f.extra_opts (null_to_empty_vec (s.texts.decode v))
          (λ x. record f { extra_opts = some x })
      else if text_eq key (codes "pid")
      then read (codes "pid") f.pid (s.some_text.decode v) (λ x. record f { pid = some x })
      else if text_eq key (codes "tmpfs_tmp")
      then read (codes "tmpfs_tmp") f.tmpfs_tmp (s.bool.decode v)
          (λ x. record f { tmpfs_tmp = some x })
      else if text_eq key (codes "tmpfs_run")
      then read (codes "tmpfs_run") f.tmpfs_run (s.bool.decode v)
          (λ x. record f { tmpfs_run = some x })
      else ok f

  unfoldable pub visit_entries : List (Text × s.Value) → Fields → Result Fields
  unfolding visit_entry
  visit_entries [] f = ok f
  visit_entries ((key, v) ∷ rest) f = visit_entry f key v >>= visit_entries rest

-- What `visit_map` makes of the fields that were read.
unfoldable pub build : Fields → Text → ContainerParams
build f image = record {
  image = image;
  mounts = or_default f.mounts default_params.mounts;
  volumes = or_default f.volumes default_params.volumes;
  network = or_default f.network default_params.network;
  keep_id = or_default f.keep_id default_params.keep_id;
  uidmaps = or_default f.uidmaps default_params.uidmaps;
  gidmaps = or_default f.gidmaps default_params.gidmaps;
  user_uid = or_default f.user_uid default_params.user_uid;
  user_gid = or_default f.user_gid default_params.user_gid;
  user_name = or_default f.user_name default_params.user_name;
  gui_x11 = or_default f.gui_x11 default_params.gui_x11;
  gui_wayland = or_default f.gui_wayland default_params.gui_wayland;
  gpu_nvidia = or_default f.gpu_nvidia default_params.gpu_nvidia;
  gpu_amd = or_default f.gpu_amd default_params.gpu_amd;
  devices = or_default f.devices default_params.devices;
  extra_opts = or_default f.extra_opts default_params.extra_opts;
  pid = or_default f.pid default_params.pid;
  tmpfs_tmp = or_default f.tmpfs_tmp default_params.tmpfs_tmp;
  tmpfs_run = or_default f.tmpfs_run default_params.tmpfs_run;
}

abbrev pub finish : Fields → Option Text → Result ContainerParams
finish f none = err (missing_field (codes "image"))
finish f (some image) = ok (build f image)

module _ (s : Serde) where
  unfoldable pub deserialize : List (Text × s.Value) → Result ContainerParams
  unfolding visit_entries build
  deserialize entries = visit_entries s entries no_fields >>= λ f. finish f f.image

-- ===== src/Podman/Create/Entries.antt =====
-- The mounts and the volumes of the request for the entries that `create_inner` builds.
use easytidy.Prelude.{
  Bool, true, false, ◌||◌, none, some, List, [], ◌∷◌, ◌++◌, map, ◌≡◌, refl, sym, append-nil, ap,
  ◌∙◌, arith, if◌then◌else◌, Bool-cases, inl, inr,
}
use easytidy.Lists.{All, find_map}
use easytidy.Text.{Text, codes, text_eq, is_empty, strip_prefix, starts_with}
use easytidy.Text.White.{trim}
use easytidy.PathVars.{MountConfig}
use easytidy.Config.{VolumeMount, ContainerConfig}
use easytidy.Config.Mode.{to_ascii_lowercase, is_bypass}
use easytidy.Podman.Body.{
  MountEntry, PodmanMount, NamedVolume, place_mount, podman_mounts, podman_volumes,
}
use easytidy.Podman.Create.{
  ContainerBins, bind, volume_mount, tmpfs_mount, tmpfs_mounts, when, runtime_tmpfs, engine_mounts,
  server_target, dock_target, ets_target,
}
use easytidy.Podman.Create.Accepted.{IsVolume}

podman_mounts-append :
    (a b : List MountEntry) → podman_mounts (a ++ b) ≡ podman_mounts a ++ podman_mounts b
unfolding podman_mounts
podman_mounts-append [] b = refl
podman_mounts-append (m ∷ a) b = ground (arith, podman_mounts-append a b)

podman_volumes-append :
    (a b : List MountEntry) → podman_volumes (a ++ b) ≡ podman_volumes a ++ podman_volumes b
unfolding podman_volumes
podman_volumes-append [] b = refl
podman_volumes-append (m ∷ a) b = ground (arith, podman_volumes-append a b)

-- The mount of the engine, and the volume.
abbrev pub bind_of : MountConfig → PodmanMount
bind_of m = record {
  typ = codes "bind";
  source = some m.host_path;
  destination = some m.container_path;
  options = if m.read_only then codes "ro" ∷ [] else [];
}

abbrev pub volume_of : VolumeMount → NamedVolume
volume_of v = record {
  name = v.name;
  dest = v.container_path;
  options = if v.read_only then codes "ro" ∷ codes "U" ∷ [] else codes "U" ∷ [];
}

-- Where the entries of the request come from.
bind-mounts :
    (ms : List MountConfig)
    → podman_mounts (map (λ m. bind m.host_path m.container_path m.read_only) ms) ≡ map bind_of ms
unfolding podman_mounts place_mount to_ascii_lowercase text_eq
bind-mounts [] = refl
bind-mounts (m ∷ ms) = ap (λ t. bind_of m ∷ t) (bind-mounts ms)

bind-volumes :
    (ms : List MountConfig)
    → podman_volumes (map (λ m. bind m.host_path m.container_path m.read_only) ms) ≡ []
unfolding podman_volumes place_mount to_ascii_lowercase text_eq
bind-volumes [] = refl
bind-volumes (m ∷ ms) = bind-volumes ms

named : (name : Text) → is_empty (trim name) ≡ false → is_empty name ≡ false
unfolding trim
named [] h = h
named (c ∷ name) h = refl

volume-mounts :
    (ensure : Text → Bool) (vs : List VolumeMount)
    → All (IsVolume ensure) vs
    → podman_mounts (map (λ v. volume_mount v.name v.container_path v.read_only) vs) ≡ []
unfolding podman_mounts place_mount to_ascii_lowercase text_eq
volume-mounts ensure [] h = refl
volume-mounts ensure (v ∷ vs) h = rw (named v.name h.0.0) (volume-mounts ensure vs h.1)

volume-volumes :
    (ensure : Text → Bool) (vs : List VolumeMount)
    → All (IsVolume ensure) vs
    → podman_volumes (map (λ v. volume_mount v.name v.container_path v.read_only) vs)
      ≡ map volume_of vs
unfolding podman_volumes place_mount to_ascii_lowercase text_eq
volume-volumes ensure [] h = refl
volume-volumes ensure (v ∷ vs) h =
    rw (named v.name h.0.0) (ap (λ t. volume_of v ∷ t) (volume-volumes ensure vs h.1))

when-volumes :
    (b : Bool) (dest : Text) (options : List Text)
    → podman_volumes (when b (tmpfs_mount dest options)) ≡ []
unfolding podman_volumes place_mount to_ascii_lowercase text_eq
when-volumes true dest options = refl
when-volumes false dest options = refl

runtime-volumes : (config : ContainerConfig) → podman_volumes (runtime_tmpfs config) ≡ []
unfolding runtime_tmpfs podman_volumes
runtime-volumes config =
    elim (Bool-cases (is_bypass config.params.gui_x11 || is_bypass config.params.gui_wayland)) [
      | inr e ↦ rw e refl
      | inl e ↦
          rw e
            (elim (find_map (strip_prefix (codes "XDG_RUNTIME_DIR=")) config.env)
              as (λ o.
                podman_volumes (elim o [
                  | some xdg ↦ when (starts_with (codes "/run/user/") xdg) (
                      tmpfs_mount xdg
                        (codes "rw" ∷ codes "nosuid" ∷ codes "nodev" ∷ codes "mode=0700" ∷ []))
                  | none ↦ []
                ])
                ≡ []) [
                  | none ↦ refl
                  | some xdg ↦ when-volumes (starts_with (codes "/run/user/") xdg) xdg _
                ])
    ]

pub tmpfs-volumes : (config : ContainerConfig) → podman_volumes (tmpfs_mounts config) ≡ []
unfolding tmpfs_mounts
tmpfs-volumes config =
    podman_volumes-append (when config.params.tmpfs_tmp _) _
    ∙ rw
        (
          when-volumes config.params.tmpfs_tmp,
          podman_volumes-append (when config.params.tmpfs_run _) (runtime_tmpfs config),
          when-volumes config.params.tmpfs_run,
          runtime-volumes config,
        )
        refl

abbrev pub engine_binds : ContainerBins → Text → List MountConfig
engine_binds bins dir =
    record { host_path = bins.server; container_path = server_target; read_only = true }
    ∷ record { host_path = bins.dock; container_path = dock_target; read_only = true }
    ∷ record { host_path = dir; container_path = codes "/run/easytidy"; read_only = false }
    ∷ elim bins.ets [
      | some ets ↦ record { host_path = ets; container_path = ets_target; read_only = true } ∷ []
      | none ↦ []
    ]

-- The entries of the engine are those of its binds.
pub engine-binds :
    (bins : ContainerBins) (dir : Text)
    → engine_mounts bins dir
      ≡ map (λ m. bind m.host_path m.container_path m.read_only) (engine_binds bins dir)
engine-binds bins dir =
    elim bins.ets
      as (λ o.
        bind bins.server server_target true
          ∷ bind bins.dock dock_target true
          ∷ bind dir (codes "/run/easytidy") false
          ∷ elim o [ some ets ↦ bind ets ets_target true ∷ [] | none ↦ [] ]
        ≡ map (λ (m : MountConfig). bind m.host_path m.container_path m.read_only)
            (record { host_path = bins.server; container_path = server_target; read_only = true }
              ∷ record { host_path = bins.dock; container_path = dock_target; read_only = true }
              ∷ record {
                host_path = dir;
                container_path = codes "/run/easytidy";
                read_only = false;
              }
              ∷ elim o [
                | some ets ↦
                    record { host_path = ets; container_path = ets_target; read_only = true } ∷ []
                | none ↦ []
              ])) [ some ets ↦ refl | none ↦ refl ]

abbrev entry_of : MountConfig → MountEntry
entry_of m = bind m.host_path m.container_path m.read_only

entries-append : (a b : List MountConfig) → map entry_of (a ++ b) ≡ map entry_of a ++ map entry_of b
entries-append [] b = refl
entries-append (m ∷ a) b = ap (λ t. entry_of m ∷ t) (entries-append a b)

-- The binds of the engine and of the user behind the folders and the volumes.
module _ (tmpfs es : List MountEntry) (ensure : Text → Bool) (vs : List VolumeMount)
    (eb ms : List MountConfig) (h : All (IsVolume ensure) vs) (q : es ≡ map entry_of eb) where
  abbrev volumes : List MountEntry
  volumes = map (λ v. volume_mount v.name v.container_path v.read_only) vs

  pub all-mounts :
      podman_mounts (tmpfs ++ (volumes ++ (es ++ map entry_of ms)))
      ≡ podman_mounts tmpfs ++ map bind_of (eb ++ ms)
  all-mounts =
      podman_mounts-append tmpfs _
      ∙ ap (λ t. podman_mounts tmpfs ++ t)
          (podman_mounts-append volumes _
            ∙ rw (volume-mounts ensure vs h, q, sym (entries-append eb ms))
                (bind-mounts (eb ++ ms)))

  pub all-volumes :
      podman_volumes tmpfs ≡ []
      → podman_volumes (tmpfs ++ (volumes ++ (es ++ map entry_of ms))) ≡ map volume_of vs
  all-volumes e =
      podman_volumes-append tmpfs _
      ∙ rw e (
          podman_volumes-append volumes _
          ∙ rw (q, sym (entries-append eb ms), bind-volumes (eb ++ ms), append-nil)
              (volume-volumes ensure vs h))

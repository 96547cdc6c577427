-- ===== src/Podman/Create/Request.antt =====
-- The request for a container that can be created.
use easytidy.Prelude.{
  ℕ, Bool, true, not, ◌&&◌, ◌||◌, none, some, List, ◌∷◌, ◌++◌, map, ◌≡◌, refl, arith, if◌then◌else◌,
}
use easytidy.Lists.{All}
use easytidy.Text.{Text, codes, decimal}
use easytidy.PathVars.{MountConfig}
use easytidy.Config.{ContainerConfig}
use easytidy.Podman.Mounts.{validate_mount}
use easytidy.Podman.Body.{MountEntry, CreateBody, podman_mounts, keep_id_create_body, no_maps}
use easytidy.Podman.Create.{
  ok, Answers, ContainerBins, bind, volume_mount, tmpfs_mounts, engine_mounts,
  resolve_container_user, create_args, create_inner,
}
use easytidy.Podman.Create.Accepted.{
  IsVolume, IsPortPair, binds-ok, volumes-ok, ensured, is_ready, found, image-ok, bind_network-ok,
  amd-ok, nvidia-ok,
}
use easytidy.Podman.Create.Entries.{
  bind_of, volume_of, tmpfs-volumes, engine_binds, engine-binds, all-mounts, all-volumes,
}

-- The image is there, the volumes have a name and a place and can be made, the user is known, the
-- mounts expand to folders that exist, the ports are not zero, and a processor that is asked for is
-- ready.
pub record IsCreatable (answers : Answers) (config : ContainerConfig) (rebuild : Bool)
    (user : ℕ × ℕ) (expanded : List MountConfig) : Type 0 where
  pub image : (rebuild || answers.image_exists) ≡ true
  pub volumes : All (IsVolume answers.volume_ensure) config.params.volumes
  pub user_known : resolve_container_user config.params answers.user ≡ some user
  pub expands : answers.expand user.0 user.1 ≡ some expanded
  pub binds : All (λ m. validate_mount answers.exists m ≡ none) expanded
  pub ports : All IsPortPair config.params.network.ports
  pub amd : (not config.params.gpu_amd || found answers.amd_gpu) ≡ true
  pub nvidia : (not config.params.gpu_nvidia || is_ready answers.nvidia_gpu) ≡ true

userns-is :
    (keep u g : Bool)
    → (if not (u && g) then none else if keep then some (codes "keep-id") else none)
      ≡ (if keep && (u && g) then some (codes "keep-id") else none)
userns-is keep u g = ground arith

-- The request that is made, and what it asks for.
abbrev pub Requested :
    Answers
    → Text
    → Text
    → Text
    → ContainerBins
    → ContainerConfig
    → Bool
    → ℕ × ℕ
    → List MountConfig
    → Type 0
Requested answers name container_name image bins config rebuild user expanded =
    (body : CreateBody) × (create_inner answers name container_name image bins config rebuild
      ≡ ok body)
    × (body.mounts
        ≡ podman_mounts (tmpfs_mounts config)
          ++ map bind_of (engine_binds bins answers.socket_host_dir ++ expanded))
    × (body.volumes ≡ map volume_of config.params.volumes)
    × (body.user ≡ decimal user.0 ++ (b':' ∷ decimal user.1))
    × (body.userns ≡ (
        if config.params.keep_id && (no_maps config.params.uidmaps && no_maps config.params.gidmaps)
        then some (codes "keep-id")
        else none))

-- A container of which the image, the volumes, the user, the mounts, the ports and the graphics
-- processors are as they have to be is requested: its mounts are the tmpfs folders, the binds of the
-- engine and those of the user, in this order and with the options of a mount that is only read
-- where it is one, its volumes are those of the configuration, which belong to the container's user
-- by the option U, its user is the known one by its numbers, and it has the user namespace keep-id
-- if and only if the configuration keeps the ids and maps none explicitly.
pub create_inner-request :
    (answers : Answers) (name container_name image : Text) (bins : ContainerBins)
    (config : ContainerConfig) (rebuild : Bool) (user : ℕ × ℕ) (expanded : List MountConfig)
    → IsCreatable answers config rebuild user expanded
    → Requested answers name container_name image bins config rebuild user expanded
unfolding create_inner keep_id_create_body
create_inner-request answers name container_name image bins config rebuild user expanded c =
    let net = bind_network-ok config.params.network.mode config.params.network.ports c.ports in
    let amd = amd-ok config.params answers.amd_gpu c.amd in
    let volumes : List MountEntry =
      map (λ v. volume_mount v.name v.container_path v.read_only) config.params.volumes in
    let binds : List MountEntry =
      map (λ m. bind m.host_path m.container_path m.read_only) expanded in
    (
      keep_id_create_body (
          create_args answers name container_name image bins config user volumes binds net.0 amd.0),
      rw
          (
            image-ok rebuild answers.image_exists c.image,
            volumes-ok answers.volume_ensure config.params.volumes c.volumes,
            c.user_known,
            ensured answers.volume_ensure config.params.volumes c.volumes,
            c.expands,
            binds-ok answers.exists expanded c.binds,
            net.1,
            amd.1,
            nvidia-ok config.params answers.nvidia_gpu c.nvidia,
          )
          refl,
      all-mounts (tmpfs_mounts config) (engine_mounts bins answers.socket_host_dir)
          answers.volume_ensure config.params.volumes (engine_binds bins answers.socket_host_dir)
          expanded c.volumes (engine-binds bins answers.socket_host_dir),
      all-volumes (tmpfs_mounts config) (engine_mounts bins answers.socket_host_dir)
          answers.volume_ensure config.params.volumes (engine_binds bins answers.socket_host_dir)
          expanded c.volumes (engine-binds bins answers.socket_host_dir) (tmpfs-volumes config),
      refl,
      userns-is config.params.keep_id (no_maps config.params.uidmaps)
          (no_maps config.params.gidmaps),
    )

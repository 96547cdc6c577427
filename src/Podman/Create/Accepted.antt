-- ===== src/Podman/Create/Accepted.antt =====
-- What the checks of `create_inner` accept.
use easytidy.Prelude.{
  ◌==◌, Bool, true, false, not, ◌||◌, Option, none, some, List, [], ◌∷◌, map, ◌≡◌, refl, arith,
  Bool-cases, inl, inr,
}
use easytidy.Lists.{All}
use easytidy.Text.{Text, codes, is_empty, starts_with}
use easytidy.Text.White.{trim}
use easytidy.PathVars.{MountConfig}
use easytidy.Config.{VolumeMount, PortMapping, NetworkMode, host, mapped, ContainerParams}
use easytidy.Podman.Mounts.{validate_mount}
use easytidy.Podman.Body.{insert}
use easytidy.Podman.Create.{
  ok, NvidiaGpuReadiness, ready, no_gpu, missing_cdi_spec, bind, volume_mount, volume_mounts,
  ensure_volumes, user_mounts, check_image, bind_ports, Bindings, binding, binding_key,
  bind_network, amd_devices, check_nvidia,
}

abbrev pub IsVolume : (Text → Bool) → VolumeMount → Type 0
IsVolume ensure v =
    (is_empty (trim v.name) ≡ false)
    × (starts_with (codes "/") v.container_path ≡ true)
    × (ensure (trim v.name) ≡ true)

abbrev pub IsPortPair : PortMapping → Type 0
IsPortPair p = (p.container_port == 0 || p.host_port == 0) ≡ false

pub binds-ok :
    (exists : Text → Bool) (ms : List MountConfig)
    → All (λ m. validate_mount exists m ≡ none) ms
    → user_mounts exists ms ≡ ok (map (λ m. bind m.host_path m.container_path m.read_only) ms)
unfolding user_mounts
binds-ok exists [] h = refl
binds-ok exists (m ∷ ms) h = rw (user_mounts, h.0, binds-ok exists ms h.1) refl

pub volumes-ok :
    (ensure : Text → Bool) (vs : List VolumeMount)
    → All (IsVolume ensure) vs
    → volume_mounts vs ≡ ok (map (λ v. volume_mount v.name v.container_path v.read_only) vs)
unfolding volume_mounts
volumes-ok ensure [] h = refl
volumes-ok ensure (v ∷ vs) h = rw (h.0.0, h.0.1, volumes-ok ensure vs h.1) refl

pub ensured :
    (ensure : Text → Bool) (vs : List VolumeMount)
    → All (IsVolume ensure) vs
    → ensure_volumes ensure vs ≡ ok tt
unfolding ensure_volumes
ensured ensure [] h = refl
ensured ensure (v ∷ vs) h = rw h.0.2 (ensured ensure vs h.1)

ports-ok :
    (m : Bindings) (ps : List PortMapping)
    → All IsPortPair ps
    → (n : Bindings) × (bind_ports m ps ≡ ok n)
unfolding bind_ports
ports-ok m [] h = (m, refl)
ports-ok m (p ∷ ps) h =
    let next : Bindings = insert (binding_key p) (binding p) m in
    let rest : (n : Bindings) × (bind_ports next ps ≡ ok n) = ports-ok next ps h.1 in
    (rest.0, rw h.0 rest.1)

abbrev pub is_ready : NvidiaGpuReadiness → Bool
is_ready ready = true
is_ready _ = false

abbrev pub found : List Text → Bool
found [] = false
found (d ∷ ds) = true

pub image-ok :
    (rebuild there : Bool) → (rebuild || there) ≡ true → check_image rebuild there ≡ ok tt
image-ok true there h = refl
image-ok false true h = refl
image-ok false false h = cc h

pub bind_network-ok :
    (mode : NetworkMode) (ports : List PortMapping)
    → All IsPortPair ports
    → (n : Option Text × Option Bindings) × (bind_network mode ports ≡ ok n)
unfolding bind_network
bind_network-ok host ports h = ((some (codes "host"), none), refl)
bind_network-ok mapped [] h = ((none, none), refl)
bind_network-ok mapped (p ∷ ps) h =
    let rest : (n : Bindings) × (bind_ports [] (p ∷ ps) ≡ ok n) = ports-ok [] (p ∷ ps) h in
    ((none, some rest.0), rw rest.1 refl)

pub amd-ok :
    (p : ContainerParams) (ds : List Text)
    → (not p.gpu_amd || found ds) ≡ true
    → (n : List Text) × (amd_devices p ds ≡ ok n)
unfolding amd_devices
amd-ok p [] h = ([], ground arith)
amd-ok p (d ∷ ds) h = elim (Bool-cases p.gpu_amd) [
  | inl e ↦ (d ∷ ds, rw e refl)
  | inr e ↦ ([], rw e refl)
]

pub nvidia-ok :
    (p : ContainerParams) (r : NvidiaGpuReadiness)
    → (not p.gpu_nvidia || is_ready r) ≡ true
    → check_nvidia p r ≡ ok tt
unfolding check_nvidia
nvidia-ok p ready h = refl
nvidia-ok p no_gpu h = ground arith
nvidia-ok p missing_cdi_spec h = ground arith

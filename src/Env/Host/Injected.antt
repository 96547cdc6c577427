-- ===== src/Env/Host/Injected.antt =====
-- What a container gets beside its own mounts and entries.
use easytidy.Prelude.{◌≡◌, refl, sym, ◌||◌, List, [], ◌++◌, Bool-cases, inl, inr, append-nil}
use easytidy.Lists.{All}
use easytidy.Text.{Text}
use easytidy.PathVars.{MountConfig}
use easytidy.Podman.Mounts.{Distinct}
use easytidy.Config.{ContainerConfig}
use easytidy.Config.Mode.{is_active}
use easytidy.Env.Gui.{Dict, Sources, start, apply, inject_rules}
use easytidy.Env.Gui.Targets.{HasPaths, inject_rules-Extends, start-Extends}
use easytidy.Env.Host.{with_gpu, inject_gui_passthrough, inject_passthrough}

with_gpu-params : (c : ContainerConfig) → (with_gpu c).params ≡ c.params
with_gpu-params c = elim (Bool-cases (c.params.gpu_nvidia || c.params.gpu_amd)) [
  | inl e ↦ rw e refl
  | inr e ↦ rw e refl
]

-- The mounts after an injection into `ms`.
abbrev pub Added : List MountConfig → List MountConfig → Type 0
Added ms ms' =
    Distinct ms' × ((extra : List MountConfig) × (ms' ≡ ms ++ extra) × All HasPaths extra)

-- Mounts with different targets stay in their places; what is injected stands behind them, has both
-- paths, and no target twice or of a mount that was there.
pub inject_passthrough-mounts :
    (s : Sources) (c : ContainerConfig)
    → Distinct c.params.mounts
    → Added c.params.mounts (inject_passthrough s c).params.mounts
unfolding inject_passthrough
inject_passthrough-mounts s c h =
    elim (Bool-cases (is_active c.params.gui_x11 || is_active c.params.gui_wayland)) [
      | inr e ↦ rw (e, with_gpu-params c) (h, ([], sym (append-nil c.params.mounts), tt))
      | inl e ↦
          let x =
            inject_rules-Extends s c.params.mounts c.params.gui_x11 c.params.gui_wayland _
              (start-Extends s c.params c.env h) in
          rw (e, with_gpu-params (inject_gui_passthrough s c))
            (unfold inject_gui_passthrough apply in
              (x.distinct, (x.extra, x.mounts_are, x.have_paths)))
    ]

-- The environment of the container itself, as the sections of the second rule leave it.
abbrev pub own_env : Sources → ContainerConfig → Dict
own_env s c = (inject_rules s c.params.gui_x11 c.params.gui_wayland (start c.params c.env)).cenv

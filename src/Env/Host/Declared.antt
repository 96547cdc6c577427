-- ===== src/Env/Host/Declared.antt =====
-- The user's own entries stay what they are.
use easytidy.Prelude.{
  ◌≡◌, refl, sym, ap, ◌∙◌, arith, Bool, true, false, ◌||◌, List, Bool-cases, inl, inr,
}
use easytidy.Lists.{any, any-retain_self, retain}
use easytidy.Text.{Text, Free, codes, text_eq}
use easytidy.Text.Split.{text_eq_iff}
use easytidy.Config.{ContainerConfig}
use easytidy.Config.Mode.{is_active}
use easytidy.Env.Gui.{Sources, env_keys, has, starts, start, apply, inject_rules}
use easytidy.Env.Gui.Keys.{env_keys-Free, has-Free, has-env_keys, push-other}
use easytidy.Env.Gui.Declared.{inject_rules-Kept, set_intents-declared}
use easytidy.Env.Host.{inject_gpu_passthrough, with_gpu, inject_gui_passthrough, inject_passthrough}

module _ (k : Text) (f : Free b'=' k) where
  has-kept :
      (env env' : List Text)
      → retain (starts k) env' ≡ retain (starts k) env
      → has (env_keys env) k ≡ true
      → has (env_keys env') k ≡ true
  has-kept env env' e h =
      has-env_keys k env' f
      ∙ sym (any-retain_self (starts k) env')
      ∙ ap (any (starts k)) e
      ∙ any-retain_self (starts k) env
      ∙ sym (has-env_keys k env f)
      ∙ h

  gpu-declared :
      (env : List Text) (nvidia amd : Bool)
      → has (env_keys env) k ≡ true
      → retain (starts k) (inject_gpu_passthrough env nvidia amd) ≡ retain (starts k) env
  unfolding inject_gpu_passthrough
  gpu-declared env false amd h = refl
  gpu-declared env true amd h =
      elim (Bool-cases (has (env_keys env) (codes "NVIDIA_DRIVER_CAPABILITIES"))) [
        | inl q ↦ rw q refl
        | inr q ↦ rw q (elim (Bool-cases (text_eq (codes "NVIDIA_DRIVER_CAPABILITIES") k)) [
          | inl e ↦ cc (h, q, (text_eq_iff (codes "NVIDIA_DRIVER_CAPABILITIES") k).0 e)
          | inr e ↦
              push-other k (codes "NVIDIA_DRIVER_CAPABILITIES") f (omega arith) e env (codes "all")
        ])
      ]

  with_gpu-declared :
      (c : ContainerConfig)
      → has (env_keys c.env) k ≡ true
      → retain (starts k) (with_gpu c).env ≡ retain (starts k) c.env
  with_gpu-declared c h = elim (Bool-cases (c.params.gpu_nvidia || c.params.gpu_amd)) [
    | inl e ↦ rw e (gpu-declared c.env c.params.gpu_nvidia c.params.gpu_amd h)
    | inr e ↦ rw e refl
  ]

  gui-declared :
      (s : Sources) (c : ContainerConfig)
      → has (env_keys c.env) k ≡ true
      → retain (starts k) (inject_gui_passthrough s c).env ≡ retain (starts k) c.env
  unfolding inject_gui_passthrough apply
  gui-declared s c h =
      set_intents-declared s k f c.env c.params.gui_x11 c.params.gui_wayland (env_keys c.env)
        (inject_rules s c.params.gui_x11 c.params.gui_wayland (start c.params c.env)).cenv _ h
      ∙ (inject_rules-Kept s k f c.env c.params.gui_x11 c.params.gui_wayland (start c.params c.env)
          (h, refl)).1

-- Whatever is injected, the entries of a key that the configuration's environment declares stay
-- the same, and no entry of the key is added.
pub inject_passthrough-declared :
    (s : Sources) (c : ContainerConfig) (k : Text)
    → has (env_keys c.env) k ≡ true
    → retain (starts k) (inject_passthrough s c).env ≡ retain (starts k) c.env
unfolding inject_passthrough
inject_passthrough-declared s c k h =
    let f = has-Free (env_keys c.env) k (env_keys-Free c.env) h in
    elim (Bool-cases (is_active c.params.gui_x11 || is_active c.params.gui_wayland)) [
      | inr e ↦ rw e (with_gpu-declared k f c h)
      | inl e ↦
          let kept = gui-declared k f s c h in
          rw e (
            with_gpu-declared k f (inject_gui_passthrough s c)
              (has-kept k f c.env (inject_gui_passthrough s c).env kept h)
            ∙ kept)
    ]

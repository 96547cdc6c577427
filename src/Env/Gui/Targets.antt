-- ===== src/Env/Gui/Targets.antt =====
-- The mounts that the injection adds.
use easytidy.Prelude.{
  ◌≡◌, refl, sym, ap, ◌∙◌, arith, false, not, ◌&&◌, ◌||◌, List, [], ◌∷◌, ◌++◌, Bool-cases, inl, inr,
  append_assoc, append-nil, map,
}
use easytidy.Lists.{All, All-append, any, any-append}
use easytidy.Text.{Text, codes, text_eq, is_empty, contains}
use easytidy.Text.Split.{text_eq_iff}
use easytidy.PathVars.{MountConfig}
use easytidy.Podman.Mounts.{targets, Distinct, Distinct-last}
use easytidy.Config.{ContainerParams}
use easytidy.Config.Mode.{GuiMode}
use easytidy.Env.Gui.{
  GuiPassthroughMount, Injection, View, Sources, has, push_env, inject_env, push_mount,
  inject_mount, inject_rules, start,
}
use easytidy.Env.Gui.Steps.{inject_rules-keeps}

-- A mount with both paths.
abbrev pub HasPaths : MountConfig → Type 0
HasPaths m = (is_empty m.host_path ≡ false) × (is_empty m.container_path ≡ false)

text_eq_sym : (a b : Text) → text_eq a b ≡ text_eq b a
text_eq_sym a b = ground (arith, text_eq_iff a b, text_eq_iff b a)

module _ (s : Sources) (mounts : List MountConfig) where
  -- The mounts are those at the start and others behind them, and the targets are theirs.
  pub record Extends (st : Injection) : Type 0 where
    pub extra : List MountConfig
    pub mounts_are : st.mounts ≡ mounts ++ extra
    pub have_paths : All HasPaths extra
    pub distinct : Distinct st.mounts
    pub targets_are : (t : Text) → has st.targets t ≡ any (targets t) st.mounts

  module _ (st : Injection) (h : Extends st) (m : MountConfig) (p : HasPaths m)
      (n : has st.targets m.container_path ≡ false) where
    push-Extends :
        Extends
          (record st { mounts = st.mounts ++ (m ∷ []); targets = m.container_path ∷ st.targets })
    unfolding any
    push-Extends = record {
      extra = h.extra ++ (m ∷ []);
      mounts_are = ap (λ ms. ms ++ (m ∷ [])) h.mounts_are ∙ append_assoc mounts h.extra (m ∷ []);
      have_paths = All-append HasPaths h.extra (m ∷ []) h.have_paths (p, tt);
      distinct = Distinct-last st.mounts m h.distinct (sym (h.targets_are m.container_path) ∙ n);
      targets_are = λ t. ground (
        arith,
        h.targets_are t,
        any-append (targets t) st.mounts (m ∷ []),
        text_eq_sym t m.container_path,
      );
    }

  push_mount-Extends :
      (m : GuiPassthroughMount) (host target : Text) (st : Injection)
      → Extends st
      → Extends (push_mount s.exists m host target st)
  unfolding push_mount
  push_mount-Extends m [] target st h = h
  push_mount-Extends m (c ∷ host) [] st h = h
  push_mount-Extends m (c ∷ host) (d ∷ target) st h =
      elim (Bool-cases
        ((m.require_exists && not (s.exists (c ∷ host))) || has st.targets (d ∷ target))) [
          | inl e ↦ rw e h
          | inr e ↦ rw e (push-Extends st h _ (refl, refl) (ground (arith, e)))
        ]

  inject_mount-Extends :
      (v : View) (m : GuiPassthroughMount) (st : Injection)
      → Extends st
      → Extends (inject_mount v s.hv s.exists m st)
  unfolding inject_mount
  inject_mount-Extends v m st h =
      elim (Bool-cases
        (v.suppress_runtime_dir && contains (codes "XDG_RUNTIME_DIR") m.container_path)) [
          | inl e ↦ rw e h
          | inr e ↦ rw e (push_mount-Extends m _ _ st h)
        ]

  -- What adds no mount keeps it.
  same-Extends :
      (st st' : Injection)
      → st'.mounts ≡ st.mounts
      → st'.targets ≡ st.targets
      → Extends st
      → Extends st'
  same-Extends st st' e f h = record {
    extra = h.extra;
    mounts_are = e ∙ h.mounts_are;
    have_paths = h.have_paths;
    distinct = rw e h.distinct;
    targets_are = λ t. rw (e, f) (h.targets_are t);
  }

  inject_env-Extends :
      (v : View) (e : Text) (st : Injection) → Extends st → Extends (inject_env v s.hv e st)
  unfolding inject_env push_env
  inject_env-Extends v e st h = same-Extends st _ (ground arith) (ground arith) h

  pub inject_rules-Extends :
      (x11 wayland : GuiMode) (st : Injection)
      → Extends st
      → Extends (inject_rules s x11 wayland st)
  inject_rules-Extends =
      inject_rules-keeps s Extends inject_env-Extends inject_mount-Extends
        (λ st h. same-Extends st _ refl refl h)

paths_are :
    (ms : List MountConfig) (t : Text)
    → has (map (λ (m : MountConfig). m.container_path) ms) t ≡ any (targets t) ms
unfolding any
paths_are [] t = refl
paths_are (m ∷ ms) t = rw (text_eq_sym t m.container_path, paths_are ms t) refl

pub start-Extends :
    (s : Sources) (params : ContainerParams) (env : List Text)
    → Distinct params.mounts
    → Extends s params.mounts (start params env)
start-Extends s params env h = record {
  extra = [];
  mounts_are = sym (append-nil params.mounts);
  have_paths = tt;
  distinct = h;
  targets_are = paths_are params.mounts;
}

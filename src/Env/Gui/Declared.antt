-- ===== src/Env/Gui/Declared.antt =====
-- The injection leaves what the configuration declares.
use easytidy.Prelude.{
  ◌≡◌, refl, ◌∙◌, arith, Bool, true, false, Option, none, some, List, [], ◌∷◌, Bool-cases, inl, inr,
  if◌then◌else◌,
}
use easytidy.Lists.{any, retain}
use easytidy.Text.{Text, Free, codes, text_eq, split_once}
use easytidy.Text.Split.{text_eq_iff}
use easytidy.Config.Mode.{GuiMode}
use easytidy.Env.Gui.{
  GuiPassthroughMount, Dict, Injection, View, Sources, has, starts, skips_key, dict_of, push_env,
  inject_env, push_mount, inject_mount, expand_host_vars, inject_rules, set_env, set_intents,
}
use easytidy.Env.Gui.Steps.{inject_rules-keeps}
use easytidy.Env.Gui.Keys.{split_once-key, push-other, set_env-other}

module _ (s : Sources) (k : Text) (f : Free b'=' k) (env : List Text) where
  -- The key is taken, and what stands under it is what stood in `env`.
  abbrev pub Kept : Injection → Type 0
  Kept st = (has st.keys k ≡ true) × (retain (starts k) st.env ≡ retain (starts k) env)

  -- A key that is not taken is another key.
  fresh_other :
      (keys : List Text) (key : Text)
      → has keys k ≡ true
      → has keys key ≡ false
      → text_eq key k ≡ false
  fresh_other keys key h n = elim (Bool-cases (text_eq key k)) [
    | inl e ↦ cc (h, n, (text_eq_iff key k).0 e)
    | inr e ↦ e
  ]

  push_env-Kept :
      (v : View) (key x : Text) (st : Injection)
      → Free b'=' key
      → has st.keys key ≡ false
      → Kept st
      → Kept (push_env v key x st)
  unfolding push_env any
  push_env-Kept v key [] st g n h = h
  push_env-Kept v key (c ∷ x) st g n h =
      let other = fresh_other st.keys key h.0 n in
      (ground (arith, h.0), push-other k key f g other st.env (c ∷ x) ∙ h.1)

  inject_env-Kept : (v : View) (e : Text) (st : Injection) → Kept st → Kept (inject_env v s.hv e st)
  unfolding inject_env
  inject_env-Kept v e st h = split (split_once b'=' e) refl
    where
      chosen :
          (key value : Text) (b : Bool)
          → skips_key v st.keys key ≡ b
          → Free b'=' key
          → Kept (
              if b then st else push_env v key (expand_host_vars value (dict_of v s.hv st.cenv)) st)
      chosen key value true q g = h
      chosen key value false q g = push_env-Kept v key _ st g (ground (arith, q)) h

      split :
          (o : Option (Text × Text))
          → split_once b'=' e ≡ o
          → Kept (elim o [
            | none ↦ st
            | some (key, value) ↦
                if skips_key v st.keys key
                then st
                else push_env v key (expand_host_vars value (dict_of v s.hv st.cenv)) st
          ])
      split none q = h
      split (some (key, value)) q =
          chosen key value (skips_key v st.keys key) refl (split_once-key b'=' e q)

  inject_mount-Kept :
      (v : View) (m : GuiPassthroughMount) (st : Injection)
      → Kept st
      → Kept (inject_mount v s.hv s.exists m st)
  unfolding inject_mount push_mount
  inject_mount-Kept v m st h = ground (arith, h)

  pub inject_rules-Kept :
      (x11 wayland : GuiMode) (st : Injection) → Kept st → Kept (inject_rules s x11 wayland st)
  inject_rules-Kept = inject_rules-keeps s Kept inject_env-Kept inject_mount-Kept (λ st h. h)

  -- A variable that is set is another one, or declared.
  pub set_env-declared :
      (declared : List Text) (key v : Text) (e : List Text)
      → Free b'=' key
      → has declared k ≡ true
      → retain (starts k) (set_env declared key v e) ≡ retain (starts k) e
  set_env-declared declared key v e g h = elim (Bool-cases (text_eq key k)) [
    | inr n ↦ set_env-other k key f g n declared v e
    | inl q ↦
        let is : has declared key ≡ true = cc (h, (text_eq_iff key k).0 q) in
        unfold set_env in rw is refl
  ]

  pub set_intents-declared :
      (x11 wayland : GuiMode) (declared : List Text) (cenv : Dict) (e : List Text)
      → has declared k ≡ true
      → retain (starts k) (set_intents s x11 wayland declared cenv e) ≡ retain (starts k) e
  unfolding set_intents
  set_intents-declared x11 wayland declared cenv e h =
      set_env-declared declared (codes "WAYLAND_DISPLAY") _ _ (omega arith) h
      ∙ set_env-declared declared (codes "HOST_XAUTHORITY") _ _ (omega arith) h
      ∙ set_env-declared declared (codes "XAUTHORITY") _ _ (omega arith) h
      ∙ set_env-declared declared (codes "DISPLAY") _ _ (omega arith) h

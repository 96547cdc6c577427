-- ===== src/Env/Gui/Intent.antt =====
-- The variables that follow the modes of the two halves.
use easytidy.Prelude.{
  ◌≡◌, refl, ap, ◌∙◌, arith, Bool, Option, none, some, false, not, List, [], ◌∷◌, ◌++◌, Bool-cases,
  inl, inr,
}
use easytidy.Lists.{find_map, retain, retain-append}
use easytidy.Text.{Text, Free, codes, text_eq, strip_prefix}
use easytidy.Text.Split.{text_eq_refl}
use easytidy.Config.Mode.{GuiMode, direct, bypass}
use easytidy.Env.Gui.{
  Dict, Sources, GuiPassthroughSection, text_or, unless_empty, expand_host_vars, section_env_value,
  merged_dict, has, starts, set_env, set_intents, display_of, xauthority_of, host_xauthority_of,
  wayland_display_of,
}
use easytidy.Env.Gui.Keys.{starts-entry, set_env-other}

retain-not : (p : Text → Bool) (xs : List Text) → retain p (retain (λ e. not (p e)) xs) ≡ []
unfolding retain
retain-not p [] = refl
retain-not p (x ∷ xs) = elim (Bool-cases (p x)) [
  | inl e ↦ rw e (retain-not p xs)
  | inr e ↦ rw (e, e) (retain-not p xs)
]

-- The one entry of a key.
abbrev pub entry : Text → Text → List Text
entry key v = (key ++ (b'=' ∷ v)) ∷ []

set_env-sets :
    (declared : List Text) (key v : Text) (env : List Text)
    → Free b'=' key
    → has declared key ≡ false
    → retain (starts key) (set_env declared key v env) ≡ entry key v
unfolding set_env retain
set_env-sets declared key v env f n = rw n (
    retain-append (starts key) (retain (λ e. not (starts key e)) env) (entry key v)
    ∙ rw (retain-not (starts key) env, starts-entry key key v f f, text_eq_refl key) refl)

-- The four variables.
abbrev pub display : Text
display = codes "DISPLAY"

abbrev pub xauthority : Text
xauthority = codes "XAUTHORITY"

abbrev pub host_xauthority : Text
host_xauthority = codes "HOST_XAUTHORITY"

abbrev pub wayland_display : Text
wayland_display = codes "WAYLAND_DISPLAY"

-- None of the variables is declared.
pub record Undeclared (declared : List Text) : Type 0 where
  pub no_display : has declared display ≡ false
  pub no_xauthority : has declared xauthority ≡ false
  pub no_host_xauthority : has declared host_xauthority ≡ false
  pub no_wayland_display : has declared wayland_display ≡ false

-- Of the host, of the container, or nothing, by the mode.
abbrev pub by_mode : GuiMode → Text → Text → Text
by_mode direct host own = host
by_mode bypass host own = own
by_mode GuiMode.none host own = []

-- The value of the first line of a section for a key.
abbrev pub line_of : GuiPassthroughSection → Text → Option Text
line_of section key = find_map (strip_prefix (key ++ (b'=' ∷ []))) section.env

abbrev pub expanded : Option Text → Dict → Text
expanded none vars = []
expanded (some t) vars = expand_host_vars t vars

-- The place in the container of the cookie of the host.
abbrev pub cookie : Text
cookie = codes "/run/easytidy/xauthority"

-- What the environment has of the variables: DISPLAY and WAYLAND_DISPLAY of the host's process or of
-- the section of the container's own server, XAUTHORITY the place of the host's cookie or the
-- section's, and HOST_XAUTHORITY, for an own server only, the section's or the place.
abbrev pub Shows : Sources → Dict → GuiMode → GuiMode → List Text → Type 0
Shows s cenv x11 wayland env =
    let own = s.bypass_rule.x11 in
    let vars = merged_dict s.hv cenv in
    (retain (starts display) env
      ≡ entry display (by_mode x11 (text_or (s.hv display) []) (text_or (line_of own display) [])))
    × (retain (starts xauthority) env
        ≡ entry xauthority (by_mode x11 cookie (expanded (line_of own xauthority) vars)))
    × (retain (starts host_xauthority) env
        ≡ entry host_xauthority
            (by_mode x11 [] (unless_empty (expanded (line_of own host_xauthority) vars) cookie)))
    × (retain (starts wayland_display) env
        ≡ entry wayland_display (
            by_mode wayland (text_or (s.hv wayland_display) [])
              (text_or (line_of s.bypass_rule.wayland wayland_display) (codes "wayland-0"))))

module _ (s : Sources) (vars : Dict) where
  display_is :
      (mode : GuiMode)
      → display_of s mode
        ≡ by_mode mode (text_or (s.hv display) []) (text_or (line_of s.bypass_rule.x11 display) [])
  unfolding display_of section_env_value
  display_is direct = refl
  display_is bypass = refl
  display_is GuiMode.none = refl

  xauthority_is :
      (mode : GuiMode)
      → xauthority_of s vars mode
        ≡ by_mode mode cookie (expanded (line_of s.bypass_rule.x11 xauthority) vars)
  unfolding xauthority_of section_env_value
  xauthority_is direct = refl
  xauthority_is bypass =
      elim (line_of s.bypass_rule.x11 xauthority)
        as (λ o.
          elim o as (λ x. Text) [ none ↦ [] | some v ↦ expand_host_vars v vars ]
          ≡ expanded o vars) [ none ↦ refl | some t ↦ refl ]
  xauthority_is GuiMode.none = refl

  host_xauthority_is :
      (mode : GuiMode)
      → host_xauthority_of s vars mode
        ≡ by_mode mode []
            (unless_empty (expanded (line_of s.bypass_rule.x11 host_xauthority) vars) cookie)
  unfolding host_xauthority_of section_env_value
  host_xauthority_is direct = refl
  host_xauthority_is bypass =
      elim (line_of s.bypass_rule.x11 host_xauthority)
        as (λ o.
          elim o as (λ x. Text) [
            | none ↦ cookie
            | some v ↦ unless_empty (expand_host_vars v vars) cookie
          ]
          ≡ unless_empty (expanded o vars) cookie) [ none ↦ refl | some t ↦ refl ]
  host_xauthority_is GuiMode.none = refl

  wayland_display_is :
      (mode : GuiMode)
      → wayland_display_of s mode
        ≡ by_mode mode
            (text_or (s.hv wayland_display) [])
            (text_or (line_of s.bypass_rule.wayland wayland_display) (codes "wayland-0"))
  unfolding wayland_display_of section_env_value
  wayland_display_is direct = refl
  wayland_display_is bypass = refl
  wayland_display_is GuiMode.none = refl

module _ (s : Sources) (x11 wayland : GuiMode) (declared : List Text)
    (u : Undeclared declared) where
  other :
      (k key v : Text) (env : List Text)
      → Free b'=' k
      → Free b'=' key
      → text_eq key k ≡ false
      → retain (starts k) (set_env declared key v env) ≡ retain (starts k) env
  other k key v env f g n = set_env-other k key f g n declared v env

  pub set_intents-Shows :
      (cenv : Dict) (env : List Text)
      → Shows s cenv x11 wayland (set_intents s x11 wayland declared cenv env)
  unfolding set_intents text_eq
  set_intents-Shows cenv env = (
    other display wayland_display _ _ (omega arith) (omega arith) refl
        ∙ other display host_xauthority _ _ (omega arith) (omega arith) refl
        ∙ other display xauthority _ _ (omega arith) (omega arith) refl
        ∙ set_env-sets declared display _ env (omega arith) u.no_display
        ∙ ap (entry display) (display_is s (merged_dict s.hv cenv) x11),
    other xauthority wayland_display _ _ (omega arith) (omega arith) refl
        ∙ other xauthority host_xauthority _ _ (omega arith) (omega arith) refl
        ∙ set_env-sets declared xauthority _ _ (omega arith) u.no_xauthority
        ∙ ap (entry xauthority) (xauthority_is s (merged_dict s.hv cenv) x11),
    other host_xauthority wayland_display _ _ (omega arith) (omega arith) refl
        ∙ set_env-sets declared host_xauthority _ _ (omega arith) u.no_host_xauthority
        ∙ ap (entry host_xauthority) (host_xauthority_is s (merged_dict s.hv cenv) x11),
    set_env-sets declared wayland_display _ _ (omega arith) u.no_wayland_display
        ∙ ap (entry wayland_display) (wayland_display_is s (merged_dict s.hv cenv) wayland),
  )

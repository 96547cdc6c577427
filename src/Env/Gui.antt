-- ===== src/Env/Gui.antt =====
-- crates/core/src/env/gui.rs: the display of the host, or of the container itself, in the environment and
-- the mounts. The two rules that are loaded from YAML files, the variables of the host's process and the
-- paths that there are on the host are arguments. A hash map is a function, a hash set a list.
pub mod Steps
pub mod Keys
pub mod Declared
pub mod Targets
pub mod Intent
use easytidy.Prelude.{
  ℕ, zero, suc, ◌+◌, ◌==◌, Bool, true, false, not, ◌&&◌, ◌||◌, Option, none, some, List, [], ◌∷◌,
  ◌++◌, if◌then◌else◌, map,
}
use easytidy.Lists.{any, retain, find_map, length}
use easytidy.Text.{
  Text, codes, text_eq, is_empty, strip_prefix, starts_with, contains, split_once, decimal,
}
use easytidy.PathVars.{MountConfig}
use easytidy.Config.{ContainerParams}
use easytidy.Config.Mode.{GuiMode, direct, bypass, is_direct, is_bypass}

pub record GuiPassthroughMount : Type 0 where
  pub host_path : Text
  pub container_path : Text
  pub read_only : Bool
  pub require_exists : Bool

pub record GuiPassthroughSection : Type 0 where
  pub env : List Text
  pub mounts : List GuiPassthroughMount
  pub keep_id : Bool

pub record GuiPassthroughRule : Type 0 where
  pub shared : GuiPassthroughSection
  pub x11 : GuiPassthroughSection
  pub wayland : GuiPassthroughSection

abbrev pub xauthority_stable_path : Text
xauthority_stable_path = codes "/run/easytidy/xauthority"

abbrev pub Dict : Type 0
Dict = Text → Option Text

abbrev pub no_entries : Dict
no_entries k = none

abbrev pub insert : Text → Text → Dict → Dict
insert key value d k = if text_eq key k then some value else d k

abbrev pub text_or : Option Text → Text → Text
text_or none d = d
text_or (some t) d = t

-- `merged_dict`
abbrev pub merged_dict : Dict → Dict → Dict
merged_dict hv cenv k = elim (cenv k) [ some v ↦ some v | none ↦ hv k ]

-- `std::env::var(key).unwrap_or_default()` of the host's process.
abbrev pub host_keys : List Text
host_keys =
    codes "HOME"
    ∷ codes "USER"
    ∷ codes "UID"
    ∷ codes "GID"
    ∷ codes "DISPLAY"
    ∷ codes "WAYLAND_DISPLAY"
    ∷ codes "XDG_RUNTIME_DIR"
    ∷ []

abbrev pub unless_empty : Text → Text → Text
unless_empty [] d = d
unless_empty (c ∷ cs) d = c ∷ cs

unfoldable pub host_vars : Dict → ℕ → ℕ → Dict
unfolding any text_eq
host_vars var uid gid k =
    if any (text_eq k) host_keys
    then some (
        if text_eq k (codes "UID")
        then unless_empty (text_or (var k) []) (decimal uid)
        else if text_eq k (codes "GID")
        then unless_empty (text_or (var k) []) (decimal gid)
        else text_or (var k) [])
    else none

-- `${VAR}` at the front of a text: the variable, if it is closed.
abbrev pub closing : Text → Option Text
closing body = elim (split_once b'}' body) [ none ↦ none | some (var, after) ↦ some var ]

-- The loop of `expand_host_vars`; `skip` characters are left of a variable that was replaced.
unfoldable pub expand_from : Dict → ℕ → Text → Text
unfolding strip_prefix split_once
expand_from vars skip [] = []
expand_from vars (suc skip) (c ∷ rest) = expand_from vars skip rest
expand_from vars zero (c ∷ rest) = elim (strip_prefix (codes "${") (c ∷ rest)) [
  | none ↦ c ∷ expand_from vars zero rest
  | some body ↦ elim (closing body) [
    | none ↦ c ∷ rest
    | some var ↦ text_or (vars var) [] ++ expand_from vars (length var + 2) rest
  ]
]

unfoldable pub expand_host_vars : Text → Dict → Text
unfolding expand_from
expand_host_vars s vars = expand_from vars zero s

-- `KEY=`
abbrev pub prefix : Text → Text
prefix key = key ++ (b'=' ∷ [])

unfoldable pub section_env_value : GuiPassthroughSection → Text → Option Text
unfolding find_map strip_prefix
section_env_value section key = find_map (strip_prefix (prefix key)) section.env

-- `kv.split_once('=').map(|(k, _)| k)` of every entry that has an equals sign.
unfoldable pub env_keys : List Text → List Text
unfolding split_once
env_keys [] = []
env_keys (kv ∷ rest) = elim (split_once b'=' kv) [
  | none ↦ env_keys rest
  | some (k, v) ↦ k ∷ env_keys rest
]

abbrev pub has : List Text → Text → Bool
has keys key = any (text_eq key) keys

abbrev pub starts : Text → Text → Bool
starts key e = starts_with (prefix key) e

unfoldable pub set_env : List Text → Text → Text → List Text → List Text
unfolding any retain strip_prefix
set_env declared key value env =
    if has declared key
    then env
    else retain (λ e. not (starts key e)) env ++ ((key ++ (b'=' ∷ value)) ∷ [])

-- What the loops of `inject_section` change.
pub record Injection : Type 0 where
  pub mounts : List MountConfig
  pub keep_id : Bool
  pub env : List Text
  pub cenv : Dict
  pub targets : List Text
  pub keys : List Text

-- The view of a section, and whether what goes to the runtime folder is left out.
pub record View : Type 0 where
  pub bypass_view : Bool
  pub suppress_runtime_dir : Bool

abbrev pub dict_of : View → Dict → Dict → Dict
dict_of v hv cenv = if v.bypass_view then merged_dict hv cenv else hv

abbrev pub skips_key : View → List Text → Text → Bool
skips_key v keys key =
    text_eq key (codes "XAUTHORITY")
    || has keys key
    || (v.suppress_runtime_dir && text_eq key (codes "XDG_RUNTIME_DIR"))

unfoldable pub push_env : View → Text → Text → Injection → Injection
push_env v key expanded st = if is_empty expanded then st else record st {
  env = st.env ++ ((key ++ (b'=' ∷ expanded)) ∷ []);
  keys = key ∷ st.keys;
  cenv = if v.bypass_view then insert key expanded st.cenv else st.cenv;
}

unfoldable pub inject_env : View → Dict → Text → Injection → Injection
unfolding any text_eq split_once push_env expand_host_vars
inject_env v hv entry st = elim (split_once b'=' entry) [
  | none ↦ st
  | some (key, value) ↦
      if skips_key v st.keys key
      then st
      else push_env v key (expand_host_vars value (dict_of v hv st.cenv)) st
]

unfoldable pub push_mount :
    (Text → Bool) → GuiPassthroughMount → Text → Text → Injection → Injection
push_mount exists m host_path container_path st =
    if is_empty host_path
      || is_empty container_path
      || (m.require_exists && not (exists host_path))
      || has st.targets container_path
    then st
    else record st {
      mounts =
          st.mounts
          ++ (record {
            host_path = host_path;
            container_path = container_path;
            read_only = m.read_only;
          }
              ∷ []);
      targets = container_path ∷ st.targets;
    }

unfoldable pub inject_mount :
    View → Dict → (Text → Bool) → GuiPassthroughMount → Injection → Injection
unfolding contains push_mount expand_host_vars any text_eq
inject_mount v hv exists m st =
    if v.suppress_runtime_dir && contains (codes "XDG_RUNTIME_DIR") m.container_path
    then st
    else push_mount exists m (expand_host_vars m.host_path hv)
        (expand_host_vars m.container_path (dict_of v hv st.cenv)) st

unfoldable pub inject_envs : View → Dict → List Text → Injection → Injection
unfolding inject_env
inject_envs v hv [] st = st
inject_envs v hv (e ∷ es) st = inject_envs v hv es (inject_env v hv e st)

unfoldable pub inject_mounts :
    View → Dict → (Text → Bool) → List GuiPassthroughMount → Injection → Injection
unfolding inject_mount
inject_mounts v hv exists [] st = st
inject_mounts v hv exists (m ∷ ms) st = inject_mounts v hv exists ms (inject_mount v hv exists m st)

abbrev pub or_keep_id : Bool → Injection → Injection
or_keep_id on st = if on then record st { keep_id = true } else st

unfoldable pub inject_section :
    View → Dict → (Text → Bool) → GuiPassthroughSection → Injection → Injection
unfolding inject_envs inject_mounts
inject_section v hv exists section st =
    or_keep_id section.keep_id
      (inject_mounts v hv exists section.mounts (inject_envs v hv section.env st))

-- The sections of a rule: the shared one, and the halves that are switched on.
unfoldable pub inject_rule :
    View → Dict → (Text → Bool) → GuiPassthroughRule → Bool → Bool → Injection → Injection
unfolding inject_section
inject_rule v hv exists rule x11 wayland st =
    let shared = inject_section v hv exists rule.shared st in
    let with_x11 = if x11 then inject_section v hv exists rule.x11 shared else shared in
    if wayland then inject_section v hv exists rule.wayland with_x11 else with_x11

-- The rules and the host.
pub record Sources : Type 0 where
  pub rule : GuiPassthroughRule
  pub bypass_rule : GuiPassthroughRule
  pub hv : Dict
  pub exists : Text → Bool

-- Both rules, as far as a half is in their mode.
unfoldable pub inject_rules : Sources → GuiMode → GuiMode → Injection → Injection
unfolding inject_rule
inject_rules s x11 wayland st =
    let bypass_active = is_bypass x11 || is_bypass wayland in
    let first =
      if is_direct x11 || is_direct wayland
      then inject_rule (record { bypass_view = false; suppress_runtime_dir = bypass_active }) s.hv
          s.exists s.rule (is_direct x11) (is_direct wayland) st
      else st in
    if bypass_active
    then inject_rule (record { bypass_view = true; suppress_runtime_dir = false }) s.hv s.exists
        s.bypass_rule (is_bypass x11) (is_bypass wayland) first
    else first

-- The values of the four variables that follow the modes.
unfoldable pub display_of : Sources → GuiMode → Text
unfolding section_env_value
display_of s direct = text_or (s.hv (codes "DISPLAY")) []
display_of s bypass = text_or (section_env_value s.bypass_rule.x11 (codes "DISPLAY")) []
display_of s GuiMode.none = []

unfoldable pub xauthority_of : Sources → Dict → GuiMode → Text
unfolding section_env_value expand_host_vars
xauthority_of s merged direct = xauthority_stable_path
xauthority_of s merged bypass = elim (section_env_value s.bypass_rule.x11 (codes "XAUTHORITY")) [
  | none ↦ []
  | some v ↦ expand_host_vars v merged
]
xauthority_of s merged GuiMode.none = []

unfoldable pub host_xauthority_of : Sources → Dict → GuiMode → Text
unfolding section_env_value expand_host_vars
host_xauthority_of s merged bypass =
    elim (section_env_value s.bypass_rule.x11 (codes "HOST_XAUTHORITY")) [
      | none ↦ xauthority_stable_path
      | some v ↦ unless_empty (expand_host_vars v merged) xauthority_stable_path
    ]
host_xauthority_of s merged direct = []
host_xauthority_of s merged GuiMode.none = []

unfoldable pub wayland_display_of : Sources → GuiMode → Text
unfolding section_env_value
wayland_display_of s direct = text_or (s.hv (codes "WAYLAND_DISPLAY")) []
wayland_display_of s bypass =
    text_or (section_env_value s.bypass_rule.wayland (codes "WAYLAND_DISPLAY")) (codes "wayland-0")
wayland_display_of s GuiMode.none = []

unfoldable pub set_intents : Sources → GuiMode → GuiMode → List Text → Dict → List Text → List Text
unfolding set_env display_of xauthority_of host_xauthority_of wayland_display_of
set_intents s x11 wayland declared cenv env =
    let merged = merged_dict s.hv cenv in
    set_env declared (codes "WAYLAND_DISPLAY") (wayland_display_of s wayland) (
      set_env declared (codes "HOST_XAUTHORITY") (host_xauthority_of s merged x11) (
        set_env declared (codes "XAUTHORITY") (xauthority_of s merged x11)
          (set_env declared (codes "DISPLAY") (display_of s x11) env)))

abbrev pub start : ContainerParams → List Text → Injection
start params env = record {
  mounts = params.mounts;
  keep_id = params.keep_id;
  env = env;
  cenv = no_entries;
  targets = map (λ (m : MountConfig). m.container_path) params.mounts;
  keys = env_keys env;
}

unfoldable pub apply :
    Sources
    → ContainerParams
    → List Text
    → GuiMode
    → GuiMode
    → List Text
    → ContainerParams × List Text
unfolding inject_rules set_intents env_keys
apply s params env x11 wayland declared =
    let st = inject_rules s x11 wayland (start params env) in
    (
      record params { mounts = st.mounts; keep_id = st.keep_id },
      set_intents s x11 wayland declared st.cenv st.env,
    )

-- ===== src/PathVars.antt =====
-- crates/core/src/pathvars.rs: `${VAR}` in mount paths, expanded with the values of the host's or
-- of the container's side. The cache of image passwd texts is not modelled.
pub mod Expand
pub mod Templates
pub mod Probe
mod Tests
use easytidy.Prelude.{
  ℕ, zero, suc, ◌+◌, Bool, true, false, not, ◌&&◌, ◌||◌, Option, none, some, List, [], ◌∷◌, ◌++◌,
  ◌==◌, if◌then◌else◌,
}
use easytidy.Lists.{length, any}
use easytidy.Text.{Text, codes, text_eq, strip_prefix, contains, split_once, decimal}
use easytidy.Incontainer.{resolve_identity, home_of, uid_name}

pub record PathVars : Type 0 where
  pub home : Text
  pub user : Text
  pub uid : ℕ
  pub gid : ℕ

pub record MountConfig : Type 0 where
  pub host_path : Text
  pub container_path : Text
  pub read_only : Bool

pub record HostUser : Type 0 where
  pub name : Text
  pub uid : ℕ
  pub gid : ℕ
  pub home : Text

-- `unknown_var` is the `Error::Config` that names the variable. `stuck` is no Rust value: the loop
-- of `expand_path` ran out of fuel.
pub data Result {ℓ} (A : Type ℓ) : Type ℓ where
  ok : A → Result A
  unknown_var : Text → Result A
  stuck : Result A

infixl 5 ◌>>=◌
abbrev pub ◌>>=◌ {ℓ κ} : {A : Type ℓ} {B : Type κ} → Result A → (A → Result B) → Result B
ok a >>= f = f a
unknown_var v >>= f = unknown_var v
stuck >>= f = stuck

unfoldable pub host_path_vars : HostUser → PathVars
host_path_vars h = record { home = h.home; user = h.name; uid = h.uid; gid = h.gid }

-- The home and the name without the image's /etc/passwd.
abbrev pub names_without_image : ℕ → Option Text → Text × Text
names_without_image uid (some n) = (home_of n, n)
names_without_image uid none = (home_of (uid_name uid), uid_name uid)

unfoldable pub container_path_vars : ℕ → ℕ → Option Text → Option Text → PathVars
container_path_vars uid gid user_name (some pw) =
    let id = resolve_identity pw uid gid user_name in
    record { home = id.home; user = id.name; uid = uid; gid = gid }
container_path_vars uid gid user_name none =
    let (home, user) = names_without_image uid user_name in
    record { home = home; user = user; uid = uid; gid = gid }

-- The `match var` of `expand_path`; `none` is an unknown variable.
unfoldable pub value_of : PathVars → Text → Option Text
value_of pv var =
    if text_eq var (codes "HOME")
    then some pv.home
    else if text_eq var (codes "USER")
    then some pv.user
    else if text_eq var (codes "UID")
    then some (decimal pv.uid)
    else if text_eq var (codes "GID")
    then some (decimal pv.gid)
    else none

-- One round of the loop at the character `c` with `rest` behind it: the character is copied, a
-- variable is replaced and `after` is left, all that is left is copied, or the variable is unknown.
pub data Round : Type 0 where
  copy : Round
  replace : Text → Text → Round
  copy_rest : Round
  unknown : Text → Round

unfoldable pub replace_var : Text → Text → Option Text → Round
replace_var var after none = unknown var
replace_var var after (some value) = replace value after

unfoldable pub close_var : PathVars → Option (Text × Text) → Round
unfolding replace_var
close_var pv none = copy_rest
close_var pv (some (var, after)) = replace_var var after (value_of pv var)

unfoldable pub open_var : PathVars → Option Text → Round
unfolding close_var
open_var pv none = copy
open_var pv (some body) = close_var pv (split_once b'}' body)

unfoldable pub round : PathVars → Text → Round
round pv s = open_var pv (strip_prefix (codes "${") s)

-- The loop over `s[i..]`, with `out` so far.
unfoldable pub expand_loop : ℕ → Text → PathVars → Text → Result Text
expand_loop zero s pv out = stuck
expand_loop (suc f) [] pv out = ok out
expand_loop (suc f) (c ∷ rest) pv out = elim (round pv (c ∷ rest)) [
  | copy ↦ expand_loop f rest pv (out ++ (c ∷ []))
  | replace value after ↦ expand_loop f after pv (out ++ value)
  | copy_rest ↦ ok (out ++ (c ∷ rest))
  | unknown var ↦ unknown_var var
]

-- Each round takes a character at least.
unfoldable pub expand_path : Text → PathVars → Result Text
expand_path s pv = expand_loop (suc (length s)) s pv []

unfoldable pub expand_mounts : List MountConfig → PathVars → PathVars → Result (List MountConfig)
expand_mounts [] host container = ok []
expand_mounts (m ∷ ms) host container = do
  host_path ← expand_path m.host_path host
  container_path ← expand_path m.container_path container
  rest ← expand_mounts ms host container
  ok (
      record { host_path = host_path; container_path = container_path; read_only = m.read_only }
      ∷ rest)

-- Whether the path holds `${NAME}`.
unfoldable pub contains_var : Text → Text → Bool
contains_var s name = contains (codes "${" ++ (name ++ codes "}")) s

unfoldable pub needs_image_passwd : List MountConfig → Option Text → Bool
needs_image_passwd mounts (some n) = false
needs_image_passwd mounts none =
    any
      (λ (m : MountConfig).
        contains_var m.container_path (codes "HOME")
        || contains_var m.container_path (codes "USER"))
      mounts

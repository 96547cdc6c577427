-- ===== src/Server/Command.antt =====
-- crates/server/src/services/pty.rs, the middle of `handle_pty_open`: the command, the environment and
-- the working directory of a new terminal. What the host answers (whether /bin/bash is there, the
-- container's user, whether a path is a directory) is the record `Host`.
use easytidy.Prelude.{Bool, not, ◌||◌, Option, none, some, List, [], ◌∷◌, if◌then◌else◌}
use easytidy.Lists.{any, retain}
use easytidy.Text.{Text, text_eq, codes}
use easytidy.Incontainer.Xdg.{fixup_xdg_data_dirs_value}
use easytidy.Server.{PtyOpen}

-- `UserMap`
pub record UserMap : Type 0 where
  pub name : Text
  pub home : Text

pub record Host : Type 0 where
  pub bash_exists : Bool
  pub user_map : Option UserMap
  pub is_dir : Text → Bool

-- `CommandBuilder`, its environment with one entry for each name.
pub record CommandBuilder : Type 0 where
  pub program : Text
  pub args : List Text
  pub env : List (Text × Text)
  pub cwd : Text

unfoldable pub env_get : List (Text × Text) → Text → Option Text
env_get [] k = none
env_get ((n, v) ∷ env) k = if text_eq n k then some v else env_get env k

-- `CommandBuilder::env`
unfoldable pub env_set : List (Text × Text) → Text → Text → List (Text × Text)
env_set env k v = (k, v) ∷ retain (λ e. not (text_eq e.0 k)) env

abbrev pub shell_of : Host → Text
shell_of h = if h.bash_exists then codes "/bin/bash" else codes "/bin/sh"

-- The command and its argument vector.
unfoldable pub command_of : Host → PtyOpen → Text × List Text
command_of h req = elim req.cmd [
  | [] ↦ (shell_of h, shell_of h ∷ codes "-l" ∷ [])
  | c ∷ cs ↦ (c ∷ cs, elim req.argv [ [] ↦ ((c ∷ cs) ∷ []) | a ∷ more ↦ a ∷ more ])
]

abbrev pub tail : {A : Type 0} → List A → List A
tail [] = []
tail (x ∷ xs) = xs

-- The client's environment, XDG_DATA_DIRS repaired.
unfoldable pub client_env : List (Text × Text) → List (Text × Text) → List (Text × Text)
client_env env [] = env
client_env env ((k, v) ∷ rest) =
    client_env
      (env_set env k (if text_eq k (codes "XDG_DATA_DIRS") then fixup_xdg_data_dirs_value v else v))
      rest

-- The login environment of the container's user.
unfoldable pub login_env : Host → List (Text × Text) → List (Text × Text)
login_env h env = elim h.user_map [
  | none ↦ env
  | some u ↦
      env_set
        (env_set (env_set (env_set env (codes "HOME") u.home) (codes "USER") u.name)
          (codes "LOGNAME") u.name)
        (codes "SHELL") (shell_of h)
]

unfoldable pub term_env : PtyOpen → List (Text × Text) → List (Text × Text)
term_env req env =
    if any (λ e. text_eq e.0 (codes "TERM")) req.env
    then env
    else env_set env (codes "TERM") (codes "xterm-256color")

unfoldable pub wanted_cwd : Host → PtyOpen → Text
wanted_cwd h req =
    if text_eq req.cwd [] || text_eq req.cwd (codes "/")
    then elim h.user_map [ none ↦ [] | some u ↦ u.home ]
    else req.cwd

unfoldable pub cwd_of : Host → PtyOpen → Text
unfolding wanted_cwd
cwd_of h req = if h.is_dir (wanted_cwd h req) then wanted_cwd h req else codes "/"

-- The `CommandBuilder` that is spawned, from the environment `base` that `CommandBuilder::new` takes
-- over from the server.
unfoldable pub build_command : Host → List (Text × Text) → PtyOpen → CommandBuilder
unfolding command_of client_env login_env term_env cwd_of
build_command h base req = record {
  program = (command_of h req).0;
  args = tail (command_of h req).1;
  env = term_env req (login_env h (client_env base req.env));
  cwd = cwd_of h req;
}

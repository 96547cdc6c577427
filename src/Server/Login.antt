-- ===== src/Server/Login.antt =====
-- The login environment of a new terminal.
use easytidy.Prelude.{◌≡◌, refl, ap, ◌∙◌, false, not, some, List, [], ◌∷◌, Bool-cases, inl, inr}
use easytidy.Lists.{retain, any}
use easytidy.Text.{Text, text_eq, codes}
use easytidy.Text.Split.{text_eq_iff}
use easytidy.Server.{PtyOpen}
use easytidy.Server.Command.{
  UserMap, Host, env_get, env_set, shell_of, client_env, login_env, term_env, build_command,
}

retain-env_get :
    (env : List (Text × Text)) (k k' : Text)
    → text_eq k k' ≡ false
    → env_get (retain (λ e. not (text_eq e.0 k)) env) k' ≡ env_get env k'
unfolding env_get retain
retain-env_get [] k k' h = refl
retain-env_get ((n, v) ∷ env) k k' h = elim (Bool-cases (text_eq n k)) [
  | inl e ↦ rw (e, ap (λ t. text_eq t k') ((text_eq_iff n k).0 e), h) (retain-env_get env k k' h)
  | inr e ↦ rw (e, retain-env_get env k k' h) refl
]

env_get-env_set_other :
    (env : List (Text × Text)) (k k' v : Text)
    → text_eq k k' ≡ false
    → env_get (env_set env k v) k' ≡ env_get env k'
unfolding env_get env_set
env_get-env_set_other env k k' v h = rw h (retain-env_get env k k' h)

-- What the environment holds under a name other than TERM does not depend on the request's TERM.
env_get-term_env :
    (req : PtyOpen) (env : List (Text × Text)) (k : Text)
    → text_eq (codes "TERM") k ≡ false
    → env_get (term_env req env) k ≡ env_get env k
unfolding term_env
env_get-term_env req env k h = elim (Bool-cases (any (λ e. text_eq e.0 (codes "TERM")) req.env)) [
  | inl e ↦ rw e refl
  | inr e ↦ rw e (env_get-env_set_other env (codes "TERM") k (codes "xterm-256color") h)
]

login_env-user :
    (h : Host) (env : List (Text × Text)) (u : UserMap)
    → h.user_map ≡ some u
    → (env_get (login_env h env) (codes "HOME") ≡ some u.home)
      × (env_get (login_env h env) (codes "USER") ≡ some u.name)
      × (env_get (login_env h env) (codes "LOGNAME") ≡ some u.name)
      × (env_get (login_env h env) (codes "SHELL") ≡ some (shell_of h))
unfolding login_env env_set env_get retain text_eq
login_env-user h env u e = rw e (refl, refl, refl, refl)

-- Where the container's user is known, a new terminal has that user's HOME, USER and LOGNAME and the
-- container's SHELL, whatever the client's environment and the server's say of them.
pub build_command-login :
    (h : Host) (base : List (Text × Text)) (req : PtyOpen) (u : UserMap)
    → h.user_map ≡ some u
    → (env_get (build_command h base req).env (codes "HOME") ≡ some u.home)
      × (env_get (build_command h base req).env (codes "USER") ≡ some u.name)
      × (env_get (build_command h base req).env (codes "LOGNAME") ≡ some u.name)
      × (env_get (build_command h base req).env (codes "SHELL") ≡ some (shell_of h))
unfolding build_command text_eq
build_command-login h base req u e =
    let env = login_env h (client_env base req.env) in
    let (home, user, logname, shell) = login_env-user h (client_env base req.env) u e in
    (
      env_get-term_env req env (codes "HOME") refl ∙ home,
      env_get-term_env req env (codes "USER") refl ∙ user,
      env_get-term_env req env (codes "LOGNAME") refl ∙ logname,
      env_get-term_env req env (codes "SHELL") refl ∙ shell,
    )

-- ===== src/Incontainer/Home.antt =====
-- The resolved identity: its home is one that `ensure_home` accepts.
use easytidy.Prelude.{ℕ, ◌≢◌, none, some, Option, [], ◌∷◌, arith}
use easytidy.Text.{Text}
use easytidy.Text.Split.{text_eq_iff}
use easytidy.Incontainer.{PasswdLine, root_home, entry_identity, resolve_identity}

-- A home directory that `ensure_home` accepts.
abbrev pub IsHome : Text → Type 0
IsHome h = (h ≢ []) × (h ≢ root_home)

entry_identity-IsHome : (uid : ℕ) (entry : Option PasswdLine) → IsHome (entry_identity uid entry).1
unfolding entry_identity
entry_identity-IsHome uid none = ((λ e. cc), (λ e. cc))
entry_identity-IsHome uid (some x) = ground (arith, text_eq_iff x.home root_home)

-- Whatever /etc/passwd holds, the resolved home is neither empty nor the container's root.
pub resolve_identity-IsHome :
    (passwd : Text) (uid gid : ℕ) (user_name : Option Text)
    → IsHome (resolve_identity passwd uid gid user_name).home
unfolding resolve_identity
resolve_identity-IsHome passwd uid gid none = entry_identity-IsHome uid _
resolve_identity-IsHome passwd uid gid (some []) = entry_identity-IsHome uid _
resolve_identity-IsHome passwd uid gid (some (x ∷ n)) = ((λ e. cc), (λ e. cc))

-- ===== src/Incontainer.antt =====
-- crates/core/src/env/incontainer.rs: the identity of the container's user, the plan that gives
-- the user an entry in /etc/passwd and /etc/group, and its application. The file system is the
-- record `Container`; a write to it succeeds.
pub mod Passwd
pub mod Home
pub mod Plan
pub mod Prepare
pub mod Ownership
pub mod Xdg
mod Tests
use easytidy.Prelude.{
  ℕ, ◌+◌, ◌*◌, ◌<◌, Bool, true, false, not, ◌&&◌, ◌||◌, Option, none, some, List, [], ◌∷◌, ◌++◌,
  ltb, ◌==◌, if◌then◌else◌, ◌>>=◌,
}
use easytidy.Lists.{length, find, any, retain}
use easytidy.Text.{
  Text, codes, text_eq, is_empty, split, splitn, lines, join, parse_u32, decimal, strip_cr,
}
use mathlib.Core.List.{filter_map}

pub record PasswdLine : Type 0 where
  pub name : Text
  pub uid : ℕ
  pub gid : ℕ
  pub home : Text

pub record GroupLine : Type 0 where
  pub name : Text
  pub gid : ℕ

pub record Identity : Type 0 where
  pub name : Text
  pub uid : ℕ
  pub gid : ℕ
  pub home : Text

-- `f[i]` behind a test of `f.len()`.
abbrev pub field : ℕ → List Text → Text
field i [] = []
field ℕ.zero (w ∷ ws) = w
field (ℕ.suc i) (w ∷ ws) = field i ws

unfoldable pub parse_passwd_line : Text → Option PasswdLine
parse_passwd_line line =
    let f = splitn 7 b':' line in
    if ltb (length f) 6 then none else do
      uid ← parse_u32 (field 2 f)
      gid ← parse_u32 (field 3 f)
      some (record { name = field 0 f; uid = uid; gid = gid; home = field 5 f })

unfoldable pub parse_passwd : Text → List PasswdLine
parse_passwd passwd = filter_map parse_passwd_line (lines passwd)

unfoldable pub parse_group_line : Text → Option GroupLine
parse_group_line line =
    let f = splitn 4 b':' line in
    if ltb (length f) 3
    then none
    else do gid ← parse_u32 (field 2 f); some (record { name = field 0 f; gid = gid })

unfoldable pub parse_group : Text → List GroupLine
parse_group group = filter_map parse_group_line (lines group)

abbrev pub root_home : Text
root_home = codes "/"

-- `user_name.filter(|n| !n.is_empty())`
abbrev pub configured : Option Text → Option Text
configured none = none
configured (some n) = if is_empty n then none else some n

abbrev pub uid_name : ℕ → Text
uid_name uid = codes "uid" ++ decimal uid

abbrev pub home_of : Text → Text
home_of n = codes "/home/" ++ n

-- The `match entry` of an unconfigured user.
unfoldable pub entry_identity : ℕ → Option PasswdLine → Text × Text
entry_identity uid (some e) =
    if not (is_empty e.home) && not (text_eq e.home root_home)
    then (e.name, e.home)
    else (uid_name uid, home_of (uid_name uid))
entry_identity uid none = (uid_name uid, home_of (uid_name uid))

unfoldable pub name_and_home : ℕ → Option Text → Option PasswdLine → Text × Text
unfolding entry_identity
name_and_home uid (some n) entry = (n, home_of n)
name_and_home uid none entry = entry_identity uid entry

unfoldable pub resolve_identity : Text → ℕ → ℕ → Option Text → Identity
unfolding name_and_home
resolve_identity passwd uid gid user_name =
    let entry = find (λ e. e.uid == uid) (parse_passwd passwd) in
    let (name, home) = name_and_home uid (configured user_name) entry in
    record { name = name; uid = uid; gid = gid; home = home }

pub record PrepareSpec : Type 0 where
  pub uid : ℕ
  pub gid : ℕ
  pub user_name : Option Text
  pub shell : Text

pub record PreparePlan : Type 0 where
  pub uid : ℕ
  pub gid : ℕ
  pub remove_passwd : List Text
  pub remove_group : List Text
  pub add_passwd : Option Text
  pub add_group : Option Text
  pub home : Text
  pub skip_reason : Option Text

abbrev pub is_none {ℓ} : {A : Type ℓ} → Option A → Bool
is_none none = true
is_none (some a) = false

-- A placeholder of the runtime has the home `/`.
abbrev pub is_placeholder : ℕ → PasswdLine → Bool
is_placeholder uid e = e.uid == uid && text_eq e.home root_home

-- An entry of the uid whose home is not `/`.
abbrev pub is_taken : ℕ → PasswdLine → Bool
is_taken uid e = e.uid == uid && not (text_eq e.home root_home)

abbrev pub is_real : ℕ → PasswdLine → Bool
is_real uid e = is_taken uid e && not (is_empty e.home)

abbrev pub names_of : Option PasswdLine → List Text
names_of none = []
names_of (some e) = e.name ∷ []

abbrev pub listed : List Text → Text → Bool
listed names n = any (λ m. text_eq m n) names

abbrev skip_message : ℕ → Text
skip_message uid =
    codes "warning: uid "
    ++ (decimal uid ++ codes " already owned by another user; skipping user creation")

-- `{name}:x:{uid}:{gid}:{name}:{home}:{shell}`
abbrev pub passwd_text : Text → ℕ → ℕ → Text → Text → Text
passwd_text name uid gid home shell =
    name
    ++ (b':'
        ∷ (b'x'
            ∷ (b':'
                ∷ (decimal uid
                    ++ (b':'
                        ∷ (decimal gid ++ (b':' ∷ (name ++ (b':' ∷ (home ++ (b':' ∷ shell)))))))))))

-- `{name}:x:{gid}:`
abbrev pub group_text : Text → ℕ → Text
group_text name gid = name ++ (b':' ∷ (b'x' ∷ (b':' ∷ (decimal gid ++ (b':' ∷ [])))))

abbrev pub gid_free : Text → ℕ → List Text → Bool
gid_free group gid removed = not (
    any (λ g. g.gid == gid)
      (retain (λ (g : GroupLine). not (listed removed g.name)) (parse_group group)))

unfoldable pub plan_prepare : Text → Text → PrepareSpec → PreparePlan
plan_prepare passwd group spec =
    let identity = resolve_identity passwd spec.uid spec.gid spec.user_name in
    let entries = parse_passwd passwd in
    let removed = names_of (find (is_placeholder spec.uid) entries) in
    let plan : PreparePlan = record {
      uid = spec.uid;
      gid = spec.gid;
      remove_passwd = [];
      remove_group = [];
      add_passwd = none;
      add_group = none;
      home = identity.home;
      skip_reason = none;
    } in
    if is_none spec.user_name && any (is_real spec.uid) entries
    then plan
    else if any (is_taken spec.uid) entries
    then record plan {
      remove_passwd = removed;
      remove_group = removed;
      skip_reason = some (skip_message spec.uid);
    }
    else record plan {
      remove_passwd = removed;
      remove_group = removed;
      add_passwd = some (passwd_text identity.name spec.uid spec.gid identity.home spec.shell);
      add_group =
          if gid_free group spec.gid removed
          then some (group_text identity.name spec.gid)
          else none;
    }

-- What `line.split(':').next()` returns.
abbrev pub first_field : Text → Text
first_field line = field 0 (split b':' line)

abbrev pub opt_list {ℓ} : {A : Type ℓ} → Option A → List A
opt_list none = []
opt_list (some a) = a ∷ []

-- The new content that `rewrite_file` hands to `atomic_write`.
unfoldable pub rewrite_file : Text → List Text → Option Text → Text
rewrite_file original remove_names add_line =
    join b'\n' (
      retain (λ line. not (listed remove_names (first_field line))) (lines original)
      ++ opt_list add_line)
    ++ (b'\n' ∷ [])

pub record HomeDir : Type 0 where
  pub path : Text
  pub uid : ℕ
  pub gid : ℕ
  pub mode : ℕ

-- The files that `apply_plan` works on; `none` is a file that cannot be read. `homes` are the
-- directories created and chowned so far, `fontconfig` the text of local.conf, written where the
-- host's fonts are mounted and the directory exists.
pub record Container : Type 0 where
  pub passwd : Option Text
  pub group : Option Text
  pub homes : List HomeDir
  pub host_fonts : Bool
  pub fontconf_dir : Bool
  pub fontconfig : Option Text

-- `read_to_string(path).unwrap_or_default()`
abbrev pub read_or_default : Option Text → Text
read_or_default none = []
read_or_default (some t) = t

abbrev pub changes : List Text → Option Text → Bool
changes [] none = false
changes [] (some l) = true
changes (n ∷ ns) add = true

abbrev pub rewrite_if_changed : Option Text → List Text → Option Text → Option Text
rewrite_if_changed file removed add =
    if changes removed add then some (rewrite_file (read_or_default file) removed add) else file

-- `none` is the refusal to chown the container's root. Making the directory, `chown` and `chmod`
-- are taken to succeed.
unfoldable pub ensure_home : Text → ℕ → ℕ → List HomeDir → Option (List HomeDir)
ensure_home home uid gid homes =
    if is_empty home || text_eq home root_home
    then none
    else some (record { path = home; uid = uid; gid = gid; mode = 0o750 } ∷ homes)

abbrev pub fontconf_xml : Text
fontconf_xml =
    codes
      "<?xml version=\"1.0\"?>\n<!DOCTYPE fontconfig SYSTEM \"fonts.dtd\">\n<fontconfig>\n<dir>/mnt/host/fonts</dir>\n<dir>/mnt/host/.local/share/fonts</dir>\n</fontconfig>\n"

unfoldable pub write_fontconfig : Container → Option Text
write_fontconfig c =
    if not c.host_fonts || not c.fontconf_dir then c.fontconfig else some fontconf_xml

-- The files are rewritten before the home directory is made; `false` is the error of the latter.
unfoldable pub apply_plan : PreparePlan → Container → Container × Bool
unfolding ensure_home write_fontconfig
apply_plan plan c =
    let rewritten : Container = record c {
      passwd = rewrite_if_changed c.passwd plan.remove_passwd plan.add_passwd;
      group = rewrite_if_changed c.group plan.remove_group plan.add_group;
    } in
    elim (ensure_home plan.home plan.uid plan.gid c.homes) [
      | none ↦ (rewritten, false)
      | some homes ↦
          (record rewritten { homes = homes; fontconfig = write_fontconfig rewritten }, true)
    ]

pub record PrepareReport : Type 0 where
  pub user_created : Bool
  pub skip_reason : Option Text

abbrev pub login_shell : Bool → Text
login_shell has_bash = if has_bash then codes "/bin/bash" else codes "/bin/sh"

abbrev pub prepare_spec : Bool → ℕ → ℕ → Option Text → PrepareSpec
prepare_spec has_bash uid gid user_name = record {
  uid = uid;
  gid = gid;
  user_name = configured user_name;
  shell = login_shell has_bash;
}

-- The part of the entry point up to `apply_plan(..)?`, and its report. The flag says whether
-- /bin/bash exists.
unfoldable pub prepare_in_container :
    Bool → ℕ → ℕ → Option Text → Container → Container × Option PrepareReport
prepare_in_container has_bash uid gid user_name c =
    let spec = prepare_spec has_bash uid gid user_name in
    let plan = plan_prepare (read_or_default c.passwd) (read_or_default c.group) spec in
    let (c', ok) = apply_plan plan c in
    if ok
    then (
      c',
      some
          (record { user_created = not (is_none plan.add_passwd); skip_reason = plan.skip_reason }),
    )
    else (c', none)

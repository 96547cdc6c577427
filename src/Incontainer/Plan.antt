-- ===== src/Incontainer/Plan.antt =====
-- The plan for /etc/passwd, and what its application achieves.
use easytidy.Prelude.{
  ℕ, ◌≡◌, refl, ap, ◌∙◌, ◌≢◌, Bool, true, false, not, none, some, Option, List, [], ◌∷◌, ◌++◌, inl,
  inr, arith, ◌==◌,
}
use easytidy.Lists.{retain, any, find, any-false_of_holds}
use easytidy.Text.{Text, Free, codes, text_eq}
use easytidy.Text.Split.{Free-append}
use easytidy.Text.Lines.{IsLine}
use easytidy.Text.Decimal.{IsU32, decimal-Free}
use easytidy.Incontainer.{
  PasswdLine, Identity, PrepareSpec, PreparePlan, root_home, configured, uid_name, home_of,
  is_placeholder, is_taken, is_real, names_of, listed, passwd_text, entry_identity, name_and_home,
  parse_passwd, resolve_identity, plan_prepare, rewrite_file, Container, apply_plan,
  rewrite_if_changed, read_or_default, changes,
}
use easytidy.Incontainer.Passwd.{
  IsField, parse_passwd-rewrite_file, parse_passwd_line-passwd_text, passwd_text-IsLine,
}
use mathlib.Core.List.{filter_map}

-- What the plan relies on. The text has no carriage return, the numbers are u32s, a configured
-- name is a non-empty field, and /etc/passwd has for the uid either real entries or one
-- placeholder name, as the container runtime leaves it.
abbrev pub NameOk : Option Text → Type 0
NameOk none = Unit {0}
NameOk (some n) = IsField n × (n ≢ [])

abbrev pub of_uid : ℕ → PasswdLine → Bool
of_uid uid e = e.uid == uid

abbrev pub kept : List Text → List PasswdLine → List PasswdLine
kept removed es = retain (λ (e : PasswdLine). not (listed removed e.name)) es

abbrev pub placeholder : Text → ℕ → Option PasswdLine
placeholder passwd uid = find (is_placeholder uid) (parse_passwd passwd)

pub record Ready (passwd : Text) (spec : PrepareSpec) : Type 0 where
  pub no_cr : Free b'\r' passwd
  pub uid_fits : IsU32 spec.uid
  pub gid_fits : IsU32 spec.gid
  pub name_ok : NameOk spec.user_name
  pub shell_ok : IsLine spec.shell
  pub coherent :
      any (is_taken spec.uid) (parse_passwd passwd) ≡ true → placeholder passwd spec.uid ≡ none
  pub sole :
      any (is_taken spec.uid) (parse_passwd passwd) ≡ false
      → any (of_uid spec.uid) (kept (names_of (placeholder passwd spec.uid)) (parse_passwd passwd))
        ≡ false

abbrev pub identity_of : Text → PrepareSpec → Identity
identity_of passwd spec = resolve_identity passwd spec.uid spec.gid spec.user_name

abbrev pub added_entry : Text → PrepareSpec → PasswdLine
added_entry passwd spec = record {
  name = (identity_of passwd spec).name;
  uid = spec.uid;
  gid = spec.gid;
  home = (identity_of passwd spec).home;
}

uid_name-IsField : (uid : ℕ) → IsU32 uid → IsField (uid_name uid)
uid_name-IsField uid h = (
  Free-append b':' (codes "uid") _ (omega arith) (decimal-Free b':' uid (inr (omega arith)) h),
  (
    Free-append b'\n' (codes "uid") _ (omega arith) (decimal-Free b'\n' uid (inl (omega arith)) h),
    Free-append b'\r' (codes "uid") _ (omega arith) (decimal-Free b'\r' uid (inl (omega arith)) h),
  ),
)

home_of-IsField : (n : Text) → IsField n → IsField (home_of n)
home_of-IsField n h = (
  Free-append b':' (codes "/home/") n (omega arith) h.0,
  (
    Free-append b'\n' (codes "/home/") n (omega arith) h.1.0,
    Free-append b'\r' (codes "/home/") n (omega arith) h.1.1,
  ),
)

taken-of-real : (uid : ℕ) (e : PasswdLine) → is_real uid e ≡ true → is_taken uid e ≡ true
taken-of-real uid e h = ground arith

pub of_uid-of-taken : (uid : ℕ) (e : PasswdLine) → is_taken uid e ≡ true → of_uid uid e ≡ true
of_uid-of-taken uid e h = ground arith

any_taken-false :
    (uid : ℕ) (es : List PasswdLine) {x : PasswdLine}
    → any (is_taken uid) es ≡ false
    → find (of_uid uid) es ≡ some x
    → text_eq x.home root_home ≡ true
unfolding any find
any_taken-false uid [] h k = cc
any_taken-false uid (e ∷ es) {x} h k = ground (arith, any_taken-false uid es {x = x})

-- An unconfigured user with no taken entry gets the name `uid<uid>`.
entry_identity-none_taken :
    (uid : ℕ) (es : List PasswdLine)
    → any (is_taken uid) es ≡ false
    → entry_identity uid (find (of_uid uid) es) ≡ (uid_name uid, home_of (uid_name uid))
entry_identity-none_taken uid es h = split (find (of_uid uid) es) refl
  where
    split :
        (o : Option PasswdLine)
        → find (of_uid uid) es ≡ o
        → entry_identity uid o ≡ (uid_name uid, home_of (uid_name uid))
    split none e = unfold entry_identity in refl
    split (some x) e = unfold entry_identity in ground (arith, any_taken-false uid es h e)

-- The plan keeps both files.
pub record Keeps (passwd group : Text) (spec : PrepareSpec) : Type 0 where
  pub plan_keeps : (plan_prepare passwd group spec).remove_passwd ≡ []
  pub adds_none : (plan_prepare passwd group spec).add_passwd ≡ none
  pub group_kept : (plan_prepare passwd group spec).remove_group ≡ []
  pub group_none : (plan_prepare passwd group spec).add_group ≡ none

-- The plan takes away the placeholder, if there is one, and adds the entry of the identity.
record Adds (passwd group : Text) (spec : PrepareSpec) : Type 0 where
  removes : (plan_prepare passwd group spec).remove_passwd ≡ names_of (placeholder passwd spec.uid)
  adds :
      (plan_prepare passwd group spec).add_passwd
      ≡ some (
          passwd_text
            (identity_of passwd spec).name
            spec.uid
            spec.gid
            (identity_of passwd spec).home
            spec.shell)

pub plan-Keeps :
    (passwd group : Text) (spec : PrepareSpec)
    → any (is_taken spec.uid) (parse_passwd passwd) ≡ true
    → placeholder passwd spec.uid ≡ none
    → Keeps passwd group spec
plan-Keeps passwd group spec t p = record {
  plan_keeps = unfold plan_prepare in ground arith;
  adds_none = unfold plan_prepare in ground arith;
  group_kept = unfold plan_prepare in ground arith;
  group_none = unfold plan_prepare in ground arith;
}

plan-Adds :
    (passwd group : Text) (spec : PrepareSpec)
    → any (is_taken spec.uid) (parse_passwd passwd) ≡ false
    → Adds passwd group spec
plan-Adds passwd group spec f =
    let real = any-false_of_holds _ _ _ (taken-of-real spec.uid) f in
    record {
      removes = unfold plan_prepare in ground (arith, real);
      adds = unfold plan_prepare in ground (arith, real);
    }

-- The two files once the plan for them is applied.
abbrev pub plan_for : Container → PrepareSpec → PreparePlan
plan_for c spec = plan_prepare (read_or_default c.passwd) (read_or_default c.group) spec

abbrev pub prepared : Container → PrepareSpec → Container
prepared c spec = (apply_plan (plan_for c spec) c).0

abbrev pub passwd_of : Container → Text
passwd_of c = read_or_default c.passwd

apply_plan-passwd :
    (plan : PreparePlan) (c : Container)
    → (apply_plan plan c).0.passwd ≡ rewrite_if_changed c.passwd plan.remove_passwd plan.add_passwd
unfolding apply_plan
apply_plan-passwd plan c = ground arith

apply_plan-group :
    (plan : PreparePlan) (c : Container)
    → (apply_plan plan c).0.group ≡ rewrite_if_changed c.group plan.remove_group plan.add_group
unfolding apply_plan
apply_plan-group plan c = ground arith

name_and_home-IsField :
    (uid : ℕ) (user_name : Option Text) (es : List PasswdLine)
    → IsU32 uid
    → NameOk user_name
    → any (is_taken uid) es ≡ false
    → IsField (name_and_home uid (configured user_name) (find (of_uid uid) es)).0
      × IsField (name_and_home uid (configured user_name) (find (of_uid uid) es)).1
unfolding name_and_home
name_and_home-IsField uid none es hu h f =
    rw (entry_identity-none_taken uid es f)
      (uid_name-IsField uid hu, home_of-IsField (uid_name uid) (uid_name-IsField uid hu))
name_and_home-IsField uid (some []) es hu h f = absurd (h.1 refl)
name_and_home-IsField uid (some (x ∷ n)) es hu h f = (h.0, home_of-IsField (x ∷ n) h.0)

identity_of-IsField :
    (passwd : Text) (spec : PrepareSpec)
    → Ready passwd spec
    → any (is_taken spec.uid) (parse_passwd passwd) ≡ false
    → IsField (identity_of passwd spec).name × IsField (identity_of passwd spec).home
unfolding resolve_identity
identity_of-IsField passwd spec r f =
    name_and_home-IsField spec.uid spec.user_name (parse_passwd passwd) r.uid_fits r.name_ok f

-- The entries of the rewritten file: the old ones less the placeholder, and the added one.
parse_passwd-added :
    (passwd : Text) (spec : PrepareSpec)
    → Ready passwd spec
    → any (is_taken spec.uid) (parse_passwd passwd) ≡ false
    → (removed : List Text)
    → parse_passwd (
        rewrite_file passwd removed (
          some (
            passwd_text
              (identity_of passwd spec).name
              spec.uid
              spec.gid
              (identity_of passwd spec).home
              spec.shell)))
      ≡ kept removed (parse_passwd passwd) ++ (added_entry passwd spec ∷ [])
parse_passwd-added passwd spec r f removed =
    let (n, h) = identity_of-IsField passwd spec r f in
    parse_passwd-rewrite_file passwd removed _ r.no_cr
      (passwd_text-IsLine _ _ _ _ _ n h r.shell_ok r.uid_fits r.gid_fits, tt)
    ∙ ap (λ (es : List PasswdLine). kept removed (parse_passwd passwd) ++ es)
        (unfold filter_map in
          rw (parse_passwd_line-passwd_text _ _ _ _ spec.shell n.0 h.0 r.uid_fits r.gid_fits))

changes-some : (removed : List Text) (l : Text) → changes removed (some l) ≡ true
changes-some [] l = refl
changes-some (n ∷ ns) l = refl

pub Keeps-prepared :
    (c : Container) (spec : PrepareSpec)
    → Keeps (passwd_of c) (read_or_default c.group) spec
    → ((prepared c spec).passwd ≡ c.passwd) × ((prepared c spec).group ≡ c.group)
Keeps-prepared c spec k = (
  rw (apply_plan-passwd, k.plan_keeps, k.adds_none) refl,
  rw (apply_plan-group, k.group_kept, k.group_none) refl,
)

-- The added entry is the only one of its uid.
pub record Added (c : Container) (spec : PrepareSpec) : Type 0 where
  pub before : List PasswdLine
  pub no_uid : any (of_uid spec.uid) before ≡ false
  pub entries :
      parse_passwd (passwd_of (prepared c spec)) ≡ before ++ (added_entry (passwd_of c) spec ∷ [])

pub prepared-Added :
    (c : Container) (spec : PrepareSpec)
    → Ready (passwd_of c) spec
    → any (is_taken spec.uid) (parse_passwd (passwd_of c)) ≡ false
    → Added c spec
prepared-Added c spec r f =
    let a = plan-Adds (passwd_of c) (read_or_default c.group) spec f in
    record {
      before = kept (names_of (placeholder (passwd_of c) spec.uid)) (parse_passwd (passwd_of c));
      no_uid = r.sole f;
      entries =
          rw (apply_plan-passwd, a.removes, a.adds, changes-some)
            (parse_passwd-added (passwd_of c) spec r f _);
    }

-- ===== src/Incontainer/Prepare.antt =====
-- `prepare_in_container`: the user has an entry afterwards, the server resolves the identity that
-- the plan was made for, and a second run changes nothing.
use easytidy.Prelude.{
  ℕ, ◌≡◌, refl, sym, ap, ◌∙◌, Bool, true, false, not, none, some, Option, List, [], ◌∷◌, ◌++◌, inl,
  inr, arith, Bool-cases, if◌then◌else◌,
}
use easytidy.Lists.{
  any, find, any-append, any-of-holds, find-last, find-last_none, any-last, any-false_of_holds,
}
use easytidy.Text.{Text, is_empty, text_eq}
use easytidy.Incontainer.{
  PasswdLine, Identity, PrepareSpec, PreparePlan, Container, PrepareReport, read_or_default,
  prepare_spec, parse_passwd, resolve_identity, apply_plan, prepare_in_container, is_taken,
  is_placeholder, configured, name_and_home, entry_identity, root_home, is_none, HomeDir,
  plan_prepare,
}
use easytidy.Incontainer.Home.{IsHome, resolve_identity-IsHome}
use easytidy.Incontainer.Plan.{
  Ready, of_uid, added_entry, prepared, plan-Keeps, Keeps-prepared, prepared-Added, of_uid-of-taken,
  passwd_of, plan_for, identity_of,
}
use easytidy.Text.Split.{text_eq_iff}

-- The run on a container, and the file system that it leaves.
abbrev pub run : Bool → ℕ → ℕ → Option Text → Container → Container
run has_bash uid gid user_name c = (prepare_in_container has_bash uid gid user_name c).0

abbrev pub report_of : PreparePlan → PrepareReport
report_of plan = record {
  user_created = not (is_none plan.add_passwd);
  skip_reason = plan.skip_reason;
}

abbrev pub home_dir : Identity → HomeDir
home_dir i = record { path = i.home; uid = i.uid; gid = i.gid; mode = 0o750 }

if_same :
    (b : Bool) (p : Container × Option PrepareReport) (y : Option PrepareReport)
    → (if b then p else (p.0, y)).0 ≡ p.0
if_same true p y = refl
if_same false p y = refl

run-prepared :
    (has_bash : Bool) (uid gid : ℕ) (user_name : Option Text) (c : Container)
    → run has_bash uid gid user_name c ≡ prepared c (prepare_spec has_bash uid gid user_name)
unfolding prepare_in_container
run-prepared has_bash uid gid user_name c = if_same _ _ none

configured_twice : (u : Option Text) → configured (configured u) ≡ configured u
configured_twice none = refl
configured_twice (some []) = refl
configured_twice (some (x ∷ n)) = refl

identity-configured :
    (passwd : Text) (uid gid : ℕ) (u : Option Text)
    → resolve_identity passwd uid gid (configured u) ≡ resolve_identity passwd uid gid u
unfolding resolve_identity
identity-configured passwd uid gid u = rw (configured_twice u)

not_root : (h : Text) → IsHome h → text_eq h root_home ≡ false
not_root h k = ground (arith, text_eq_iff h root_home)

not_empty : (h : Text) → IsHome h → is_empty h ≡ false
not_empty [] k = absurd (k.0 refl)
not_empty (x ∷ h) k = refl

-- An entry with the name and home of the identity resolves to that identity.
name_and_home-added :
    (uid : ℕ) (u : Option Text) (o : Option PasswdLine) (e : PasswdLine)
    → IsHome e.home
    → (e.name ≡ (name_and_home uid (configured u) o).0)
    → (e.home ≡ (name_and_home uid (configured u) o).1)
    → name_and_home uid (configured u) (some e) ≡ name_and_home uid (configured u) o
unfolding name_and_home entry_identity
name_and_home-added uid none o e k hn hh = ground (arith, not_root e.home k, not_empty e.home k)
name_and_home-added uid (some []) o e k hn hh =
    ground (arith, not_root e.home k, not_empty e.home k)
name_and_home-added uid (some (x ∷ n)) o e k hn hh = refl

abbrev identity_with : PrepareSpec → Text × Text → Identity
identity_with spec p = record { name = p.0; uid = spec.uid; gid = spec.gid; home = p.1 }

abbrev naming : PrepareSpec → Option PasswdLine → Text × Text
naming spec o = name_and_home spec.uid (configured spec.user_name) o

identity_of-naming :
    (passwd : Text) (spec : PrepareSpec)
    → identity_of passwd spec
      ≡ identity_with spec (naming spec (find (of_uid spec.uid) (parse_passwd passwd)))
unfolding resolve_identity
identity_of-naming passwd spec = refl

module _ (passwd : Text) (spec : PrepareSpec) (before : List PasswdLine)
    (no_uid : any (of_uid spec.uid) before ≡ false) where
  entry_home : IsHome (added_entry passwd spec).home
  entry_home = resolve_identity-IsHome passwd spec.uid spec.gid spec.user_name

  find-added :
      find (of_uid spec.uid) (before ++ (added_entry passwd spec ∷ []))
      ≡ some (added_entry passwd spec)
  find-added = find-last _ before _ no_uid (ground arith)

  placeholder-added :
      find (is_placeholder spec.uid) (before ++ (added_entry passwd spec ∷ [])) ≡ none
  placeholder-added =
      find-last_none _ before _
        (any-false_of_holds _ (of_uid spec.uid) before (λ e h. ground arith) no_uid)
        (ground (arith, not_root _ entry_home))

  taken-added : any (is_taken spec.uid) (before ++ (added_entry passwd spec ∷ [])) ≡ true
  taken-added = any-last _ before _ (ground (arith, not_root _ entry_home))

  identity-added :
      (passwd' : Text)
      → parse_passwd passwd' ≡ before ++ (added_entry passwd spec ∷ [])
      → identity_of passwd' spec ≡ identity_of passwd spec
  identity-added passwd' e =
      identity_of-naming passwd' spec
      ∙ rw (e, find-added)
          (ap (identity_with spec) (
              name_and_home-added spec.uid spec.user_name
                (find (of_uid spec.uid) (parse_passwd passwd)) _ entry_home
                (ap (λ (i : Identity). i.name) (identity_of-naming passwd spec))
                (ap (λ (i : Identity). i.home) (identity_of-naming passwd spec)))
            ∙ sym (identity_of-naming passwd spec))

-- The lemmas about the plan, for any specification of the user.
module _ (c : Container) (spec : PrepareSpec) (r : Ready (passwd_of c) spec) where
  prepared_has_entry : any (of_uid spec.uid) (parse_passwd (passwd_of (prepared c spec))) ≡ true
  prepared_has_entry = elim (Bool-cases (any (is_taken spec.uid) (parse_passwd (passwd_of c)))) [
    | inl t ↦
        let k = Keeps-prepared c spec (plan-Keeps _ _ spec t (r.coherent t)) in
        rw k.0 (any-of-holds _ _ _ (of_uid-of-taken spec.uid) t)
    | inr f ↦
        let a = prepared-Added c spec r f in rw (a.entries, any-append) (unfold any in ground arith)
  ]

  prepared_identity :
      identity_of (passwd_of (prepared c spec)) spec ≡ identity_of (passwd_of c) spec
  prepared_identity = elim (Bool-cases (any (is_taken spec.uid) (parse_passwd (passwd_of c)))) [
    | inl t ↦ let k = Keeps-prepared c spec (plan-Keeps _ _ spec t (r.coherent t)) in rw k.0
    | inr f ↦
        let a = prepared-Added c spec r f in
        identity-added (passwd_of c) spec a.before a.no_uid _ a.entries
  ]

  prepared_twice :
      ((prepared (prepared c spec) spec).passwd ≡ (prepared c spec).passwd)
      × ((prepared (prepared c spec) spec).group ≡ (prepared c spec).group)
  prepared_twice = elim (Bool-cases (any (is_taken spec.uid) (parse_passwd (passwd_of c)))) [
    | inl t ↦
        let k = Keeps-prepared c spec (plan-Keeps _ _ spec t (r.coherent t)) in
        Keeps-prepared (prepared c spec) spec
          (plan-Keeps _ _ spec (rw k.0 t) (rw k.0 (r.coherent t)))
    | inr f ↦
        let a = prepared-Added c spec r f in
        Keeps-prepared (prepared c spec) spec (
          plan-Keeps _ _ spec (rw a.entries (taken-added (passwd_of c) spec a.before a.no_uid))
            (rw a.entries (placeholder-added (passwd_of c) spec a.before a.no_uid)))
  ]

plan_home :
    (passwd group : Text) (spec : PrepareSpec)
    → ((plan_prepare passwd group spec).home ≡ (identity_of passwd spec).home)
      × ((plan_prepare passwd group spec).uid ≡ spec.uid)
      × ((plan_prepare passwd group spec).gid ≡ spec.gid)
unfolding plan_prepare
plan_home passwd group spec = (ground arith, ground arith, ground arith)

apply_plan-homes :
    (plan : PreparePlan) (c : Container)
    → IsHome plan.home
    → ((apply_plan plan c).1 ≡ true)
      × ((apply_plan plan c).0.homes
          ≡ record { path = plan.home; uid = plan.uid; gid = plan.gid; mode = 0o750 } ∷ c.homes)
unfolding apply_plan
apply_plan-homes plan c k = (
  ground (arith, not_root plan.home k, not_empty plan.home k),
  ground (arith, not_root plan.home k, not_empty plan.home k),
)

home_dir-plan :
    (c : Container) (has_bash : Bool) (uid gid : ℕ) (user_name : Option Text)
    → home_dir (resolve_identity (passwd_of c) uid gid user_name) ≡ record {
      path = (plan_for c (prepare_spec has_bash uid gid user_name)).home;
      uid = (plan_for c (prepare_spec has_bash uid gid user_name)).uid;
      gid = (plan_for c (prepare_spec has_bash uid gid user_name)).gid;
      mode = 0o750;
    }
home_dir-plan c has_bash uid gid user_name =
    let (h, u, g) =
      plan_home (passwd_of c) (read_or_default c.group) (prepare_spec has_bash uid gid user_name) in
    rw (h, u, g, identity-configured) (unfold resolve_identity in refl)

-- The preparation never refuses: the home directory it makes is that of the resolved identity,
-- with mode 0750 and the user's numbers, and it reports whether an entry was added and why not.
pub prepare_in_container-report :
    (has_bash : Bool) (uid gid : ℕ) (user_name : Option Text) (c : Container)
    → (prepare_in_container has_bash uid gid user_name c).1
        ≡ some (report_of (plan_for c (prepare_spec has_bash uid gid user_name)))
      × ((run has_bash uid gid user_name c).homes
          ≡ home_dir (resolve_identity (passwd_of c) uid gid user_name) ∷ c.homes)
prepare_in_container-report has_bash uid gid user_name c =
    let spec = prepare_spec has_bash uid gid user_name in
    let (h, u, g) = plan_home (passwd_of c) (read_or_default c.group) spec in
    let (ok, homes) =
      apply_plan-homes (plan_for c spec) c
        (rw h (resolve_identity-IsHome (passwd_of c) uid gid (configured user_name))) in
    (
      unfold prepare_in_container in rw ok,
      rw run-prepared (
          homes
          ∙ ap (λ (d : HomeDir). d ∷ c.homes) (sym (home_dir-plan c has_bash uid gid user_name))),
    )

module _ (has_bash : Bool) (uid gid : ℕ) (user_name : Option Text) (c : Container)
    (r : Ready (passwd_of c) (prepare_spec has_bash uid gid user_name)) where
  -- After the preparation /etc/passwd has an entry of the uid.
  prepare_in_container-has_entry :
      any (of_uid uid) (parse_passwd (passwd_of (run has_bash uid gid user_name c))) ≡ true
  prepare_in_container-has_entry =
      rw run-prepared (prepared_has_entry c (prepare_spec has_bash uid gid user_name) r)

  prepare_in_container-resolved :
      resolve_identity (passwd_of (run has_bash uid gid user_name c)) uid gid user_name
      ≡ resolve_identity (passwd_of c) uid gid user_name
  prepare_in_container-resolved =
      rw (run-prepared, ← identity-configured)
        (prepared_identity c (prepare_spec has_bash uid gid user_name) r
          ∙ identity-configured (passwd_of c) uid gid user_name)

  -- If /etc/passwd is `Ready` for the user, it has an entry of the uid after the preparation; the
  -- identity that is resolved in the prepared container is the one that was resolved before; and the
  -- preparation has made one directory, the home of this identity, with mode 0750 and the numbers.
  pub prepare_in_container-identity :
      let after = run has_bash uid gid user_name c in
      (any (of_uid uid) (parse_passwd (passwd_of after)) ≡ true)
      × (resolve_identity (passwd_of after) uid gid user_name
          ≡ resolve_identity (passwd_of c) uid gid user_name)
      × (after.homes ≡ home_dir (resolve_identity (passwd_of after) uid gid user_name) ∷ c.homes)
  prepare_in_container-identity = (
    prepare_in_container-has_entry,
    prepare_in_container-resolved,
    rw prepare_in_container-resolved (prepare_in_container-report has_bash uid gid user_name c).1,
  )

  -- A second preparation leaves /etc/passwd and /etc/group as the first one left them.
  pub prepare_in_container-twice :
      let once = run has_bash uid gid user_name c in
      ((run has_bash uid gid user_name once).passwd ≡ once.passwd)
      × ((run has_bash uid gid user_name once).group ≡ once.group)
  prepare_in_container-twice =
      rw (run-prepared, run-prepared) (prepared_twice c (prepare_spec has_bash uid gid user_name) r)

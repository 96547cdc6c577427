-- ===== src/Incontainer/Tests.antt =====
-- The preparation of a container as podman creates it, and runs of the other parts.
use easytidy.Prelude.{◌≡◌, refl, true, false, not, none, some, [], ◌∷◌, ◌++◌, arith}
use easytidy.Lists.{any, retain, find}
use easytidy.Text.{Text, codes, text_eq, lines, splitn, parse_u32}
use easytidy.Text.Split.{Free-of-any}
use easytidy.Incontainer.{
  Container, PasswdLine, parse_passwd, parse_passwd_line, rewrite_file, resolve_identity,
  prepare_in_container, prepare_spec, listed,
}
use easytidy.Incontainer.Plan.{Ready, of_uid, plan_for, passwd_of}
use easytidy.Incontainer.Home.{IsHome, resolve_identity-IsHome}
use easytidy.Incontainer.Passwd.{parse_passwd-rewrite_file}
use easytidy.Incontainer.Prepare.{
  run, report_of, home_dir, prepare_in_container-report, prepare_in_container-identity,
  prepare_in_container-twice,
}
use easytidy.Incontainer.Ownership.{Entries, cons, nil, file, dir, Repair, walk}
use easytidy.Incontainer.Ownership.Walk.{clean, at_mounts, walk-clean}
use mathlib.Core.List.{filter_map}

abbrev passwd_file : Text
passwd_file = codes "root:x:0:0:root:/root:/bin/bash\n1000:*:1000:1000:container user:/:/bin/sh\n"

abbrev fresh : Container
fresh = record {
  passwd = some passwd_file;
  group = some (codes "root:x:0:\n");
  homes = [];
  host_fonts = false;
  fontconf_dir = false;
  fontconfig = none;
}

ready : Ready passwd_file (prepare_spec true 1000 1000 none)
unfolding any find parse_passwd parse_passwd_line retain filter_map lines splitn parse_u32 text_eq
ready = record {
  no_cr = Free-of-any b'\r' passwd_file refl;
  uid_fits = omega arith;
  gid_fits = omega arith;
  name_ok = tt;
  shell_ok =
      (Free-of-any b'\n' (codes "/bin/bash") refl, Free-of-any b'\r' (codes "/bin/bash") refl);
  coherent = λ e. cc;
  sole = λ e. refl;
}

identity_example :
    let after = run true 1000 1000 none fresh in
    (any (of_uid 1000) (parse_passwd (passwd_of after)) ≡ true)
    × (resolve_identity (passwd_of after) 1000 1000 none
        ≡ resolve_identity (passwd_of fresh) 1000 1000 none)
    × (after.homes ≡ home_dir (resolve_identity (passwd_of after) 1000 1000 none) ∷ [])
identity_example = prepare_in_container-identity true 1000 1000 none fresh ready

report_example :
    ((prepare_in_container true 1000 1000 none fresh).1
      ≡ some (report_of (plan_for fresh (prepare_spec true 1000 1000 none))))
    × ((run true 1000 1000 none fresh).homes
        ≡ home_dir (resolve_identity (passwd_of fresh) 1000 1000 none) ∷ [])
report_example = prepare_in_container-report true 1000 1000 none fresh

twice_example :
    let once = run true 1000 1000 none fresh in
    ((run true 1000 1000 none once).passwd ≡ once.passwd)
    × ((run true 1000 1000 none once).group ≡ once.group)
twice_example = prepare_in_container-twice true 1000 1000 none fresh ready

home_example : IsHome (resolve_identity passwd_file 1000 1000 none).home
home_example = resolve_identity-IsHome passwd_file 1000 1000 none

rewrite_example :
    parse_passwd (rewrite_file passwd_file (codes "1000" ∷ []) none)
    ≡ retain
        (λ (e : PasswdLine). not (listed (codes "1000" ∷ []) e.name))
        (parse_passwd passwd_file)
      ++ filter_map parse_passwd_line []
unfolding any
rewrite_example =
    parse_passwd-rewrite_file passwd_file (codes "1000" ∷ []) none
      (Free-of-any b'\r' passwd_file refl) tt

-- Root's entry, an unknown owner's file, and a mounted directory.
abbrev tree : Entries
tree =
    cons (file (codes "a") 0 0)
      (cons (file (codes "b") 5 5) (cons (dir (codes "m") 7 7 true nil) nil))

abbrev repair : Repair
repair = record { uid = 1000; gid = 1000; known_uids = 0 ∷ 1000 ∷ []; mounts = codes "/h/m" ∷ [] }

clean_example :
    (clean repair (codes "/h") (walk repair (codes "/h") tree 0).0 ≡ true)
    × (at_mounts repair (codes "/h") (walk repair (codes "/h") tree 0).0
        ≡ at_mounts repair (codes "/h") tree)
clean_example = walk-clean repair (codes "/h") tree

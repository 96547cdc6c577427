-- ===== src/Desktop/Export.antt =====
-- What `remove_passthrough` and `list_passthrough` find of the entries that `write_passthrough` wrote.
use mathlib.Core.Path.{subst}
use easytidy.Prelude.{
  Bool, true, false, ◌≡◌, ◌≢◌, refl, ap, sym, ◌∙◌, Option, none, some, List, [], ◌∷◌, ◌++◌, arith,
}
use easytidy.Lists.{find, any, retain, find-last, find-last_none}
use easytidy.Text.{Text, codes, text_eq, starts_with, strip_prefix}
use easytidy.Text.Split.{text_eq_refl, text_eq_iff}
use easytidy.Desktop.{
  PassthroughSpec, generate_passthrough_content, passthrough_file_name, safe_name,
}
use easytidy.Desktop.Content.{IsSpec}
use easytidy.Desktop.Fields.{has_mark, parse_own, mark-app_id, mark-container}
use easytidy.Desktop.Folders.{
  File, Folder, present, HostFolders, not_exported, done, failed, named, put, delete,
  write_desktop_file, write_copy, write_entry, write_passthrough, create_applications, ends_with,
  exported_content, matches_app, delete_copy, remove_passthrough,
}

put-fresh :
    (name content : Text) (fs : List File)
    → any (named name) fs ≡ false
    → put name content fs ≡ fs ++ ((name, some content) ∷ [])
unfolding put any
put-fresh name content [] h = refl
put-fresh name content (f ∷ fs) h = ground (arith, put-fresh name content fs)

delete-fresh : (name : Text) (fs : List File) → any (named name) fs ≡ false → delete name fs ≡ fs
unfolding delete any retain
delete-fresh name [] h = refl
delete-fresh name (f ∷ fs) h = ground (arith, delete-fresh name fs)

delete-last :
    (name content : Text) (fs : List File)
    → any (named name) fs ≡ false
    → delete name (fs ++ ((name, some content) ∷ [])) ≡ fs
unfolding delete any retain
delete-last name content [] h = rw (text_eq_refl name) refl
delete-last name content (f ∷ fs) h = ground (arith, delete-last name content fs)

ends_with_self : (p : Text) → ends_with p p ≡ true
unfolding ends_with
ends_with_self [] = text_eq_refl []
ends_with_self (x ∷ p) = rw (text_eq_refl (x ∷ p)) refl

ends_with-behind : (p a s : Text) → ends_with p s ≡ true → ends_with p (a ++ s) ≡ true
unfolding ends_with
ends_with-behind p [] s h = h
ends_with-behind p (x ∷ a) s h = ground (arith, ends_with-behind p a s h)

passthrough_file_name-ends :
    (container app_id : Text)
    → ends_with (codes ".desktop") (passthrough_file_name container app_id) ≡ true
unfolding passthrough_file_name
passthrough_file_name-ends container app_id = ends_with-behind _ (codes "easytidy-pt-") _ (
    ends_with-behind _ container _
      (ends_with-behind _ (b'-' ∷ safe_name app_id) _ (ends_with_self (codes ".desktop"))))

passthrough_file_name-starts :
    (container app_id : Text)
    → starts_with (codes "easytidy-pt-") (passthrough_file_name container app_id) ≡ true
unfolding passthrough_file_name strip_prefix
passthrough_file_name-starts container app_id = refl

-- The file that `write_passthrough` writes.
abbrev pub exported : PassthroughSpec → File
exported spec =
    (passthrough_file_name spec.container spec.app_id, some (generate_passthrough_content spec))

module _ (spec : PassthroughSpec) (s : IsSpec spec) where
  pub exported_content-exported :
      exported_content (exported spec) ≡ some (generate_passthrough_content spec)
  unfolding exported_content
  exported_content-exported =
      rw
        (
          passthrough_file_name-starts spec.container spec.app_id,
          passthrough_file_name-ends spec.container spec.app_id,
          has_mark spec s,
        )
        refl

  matches_app-id :
      (app_id : Text)
      → matches_app spec.container app_id (exported spec) ≡ text_eq spec.app_id app_id
  unfolding matches_app
  matches_app-id app_id =
      rw
        (
          matches_app,
          exported_content-exported,
          parse_own spec s (codes "-easytidy-container="),
          mark-container spec,
          parse_own spec s (codes "-easytidy-app-id="),
          mark-app_id spec,
        )
        refl

  pub matches_app-own : matches_app spec.container spec.app_id (exported spec) ≡ true
  matches_app-own = matches_app-id spec.app_id ∙ text_eq_refl spec.app_id

  -- For another id the written file is no match.
  pub matches_app-other :
      (app_id : Text)
      → app_id ≢ spec.app_id
      → matches_app spec.container app_id (exported spec) ≡ false
  matches_app-other app_id ne =
      rw (matches_app-id app_id) (ground (arith, text_eq_iff spec.app_id app_id))

-- `h` with an applications folder that can be written.
abbrev pub with_files : List File → Option Folder → HostFolders
with_files fs desktop = record {
  applications = present (record { files = fs; writable = true });
  desktop = desktop;
}

-- No file of the name.
abbrev pub LacksFile : Text → Option Folder → Type 0
LacksFile name none = Unit {0}
LacksFile name (some dd) = any (named name) dd.files ≡ false

folder_copy_removed :
    (name content : Text) (desktop_icon writable : Bool) (fs : List File)
    → any (named name) fs ≡ false
    → delete_copy
        (write_copy desktop_icon (some (record { files = fs; writable = writable })) name content)
        name
      ≡ some (record { files = fs; writable = writable })
unfolding write_copy write_desktop_file
folder_copy_removed name content false true fs h = rw (delete-fresh name fs h) refl
folder_copy_removed name content false false fs h = refl
folder_copy_removed name content true true fs h =
    rw (put-fresh name content fs h, delete-last name content fs h) refl
folder_copy_removed name content true false fs h = refl

copy_removed :
    (name content : Text) (desktop_icon : Bool) (desktop : Option Folder)
    → LacksFile name desktop
    → delete_copy (write_copy desktop_icon desktop name content) name ≡ desktop
copy_removed name content false none h = unfold write_copy in refl
copy_removed name content true none h = unfold write_copy in refl
copy_removed name content b (some dd) h = folder_copy_removed name content b dd.writable dd.files h

write_passthrough-put :
    (spec : PassthroughSpec) (fs : List File) (desktop : Option Folder) (desktop_icon : Bool)
    → write_passthrough (with_files fs desktop) spec desktop_icon ≡ (
      with_files
          (put
            (passthrough_file_name spec.container spec.app_id)
            (generate_passthrough_content spec)
            fs)
          (write_copy desktop_icon desktop
            (passthrough_file_name spec.container spec.app_id)
            (generate_passthrough_content spec)),
      done (passthrough_file_name spec.container spec.app_id),
    )
unfolding write_passthrough write_entry create_applications write_desktop_file
write_passthrough-put spec fs desktop b = refl

remove_passthrough-found :
    (container app_id : Text) (fs : List File) (desktop : Option Folder) (f : File)
    → find (matches_app container app_id) fs ≡ some f
    → remove_passthrough (with_files fs desktop) container app_id
      ≡ (with_files (delete f.0 fs) (delete_copy desktop f.0), done f.0)
unfolding remove_passthrough
remove_passthrough-found container app_id fs desktop f e = rw (remove_passthrough, e) refl

remove_passthrough-missed :
    (container app_id : Text) (fs : List File) (desktop : Option Folder)
    → find (matches_app container app_id) fs ≡ none
    → remove_passthrough (with_files fs desktop) container app_id
      ≡ (with_files fs desktop, failed (not_exported app_id))
unfolding remove_passthrough
remove_passthrough-missed container app_id fs desktop e = rw (remove_passthrough, e) refl

-- For an app whose container and id have no white space and whose program's path is one line, which
-- was not exported before, on a host whose applications folder can be written and where neither it
-- nor the desktop has a file of the entry's name: removing it takes exactly the written files away, in
-- the applications folder and on the desktop, and answers the path that the export answered.
pub remove_passthrough-write_passthrough :
    (spec : PassthroughSpec) (fs : List File) (desktop : Option Folder) (desktop_icon : Bool)
    → IsSpec spec
    → any (matches_app spec.container spec.app_id) fs ≡ false
    → any (named (passthrough_file_name spec.container spec.app_id)) fs ≡ false
    → LacksFile (passthrough_file_name spec.container spec.app_id) desktop
    → remove_passthrough
        (write_passthrough (with_files fs desktop) spec desktop_icon).0
        spec.container
        spec.app_id
      ≡ (with_files fs desktop, (write_passthrough (with_files fs desktop) spec desktop_icon).1)
remove_passthrough-write_passthrough spec fs desktop b s absent h k =
    let name = passthrough_file_name spec.container spec.app_id in
    let content = generate_passthrough_content spec in
    rw (write_passthrough-put spec fs desktop b, put-fresh name content fs h)
      (remove_passthrough-found spec.container spec.app_id _ _ (exported spec) (
          find-last (matches_app spec.container spec.app_id) fs (exported spec) absent
            (matches_app-own spec s))
        ∙ (rw (delete-last name content fs h, copy_removed name content b desktop k) refl))

put-again :
    (name old new : Text) (fs : List File)
    → any (named name) fs ≡ false
    → put name new (put name old fs) ≡ fs ++ ((name, some new) ∷ [])
unfolding put any
put-again name old new [] h = rw (text_eq_refl name) refl
put-again name old new (f ∷ fs) h = ground (arith, put-again name old new fs)

same_name :
    (c d i j : Text)
    → c ≡ d
    → safe_name i ≡ safe_name j
    → passthrough_file_name d j ≡ passthrough_file_name c i
unfolding passthrough_file_name
same_name c d i j e k = rw (e, k) refl

-- Two ids of one container that differ, but not in the characters that a file name keeps, get one
-- file: after both exports the first is not exported any more, and removing it is refused. The
-- container and the second id have no white space, the second program's path is one line, the first
-- id was not exported before, the applications folder can be written and has no file of the name.
pub write_passthrough-collides :
    (first second : PassthroughSpec) (fs : List File) (desktop : Option Folder) (a b : Bool)
    → IsSpec second
    → first.container ≡ second.container
    → first.app_id ≢ second.app_id
    → safe_name first.app_id ≡ safe_name second.app_id
    → any (matches_app first.container first.app_id) fs ≡ false
    → any (named (passthrough_file_name first.container first.app_id)) fs ≡ false
    → let h =
        (write_passthrough (write_passthrough (with_files fs desktop) first a).0 second b).0 in
      remove_passthrough h first.container first.app_id ≡ (h, failed (not_exported first.app_id))
write_passthrough-collides first second fs desktop a b s c ne e absent h =
    let n₁ = passthrough_file_name first.container first.app_id in
    let n₂ = passthrough_file_name second.container second.app_id in
    let old = generate_passthrough_content first in
    let new = generate_passthrough_content second in
    let m = matches_app first.container first.app_id in
    let same : n₂ ≡ n₁ =
      same_name first.container second.container first.app_id second.app_id c e in
    let other : m (exported second) ≡ false =
      subst (λ k. matches_app k first.app_id (exported second) ≡ false) (sym c)
        (matches_app-other second s first.app_id ne) in
    let gone : find m (put n₂ new (put n₁ old fs)) ≡ none =
      subst (λ n. find m (put n₂ new (put n old fs)) ≡ none) same
        (ap (find m) (put-again n₂ old new fs (subst (λ n. any (named n) fs ≡ false) (sym same) h))
          ∙ find-last_none m fs (exported second) absent other) in
    rw (write_passthrough-put first fs desktop a, write_passthrough-put second (put n₁ old fs) _ b)
      (remove_passthrough-missed first.container first.app_id _ _ gone)

-- ===== src/PathVars/Probe.antt =====
-- `needs_image_passwd`: where it says that the image's /etc/passwd is not needed, the expansion of
-- the mounts is the same with it and without it.
use easytidy.Prelude.{
  ℕ, zero, suc, ◌≡◌, ◌≢◌, refl, ap, ◌∙◌, inl, inr, true, false, List, [], ◌∷◌, ◌++◌, arith,
  Bool-cases, Option, none, some, append_assoc, sym,
}
use easytidy.Lists.{length, any}
use easytidy.Text.{Text, codes, strip_prefix, contains, split_once, text_eq}
use easytidy.Text.Split.{text_eq_iff}
use easytidy.Incontainer.{resolve_identity, name_and_home}
use easytidy.PathVars.{
  PathVars, MountConfig, value_of, expand_loop, expand_path, Round, copy, replace, copy_rest,
  unknown, replace_var, close_var, open_var, round, contains_var, needs_image_passwd, expand_mounts,
  container_path_vars,
}
use easytidy.PathVars.Expand.{
  Replaced, round-Replaced, loop_copy, loop_replace, loop_copy_rest, loop_unknown, strip_open,
  split_once-eq,
}

strip_prefix-append : (p s : Text) → strip_prefix p (p ++ s) ≡ some s
unfolding strip_prefix
strip_prefix-append [] s = refl
strip_prefix-append (x ∷ p) s = ground (arith, strip_prefix-append p s)

contains-drop : (p a s : Text) → contains p (a ++ s) ≡ false → contains p s ≡ false
unfolding contains
contains-drop p [] s h = h
contains-drop p (x ∷ a) s h = contains-drop p a s (ground arith)

contains-front : (p s : Text) → contains p (p ++ s) ≡ true
unfolding contains
contains-front [] [] = unfold strip_prefix in refl
contains-front [] (x ∷ s) = unfold strip_prefix in refl
contains-front (x ∷ p) s = ground (arith, strip_prefix-append (x ∷ p) s)

-- Neither `${HOME}` nor `${USER}` occurs.
record NoNames (s : Text) : Type 0 where
  no_home : contains_var s (codes "HOME") ≡ false
  no_user : contains_var s (codes "USER") ≡ false

NoNames-drop : (a s : Text) → NoNames (a ++ s) → NoNames s
unfolding contains_var
NoNames-drop a s n = record {
  no_home = contains-drop _ a s n.no_home;
  no_user = contains-drop _ a s n.no_user;
}

named_there :
    (s name var after : Text)
    → s ≡ b'$' ∷ (b'{' ∷ (var ++ (b'}' ∷ after)))
    → var ≡ name
    → contains_var s name ≡ true
unfolding contains_var
named_there s name var after e v =
    rw (e, v, ← append_assoc name (codes "}") after)
      (contains-front (codes "${" ++ (name ++ codes "}")) after)

-- A variable that stands in the text is none of the names that do not.
not_named :
    (s name var after : Text)
    → contains_var s name ≡ false
    → s ≡ b'$' ∷ (b'{' ∷ (var ++ (b'}' ∷ after)))
    → text_eq var name ≡ false
not_named s name var after h e = elim (Bool-cases (text_eq var name)) [
  | inr f ↦ f
  | inl q ↦ cc (sym h ∙ named_there s name var after e ((text_eq_iff var name).0 q))
]

module _ (pv pv' : PathVars) (same_uid : pv.uid ≡ pv'.uid) (same_gid : pv.gid ≡ pv'.gid) where
  value_of-same :
      (var : Text)
      → text_eq var (codes "HOME") ≡ false
      → text_eq var (codes "USER") ≡ false
      → value_of pv var ≡ value_of pv' var
  unfolding value_of
  value_of-same var h u = rw (h, u, same_uid, same_gid)

  named-same :
      (s body : Text) (cut : Option (Text × Text))
      → NoNames s
      → s ≡ b'$' ∷ (b'{' ∷ body)
      → split_once b'}' body ≡ cut
      → close_var pv cut ≡ close_var pv' cut
  unfolding close_var
  named-same s body none n e k = refl
  named-same s body (some (var, after)) n e k =
      let reads = e ∙ ap (λ (b : Text). b'$' ∷ (b'{' ∷ b)) (split_once-eq b'}' body k) in
      ap (replace_var var after) (
        value_of-same var (not_named s (codes "HOME") var after n.no_home reads)
          (not_named s (codes "USER") var after n.no_user reads))

  opened-same :
      (s : Text) (o : Option Text)
      → NoNames s
      → strip_prefix (codes "${") s ≡ o
      → open_var pv o ≡ open_var pv' o
  unfolding open_var
  opened-same s none n e = refl
  opened-same s (some body) n e = named-same s body (split_once b'}' body) n (strip_open s e) refl

  round-same : (s : Text) → NoNames s → round pv s ≡ round pv' s
  unfolding round
  round-same s n = opened-same s (strip_prefix (codes "${") s) n refl

  NoNames-after : (s value after : Text) → NoNames s → Replaced pv s value after → NoNames after
  NoNames-after s value after n r =
      NoNames-drop (r.var ++ codes "}") after
        (NoNames-drop (codes "${") _ (rw (append_assoc r.var (codes "}") after, ← r.reads) n))

  expand_loop-same :
      (f : ℕ) (s out : Text) → NoNames s → expand_loop f s pv out ≡ expand_loop f s pv' out
  expand_loop-same zero s out n = unfold expand_loop in refl
  expand_loop-same (suc f) [] out n = unfold expand_loop in refl
  expand_loop-same (suc f) (c ∷ rest) out n =
      split (round pv (c ∷ rest)) refl
        (λ o. expand_loop-same f rest o (NoNames-drop (c ∷ []) rest n))
        (λ after o m. expand_loop-same f after o m)
    where
      split :
          (r : Round)
          → round pv (c ∷ rest) ≡ r
          → ((o : Text) → expand_loop f rest pv o ≡ expand_loop f rest pv' o)
          → ((after o : Text)
              → NoNames after
              → expand_loop f after pv o ≡ expand_loop f after pv' o)
          → expand_loop (suc f) (c ∷ rest) pv out ≡ expand_loop (suc f) (c ∷ rest) pv' out
      split copy e ih jh =
          loop_copy f c rest pv out e
          ∙ ih _
          ∙ sym (loop_copy f c rest pv' out (sym (round-same (c ∷ rest) n) ∙ e))
      split (replace value after) e ih jh =
          loop_replace f c rest pv out e
          ∙ jh after _ (NoNames-after (c ∷ rest) value after n (round-Replaced pv (c ∷ rest) e))
          ∙ sym (loop_replace f c rest pv' out (sym (round-same (c ∷ rest) n) ∙ e))
      split copy_rest e ih jh =
          loop_copy_rest f c rest pv out e
          ∙ sym (loop_copy_rest f c rest pv' out (sym (round-same (c ∷ rest) n) ∙ e))
      split (unknown v) e ih jh =
          loop_unknown f c rest pv out e
          ∙ sym (loop_unknown f c rest pv' out (sym (round-same (c ∷ rest) n) ∙ e))

  expand_path-same : (s : Text) → NoNames s → expand_path s pv ≡ expand_path s pv'
  unfolding expand_path
  expand_path-same s n = expand_loop-same (suc (length s)) s [] n

  expand_mounts-same :
      (ms : List MountConfig) (host : PathVars)
      → needs_image_passwd ms none ≡ false
      → expand_mounts ms host pv ≡ expand_mounts ms host pv'
  unfolding expand_mounts needs_image_passwd any
  expand_mounts-same [] host h = refl
  expand_mounts-same (m ∷ ms) host h =
      rw
        (expand_path-same m.container_path
          (record { no_home = ground arith; no_user = ground arith }))
        (rw (expand_mounts-same ms host (ground arith)))

container_path_vars-named :
    (uid gid : ℕ) (x : ℕ) (n pw : Text)
    → container_path_vars uid gid (some (x ∷ n)) (some pw)
      ≡ container_path_vars uid gid (some (x ∷ n)) none
unfolding container_path_vars resolve_identity name_and_home
container_path_vars-named uid gid x n pw = refl

same_numbers :
    (uid gid : ℕ) (u : Option Text) (pw : Text)
    → ((container_path_vars uid gid u none).uid ≡ (container_path_vars uid gid u (some pw)).uid)
      × ((container_path_vars uid gid u none).gid ≡ (container_path_vars uid gid u (some pw)).gid)
unfolding container_path_vars
same_numbers uid gid u pw = (refl, refl)

-- If `needs_image_passwd` answers no and the configured name, if any, is not empty, then reading
-- the image's /etc/passwd would not change how the mounts expand, errors included.
pub needs_image_passwd-expand_mounts :
    (ms : List MountConfig) (host : PathVars) (uid gid : ℕ) (user_name : Option Text) (pw : Text)
    → needs_image_passwd ms user_name ≡ false
    → user_name ≢ some []
    → expand_mounts ms host (container_path_vars uid gid user_name none)
      ≡ expand_mounts ms host (container_path_vars uid gid user_name (some pw))
needs_image_passwd-expand_mounts ms host uid gid none pw h k =
    let (u, g) = same_numbers uid gid none pw in expand_mounts-same _ _ u g ms host h
needs_image_passwd-expand_mounts ms host uid gid (some []) pw h k = absurd (k refl)
needs_image_passwd-expand_mounts ms host uid gid (some (x ∷ n)) pw h k =
    rw (container_path_vars-named uid gid x n pw)

-- ===== src/Incontainer/Ownership/Walk.antt =====
-- What the walk leaves: owners, mount points, and a second walk.
use easytidy.Prelude.{
  ℕ, ◌≡◌, refl, true, false, Bool, not, ◌&&◌, ◌||◌, List, [], ◌∷◌, ◌++◌, arith, ◌==◌, if◌then◌else◌,
}
use easytidy.Text.{Text}
use easytidy.Incontainer.Ownership.{
  Entry, symlink, opaque_entry, file, dir, Entries, nil, cons, Repair, name_of, dangling, path_in,
  mounted, new_uid, counted, walk, walk_entry,
}
use easytidy.Lists.{any}

-- The owner is an account, or the user.
abbrev pub owned : Repair → ℕ → Bool
owned s u = not (dangling s u) || u == s.uid

-- Every entry that is reached with no mount point on the way, and is no symbolic link, is owned
-- by an account or the user.
unfoldable mutual
  pub clean : Repair → Text → Entries → Bool
  clean s parent nil = true
  clean s parent (cons e es) = clean_entry s (path_in parent (name_of e)) e && clean s parent es

  pub clean_entry : Repair → Text → Entry → Bool
  clean_entry s path (symlink n) = true
  clean_entry s path (opaque_entry n) = true
  clean_entry s path (file n u g) = mounted s path || owned s u
  clean_entry s path (dir n u g readable es) =
      mounted s path || (owned s u && (not readable || clean s path es))

-- The entries at the mount points, with all that is below them.
unfoldable mutual
  pub at_mounts : Repair → Text → Entries → List Entry
  at_mounts s parent nil = []
  at_mounts s parent (cons e es) =
      at_mounts_entry s (path_in parent (name_of e)) e ++ at_mounts s parent es

  pub at_mounts_entry : Repair → Text → Entry → List Entry
  at_mounts_entry s path (symlink n) = []
  at_mounts_entry s path (opaque_entry n) = []
  at_mounts_entry s path (file n u g) = if mounted s path then file n u g ∷ [] else []
  at_mounts_entry s path (dir n u g readable es) =
      let below = at_mounts s path es in
      if mounted s path then dir n u g readable es ∷ [] else below

owned-new_uid : (s : Repair) (u : ℕ) → owned s (new_uid s u) ≡ true
owned-new_uid s u = ground arith

name_of-walk_entry :
    (s : Repair) (path : Text) (e : Entry) (n : ℕ) → name_of (walk_entry s path e n).0 ≡ name_of e
unfolding walk_entry
name_of-walk_entry s path (symlink k) n = refl
name_of-walk_entry s path (opaque_entry k) n = refl
name_of-walk_entry s path (file k u g) n = ground arith
name_of-walk_entry s path (dir k u g r es) n = ground arith

mutual
  unfolding walk walk_entry clean clean_entry

  clean-walk :
      (s : Repair) (parent : Text) (es : Entries) (n : ℕ)
      → clean s parent (walk s parent es n).0 ≡ true
  clean-walk s parent nil n = refl
  clean-walk s parent (cons e es) n = rw name_of-walk_entry (
      ground (
        arith,
        clean-walk_entry s (path_in parent (name_of e)) e n,
        clean-walk s parent es (walk_entry s (path_in parent (name_of e)) e n).1,
      ))

  clean-walk_entry :
      (s : Repair) (path : Text) (e : Entry) (n : ℕ)
      → clean_entry s path (walk_entry s path e n).0 ≡ true
  clean-walk_entry s path (symlink k) n = refl
  clean-walk_entry s path (opaque_entry k) n = refl
  clean-walk_entry s path (file k u g) n = ground (arith, owned-new_uid s u)
  clean-walk_entry s path (dir k u g r es) n =
      ground (arith, owned-new_uid s u, clean-walk s path es (counted s u n))

mutual
  unfolding walk walk_entry at_mounts at_mounts_entry

  at_mounts-walk :
      (s : Repair) (parent : Text) (es : Entries) (n : ℕ)
      → at_mounts s parent (walk s parent es n).0 ≡ at_mounts s parent es
  at_mounts-walk s parent nil n = refl
  at_mounts-walk s parent (cons e es) n = rw name_of-walk_entry (
      ground (
        arith,
        at_mounts-walk_entry s (path_in parent (name_of e)) e n,
        at_mounts-walk s parent es (walk_entry s (path_in parent (name_of e)) e n).1,
      ))

  at_mounts-walk_entry :
      (s : Repair) (path : Text) (e : Entry) (n : ℕ)
      → at_mounts_entry s path (walk_entry s path e n).0 ≡ at_mounts_entry s path e
  at_mounts-walk_entry s path (symlink k) n = refl
  at_mounts-walk_entry s path (opaque_entry k) n = refl
  at_mounts-walk_entry s path (file k u g) n = ground arith
  at_mounts-walk_entry s path (dir k u g r es) n =
      ground (arith, at_mounts-walk s path es (counted s u n))

-- The user is one of the accounts.
abbrev pub KnowsUser : Repair → Type 0
KnowsUser s = any (λ k. k == s.uid) s.known_uids ≡ true

new_uid-known : (s : Repair) (u : ℕ) → KnowsUser s → dangling s (new_uid s u) ≡ false
new_uid-known s u h = ground arith

mutual
  unfolding walk walk_entry

  walk-twice :
      (s : Repair) (parent : Text) (es : Entries) (n m : ℕ)
      → KnowsUser s
      → walk s parent (walk s parent es n).0 m ≡ ((walk s parent es n).0, m)
  walk-twice s parent nil n m h = refl
  walk-twice s parent (cons e es) n m h = rw name_of-walk_entry (
      ground (
        arith,
        walk_entry-twice s (path_in parent (name_of e)) e n m h,
        walk-twice s parent es (walk_entry s (path_in parent (name_of e)) e n).1 m h,
      ))

  walk_entry-twice :
      (s : Repair) (path : Text) (e : Entry) (n m : ℕ)
      → KnowsUser s
      → walk_entry s path (walk_entry s path e n).0 m ≡ ((walk_entry s path e n).0, m)
  walk_entry-twice s path (symlink k) n m h = refl
  walk_entry-twice s path (opaque_entry k) n m h = refl
  walk_entry-twice s path (file k u g) n m h = ground (arith, new_uid-known s u h)
  walk_entry-twice s path (dir k u g r es) n m h =
      ground (arith, new_uid-known s u h, walk-twice s path es (counted s u n) m h)

-- After the walk every reached entry is owned by an account or by the user, and what stands at the
-- mount points, with all below, is as it was.
pub walk-clean :
    (s : Repair) (home : Text) (es : Entries)
    → (clean s home (walk s home es 0).0 ≡ true)
      × (at_mounts s home (walk s home es 0).0 ≡ at_mounts s home es)
walk-clean s home es = (clean-walk s home es 0, at_mounts-walk s home es 0)

-- If the user is one of the accounts, a second walk changes no entry and counts none.
pub walk-settled :
    (s : Repair) (home : Text) (es : Entries)
    → KnowsUser s
    → walk s home (walk s home es 0).0 0 ≡ ((walk s home es 0).0, 0)
walk-settled s home es h = walk-twice s home es 0 0 h

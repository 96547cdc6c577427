-- ===== src/Incontainer/Ownership.antt =====
-- `repair_home_dangling_ownership_walk` of crates/core/src/env/incontainer.rs, on a tree of
-- directory entries. A `chown` succeeds.
pub mod Walk
use easytidy.Prelude.{
  ℕ, ◌+◌, ◌≡◌, refl, ap, ◌∙◌, ◌⊎◌, inl, inr, true, false, Bool, not, List, [], ◌∷◌, ◌++◌, arith,
  ◌==◌, Bool-cases, if◌then◌else◌,
}
use easytidy.Lists.{any}
use easytidy.Text.{Text, text_eq}

-- `opaque_entry` is one whose metadata cannot be read. The flag of a directory says whether
-- `read_dir` succeeds on it.
mutual
  pub data Entry : Type 0 where
    symlink : Text → Entry
    opaque_entry : Text → Entry
    file : Text → ℕ → ℕ → Entry
    dir : Text → ℕ → ℕ → Bool → Entries → Entry

  pub data Entries : Type 0 where
    nil : Entries
    cons : Entry → Entries → Entries

pub record Repair : Type 0 where
  pub uid : ℕ
  pub gid : ℕ
  pub known_uids : List ℕ
  pub mounts : List Text

abbrev pub name_of : Entry → Text
name_of (symlink n) = n
name_of (opaque_entry n) = n
name_of (file n u g) = n
name_of (dir n u g r es) = n

abbrev pub dangling : Repair → ℕ → Bool
dangling s owner = not (any (λ k. k == owner) s.known_uids)

abbrev pub path_in : Text → Text → Text
path_in parent n = parent ++ (b'/' ∷ n)

abbrev pub mounted : Repair → Text → Bool
mounted s path = any (λ m. text_eq m path) s.mounts

abbrev pub new_uid : Repair → ℕ → ℕ
new_uid s u = if dangling s u then s.uid else u

abbrev pub new_gid : Repair → ℕ → ℕ → ℕ
new_gid s u g = if dangling s u then s.gid else g

abbrev pub counted : Repair → ℕ → ℕ → ℕ
counted s u fixed = if dangling s u then fixed + 1 else fixed

-- The last number is `*fixed`. What `entry` is handed is its path.
unfoldable mutual
  pub walk : Repair → Text → Entries → ℕ → Entries × ℕ
  walk s parent nil fixed = (nil, fixed)
  walk s parent (cons e es) fixed =
      let (e', fixed') = walk_entry s (path_in parent (name_of e)) e fixed in
      let (es', fixed'') = walk s parent es fixed' in (cons e' es', fixed'')

  pub walk_entry : Repair → Text → Entry → ℕ → Entry × ℕ
  walk_entry s path (symlink n) fixed = (symlink n, fixed)
  walk_entry s path (opaque_entry n) fixed = (opaque_entry n, fixed)
  walk_entry s path (file n u g) fixed =
      if mounted s path
      then (file n u g, fixed)
      else (file n (new_uid s u) (new_gid s u g), counted s u fixed)
  walk_entry s path (dir n u g readable es) fixed =
      let (es', fixed') = walk s path es (counted s u fixed) in
      if mounted s path
      then (dir n u g readable es, fixed)
      else if readable
      then (dir n (new_uid s u) (new_gid s u g) readable es', fixed')
      else (dir n (new_uid s u) (new_gid s u g) readable es, counted s u fixed)

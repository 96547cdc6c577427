-- ===== src/Podman/Rebuild.antt =====
-- crates/core/src/podman/mod.rs, `rebuild_with_commit`, `restore_original` and `start_and_confirm`. The
-- engine that answers the requests is the record `Engine`. Socket directories, log lines and the
-- body of the create request are not modelled; an error is told by the step that failed.

pub mod Survival
use easytidy.Prelude.{
  ℕ, zero, suc, Bool, true, false, Option, none, some, ◌++◌, ◌≡◌, ◌≢◌, ◌⊎◌, inl, inr, if◌then◌else◌,
}
use easytidy.Text.{Text, codes}

-- The engine, with what the documentation says of which containers there are. The second
-- component of an answer says whether the request succeeded.
pub record Engine : Type 1 where
  pub State : Type 0
  pub exists : State → Text → Bool
  -- Whether the container is there and easytidy's own; `none` is an error, here and in
  -- `is_running`.
  pub has_easytidy_container : State → Text → Option Bool
  pub is_running : State → Text → Option Bool
  pub stop : State → Text → State × Bool
  pub start : State → Text → State × Bool
  pub commit : State → Text → State × Bool
  pub dock_bootstrap : State → Text → State × Bool
  pub dock_alive : State → Text → Bool
  pub sleep : State → State
  -- A connection for the commit.
  pub connect : State → Bool
  -- The second name is that of the new container; `none` is an error.
  pub create_named : State → Text → Text → State × Option Text
  pub native_rebuild : State → Text → Text → State × Option Text
  pub remove : State → Text → State × Bool
  pub rename : State → Text → Text → State × Bool
  pub stop_keeps : (s : State) (n m : Text) → exists (stop s n).0 m ≡ exists s m
  pub start_keeps : (s : State) (n m : Text) → exists (start s n).0 m ≡ exists s m
  pub commit_keeps : (s : State) (n m : Text) → exists (commit s n).0 m ≡ exists s m
  pub dock_bootstrap_keeps : (s : State) (n m : Text) → exists (dock_bootstrap s n).0 m ≡ exists s m
  pub sleep_keeps : (s : State) (m : Text) → exists (sleep s) m ≡ exists s m
  -- Creating takes no container away.
  pub create_keeps :
      (s : State) (n t m : Text) → exists s m ≡ true → exists (create_named s n t).0 m ≡ true
  pub create_makes :
      (s : State) (n t id : Text)
      → (create_named s n t).1 ≡ some id
      → exists (create_named s n t).0 t ≡ true
  pub remove_other : (s : State) (n m : Text) → m ≢ n → exists (remove s n).0 m ≡ exists s m
  pub remove_fails :
      (s : State) (n m : Text) → (remove s n).1 ≡ false → exists (remove s n).0 m ≡ exists s m
  pub rename_makes :
      (s : State) (t n : Text) → (rename s t n).1 ≡ true → exists (rename s t n).0 n ≡ true
  pub rename_fails :
      (s : State) (t n m : Text) → (rename s t n).1 ≡ false → exists (rename s t n).0 m ≡ exists s m
  -- The native endpoint replaces the container in one request: after a success it has the name,
  -- after a failure the old one or the new one is left.
  pub native_makes :
      (s : State) (n t id : Text)
      → (native_rebuild s n t).1 ≡ some id
      → exists (native_rebuild s n t).0 n ≡ true
  pub native_fails :
      (s : State) (n t : Text)
      → (native_rebuild s n t).1 ≡ none
      → exists s n ≡ true
      → (exists (native_rebuild s n t).0 n ≡ true) ⊎ (exists (native_rebuild s n t).0 t ≡ true)

pub data RebuildError : Type 0 where
  request_failed quick_failed commit_failed create_failed not_ready not_removed not_renamed :
      RebuildError

pub data Rebuilt : Type 0 where
  done : Text → Rebuilt
  failed : RebuildError → Rebuilt

-- `format!("{name}_tmp")`
abbrev pub tmp_name : Text → Text
tmp_name name = name ++ codes "_tmp"

module _ (e : Engine) where
  -- `restore_original`: a container that is not known to run is started, whatever comes of it.
  unfoldable pub restore_original : e.State → Text → e.State
  restore_original s name = elim (e.is_running s name) [
    | some true ↦ s
    | some false ↦ (e.start s name).0
    | none ↦ (e.start s name).0
  ]

  -- `for _ in 0..n { if self.is_running(name).await? { .. } sleep }`; `none` is an error.
  unfoldable pub wait_running : ℕ → e.State → Text → e.State × Option Bool
  wait_running zero s name = (s, some false)
  wait_running (suc n) s name = elim (e.is_running s name) [
    | none ↦ (s, none)
    | some true ↦ (s, some true)
    | some false ↦ wait_running n (e.sleep s) name
  ]

  unfoldable pub wait_alive : ℕ → e.State → Text → e.State × Bool
  wait_alive zero s name = (s, false)
  wait_alive (suc n) s name = elim (e.dock_alive s name) [
    | true ↦ (s, true)
    | false ↦ wait_alive n (e.sleep s) name
  ]

  -- Behind the start: the container runs, and its daemon answers.
  unfoldable pub confirm : e.State → Text → e.State × Bool
  unfolding wait_running wait_alive
  confirm s name = elim ((wait_running 30 s name).1) [
    | none ↦ ((wait_running 30 s name).0, false)
    | some false ↦ ((wait_running 30 s name).0, false)
    | some true ↦ wait_alive 30 (e.dock_bootstrap (wait_running 30 s name).0 name).0 name
  ]

  unfoldable pub start_and_confirm : e.State → Text → e.State × Bool
  unfolding confirm
  start_and_confirm s name = elim ((e.start s name).1) [
    | false ↦ ((e.start s name).0, false)
    | true ↦ confirm (e.start s name).0 name
  ]

  -- Steps 5 and 6: the old container goes, and the new one gets its name.
  unfoldable pub swap : e.State → Text → Text → e.State × Rebuilt
  unfolding restore_original
  swap s name id = elim ((e.remove s name).1) [
    | false ↦
        (restore_original (e.remove (e.remove s name).0 (tmp_name name)).0 name, failed not_removed)
    | true ↦ elim ((e.rename (e.remove s name).0 (tmp_name name) name).1) [
      | false ↦ ((e.rename (e.remove s name).0 (tmp_name name) name).0, failed not_renamed)
      | true ↦ ((e.rename (e.remove s name).0 (tmp_name name) name).0, done id)
    ]
  ]

  -- Step 4: the new container is started and confirmed, or removed again.
  unfoldable pub start_new : e.State → Text → Text → e.State × Rebuilt
  unfolding start_and_confirm swap restore_original
  start_new s name id = elim ((start_and_confirm s (tmp_name name)).1) [
    | false ↦ (
      restore_original (e.remove (start_and_confirm s (tmp_name name)).0 (tmp_name name)).0 name,
      failed not_ready,
    )
    | true ↦ swap (start_and_confirm s (tmp_name name)).0 name id
  ]

  -- Steps 2 and 3 with `squash`: the commit, and the new container under the other name.
  unfoldable pub rebuild_flat : e.State → Text → e.State × Rebuilt
  unfolding start_new restore_original
  rebuild_flat s name = elim (e.connect s) [
    | false ↦ (s, failed request_failed)
    | true ↦ elim ((e.commit s name).1) [
      | false ↦ (restore_original (e.commit s name).0 name, failed commit_failed)
      | true ↦ elim ((e.create_named (e.commit s name).0 name (tmp_name name)).1) [
        | none ↦ (
          restore_original (e.create_named (e.commit s name).0 name (tmp_name name)).0 name,
          failed create_failed,
        )
        | some id ↦ start_new (e.create_named (e.commit s name).0 name (tmp_name name)).0 name id
      ]
    ]
  ]

  -- Without `squash`: one request to the native endpoint. Whether the new container is confirmed changes nothing.
  unfoldable pub rebuild_quick : e.State → Text → e.State × Rebuilt
  unfolding start_and_confirm
  rebuild_quick s name = elim ((e.native_rebuild s name (tmp_name name)).1) [
    | none ↦ ((e.native_rebuild s name (tmp_name name)).0, failed quick_failed)
    | some id ↦ ((start_and_confirm (e.native_rebuild s name (tmp_name name)).0 name).0, done id)
  ]

  -- Step 1: the old container is stopped if it runs.
  unfoldable pub stop_and_rebuild : e.State → Text → Bool → e.State × Rebuilt
  unfolding rebuild_flat rebuild_quick
  stop_and_rebuild s name squash = elim (e.is_running s name) [
    | none ↦ (s, failed request_failed)
    | some false ↦ if squash then rebuild_flat s name else rebuild_quick s name
    | some true ↦ elim ((e.stop s name).1) [
      | false ↦ ((e.stop s name).0, failed request_failed)
      | true ↦
          if squash
          then rebuild_flat (e.stop s name).0 name
          else rebuild_quick (e.stop s name).0 name
    ]
  ]

  -- Step 0 in front: what an interrupted rebuild has left is removed.
  unfoldable pub rebuild_with_commit : e.State → Text → Bool → e.State × Rebuilt
  unfolding stop_and_rebuild
  rebuild_with_commit s name squash = elim (e.has_easytidy_container s (tmp_name name)) [
    | none ↦ (s, failed request_failed)
    | some false ↦ stop_and_rebuild s name squash
    | some true ↦ elim ((e.remove s (tmp_name name)).1) [
      | false ↦ ((e.remove s (tmp_name name)).0, failed request_failed)
      | true ↦ stop_and_rebuild (e.remove s (tmp_name name)).0 name squash
    ]
  ]

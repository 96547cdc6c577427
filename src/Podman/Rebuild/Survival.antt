-- ===== src/Podman/Rebuild/Survival.antt =====
-- A rebuild does not lose the container.
use easytidy.Prelude.{
  ℕ, zero, suc, Bool, true, false, Option, none, some, [], ◌∷◌, ◌++◌, ◌≡◌, ◌≢◌, refl, sym, ◌∙◌, ◌⊎◌,
  if◌then◌else◌,
}
use easytidy.Text.{Text}
use easytidy.Podman.Rebuild.{
  Engine, quick_failed, not_renamed, Rebuilt, done, failed, tmp_name, restore_original,
  wait_running, wait_alive, confirm, start_and_confirm, swap, start_new, rebuild_flat,
  rebuild_quick, stop_and_rebuild, rebuild_with_commit,
}

append-ne : (a : Text) (x : ℕ) (t : Text) → a ≢ a ++ (x ∷ t)
append-ne [] x t e = cc e
append-ne (y ∷ a) x t e = append-ne a x t (tail e)
  where
    tail : {b : Text} → y ∷ a ≡ y ∷ b → a ≡ b
    tail p = cc

module _ (e : Engine) where
  -- Which container there is for sure, by how the rebuild ended.
  abbrev pub Survives : e.State → Text → Rebuilt → Type 0
  Survives s name (done id) = e.exists s name ≡ true
  Survives s name (failed not_renamed) = e.exists s (tmp_name name) ≡ true
  Survives s name (failed quick_failed) =
      (e.exists s name ≡ true) ⊎ (e.exists s (tmp_name name) ≡ true)
  Survives s name (failed _) = e.exists s name ≡ true

  restore_keeps :
      (s : e.State) (name m : Text) → e.exists (restore_original e s name) m ≡ e.exists s m
  unfolding restore_original
  restore_keeps s name m = split (e.is_running s name) refl
    where
      split :
          (o : Option Bool)
          → e.is_running s name ≡ o
          → e.exists (restore_original e s name) m ≡ e.exists s m
      split none k = rw (restore_original, k) (e.start_keeps s name m)
      split (some false) k = rw (restore_original, k) (e.start_keeps s name m)
      split (some true) k = rw (restore_original, k) refl

  wait_running_keeps :
      (n : ℕ) (s : e.State) (name m : Text) → e.exists (wait_running e n s name).0 m ≡ e.exists s m
  unfolding wait_running
  wait_running_keeps zero s name m = refl
  wait_running_keeps (suc n) s name m =
      split (wait_running_keeps n (e.sleep s) name m) (e.is_running s name) refl
    where
      split :
          e.exists (wait_running e n (e.sleep s) name).0 m ≡ e.exists (e.sleep s) m
          → (o : Option Bool) → e.is_running s name ≡ o
          → e.exists (wait_running e (suc n) s name).0 m ≡ e.exists s m
      split ih none k = rw (wait_running, k) refl
      split ih (some true) k = rw (wait_running, k) refl
      split ih (some false) k = rw (wait_running, k) (ih ∙ e.sleep_keeps s m)

  wait_alive_keeps :
      (n : ℕ) (s : e.State) (name m : Text) → e.exists (wait_alive e n s name).0 m ≡ e.exists s m
  unfolding wait_alive
  wait_alive_keeps zero s name m = refl
  wait_alive_keeps (suc n) s name m =
      split (wait_alive_keeps n (e.sleep s) name m) (e.dock_alive s name) refl
    where
      split :
          e.exists (wait_alive e n (e.sleep s) name).0 m ≡ e.exists (e.sleep s) m
          → (b : Bool) → e.dock_alive s name ≡ b
          → e.exists (wait_alive e (suc n) s name).0 m ≡ e.exists s m
      split ih true k = rw (wait_alive, k) refl
      split ih false k = rw (wait_alive, k) (ih ∙ e.sleep_keeps s m)

  confirm_keeps : (s : e.State) (name m : Text) → e.exists (confirm e s name).0 m ≡ e.exists s m
  unfolding confirm
  confirm_keeps s name m = split ((wait_running e 30 s name).1) refl
    where
      split :
          (o : Option Bool)
          → (wait_running e 30 s name).1 ≡ o
          → e.exists (confirm e s name).0 m ≡ e.exists s m
      split none k = rw (confirm, k) (wait_running_keeps 30 s name m)
      split (some false) k = rw (confirm, k) (wait_running_keeps 30 s name m)
      split (some true) k =
          rw (confirm, k)
            (wait_alive_keeps 30 _ name m
              ∙ e.dock_bootstrap_keeps _ name m
              ∙ wait_running_keeps 30 s name m)

  start_and_confirm_keeps :
      (s : e.State) (name m : Text) → e.exists (start_and_confirm e s name).0 m ≡ e.exists s m
  unfolding start_and_confirm
  start_and_confirm_keeps s name m = split ((e.start s name).1) refl
    where
      split :
          (b : Bool)
          → (e.start s name).1 ≡ b
          → e.exists (start_and_confirm e s name).0 m ≡ e.exists s m
      split false k = rw (start_and_confirm, k) (e.start_keeps s name m)
      split true k = rw (start_and_confirm, k) (confirm_keeps _ name m ∙ e.start_keeps s name m)

  module _ (name : Text) where
    abbrev Ends : e.State × Rebuilt → Type 0
    Ends r = Survives r.0 name r.1

    -- The name is another one than that of the new container.
    other_name : name ≢ tmp_name name
    other_name = append-ne name _ _

    swap_keeps :
        (s : e.State) (id : Text)
        → e.exists s name ≡ true
        → e.exists s (tmp_name name) ≡ true
        → Ends (swap e s name id)
    unfolding swap
    swap_keeps s id h t = split ((e.remove s name).1) refl
      where
        gone : e.exists (e.remove s name).0 (tmp_name name) ≡ true
        gone = e.remove_other s name (tmp_name name) (λ p. other_name (sym p)) ∙ t

        renamed :
            (e.remove s name).1 ≡ true
            → (b : Bool) → (e.rename (e.remove s name).0 (tmp_name name) name).1 ≡ b
            → Ends (swap e s name id)
        renamed k false r =
            rw (swap, k, r) (e.rename_fails _ (tmp_name name) name (tmp_name name) r ∙ gone)
        renamed k true r = rw (swap, k, r) (e.rename_makes _ (tmp_name name) name r)

        split : (b : Bool) → (e.remove s name).1 ≡ b → Ends (swap e s name id)
        split true k = renamed k ((e.rename (e.remove s name).0 (tmp_name name) name).1) refl
        split false k =
            rw (swap, k)
              (restore_keeps _ name name
                ∙ e.remove_other _ (tmp_name name) name other_name
                ∙ e.remove_fails s name name k
                ∙ h)

    start_new_keeps :
        (s : e.State) (id : Text)
        → e.exists s name ≡ true
        → e.exists s (tmp_name name) ≡ true
        → Ends (start_new e s name id)
    unfolding start_new
    start_new_keeps s id h t = split ((start_and_confirm e s (tmp_name name)).1) refl
      where
        split :
            (b : Bool)
            → (start_and_confirm e s (tmp_name name)).1 ≡ b
            → Ends (start_new e s name id)
        split false k =
            rw (start_new, k)
              (restore_keeps _ name name
                ∙ e.remove_other _ (tmp_name name) name other_name
                ∙ start_and_confirm_keeps s (tmp_name name) name
                ∙ h)
        split true k =
            rw (start_new, k)
              (swap_keeps _ id (start_and_confirm_keeps s (tmp_name name) name ∙ h)
                (start_and_confirm_keeps s (tmp_name name) (tmp_name name) ∙ t))

    flat_keeps : (s : e.State) → e.exists s name ≡ true → Ends (rebuild_flat e s name)
    unfolding rebuild_flat
    flat_keeps s h = connected (e.connect s) refl
      where
        kept : e.exists (e.commit s name).0 name ≡ true
        kept = e.commit_keeps s name name ∙ h

        made :
            e.connect s ≡ true
            → (e.commit s name).1 ≡ true
            → (o : Option Text) → (e.create_named (e.commit s name).0 name (tmp_name name)).1 ≡ o
            → Ends (rebuild_flat e s name)
        made c k none o =
            rw (rebuild_flat, c, k, o)
              (restore_keeps _ name name ∙ e.create_keeps _ name (tmp_name name) name kept)
        made c k (some id) o =
            rw (rebuild_flat, c, k, o)
              (start_new_keeps _ id (e.create_keeps _ name (tmp_name name) name kept)
                (e.create_makes _ name (tmp_name name) id o))

        committed :
            e.connect s ≡ true → (b : Bool) → (e.commit s name).1 ≡ b → Ends (rebuild_flat e s name)
        committed c false k = rw (rebuild_flat, c, k) (restore_keeps _ name name ∙ kept)
        committed c true k =
            made c k ((e.create_named (e.commit s name).0 name (tmp_name name)).1) refl

        connected : (b : Bool) → e.connect s ≡ b → Ends (rebuild_flat e s name)
        connected false c = rw (rebuild_flat, c) h
        connected true c = committed c ((e.commit s name).1) refl

    quick_keeps : (s : e.State) → e.exists s name ≡ true → Ends (rebuild_quick e s name)
    unfolding rebuild_quick
    quick_keeps s h = split ((e.native_rebuild s name (tmp_name name)).1) refl
      where
        split :
            (o : Option Text)
            → (e.native_rebuild s name (tmp_name name)).1 ≡ o
            → Ends (rebuild_quick e s name)
        split none k = rw (rebuild_quick, k) (e.native_fails s name (tmp_name name) k h)
        split (some id) k =
            rw (rebuild_quick, k)
              (start_and_confirm_keeps _ name name ∙ e.native_makes s name (tmp_name name) id k)

    chosen_keeps :
        (squash : Bool) (s : e.State)
        → e.exists s name ≡ true
        → Ends (if squash then rebuild_flat e s name else rebuild_quick e s name)
    chosen_keeps true s h = flat_keeps s h
    chosen_keeps false s h = quick_keeps s h

    stop_keeps :
        (s : e.State) (squash : Bool)
        → e.exists s name ≡ true
        → Ends (stop_and_rebuild e s name squash)
    unfolding stop_and_rebuild
    stop_keeps s squash h = running (e.is_running s name) refl
      where
        stopped :
            e.is_running s name ≡ some true
            → (b : Bool) → (e.stop s name).1 ≡ b
            → Ends (stop_and_rebuild e s name squash)
        stopped r false k = rw (stop_and_rebuild, r, k) (e.stop_keeps s name name ∙ h)
        stopped r true k =
            rw (stop_and_rebuild, r, k)
              (chosen_keeps squash (e.stop s name).0 (e.stop_keeps s name name ∙ h))

        running :
            (o : Option Bool) → e.is_running s name ≡ o → Ends (stop_and_rebuild e s name squash)
        running none r = rw (stop_and_rebuild, r) h
        running (some false) r = rw (stop_and_rebuild, r) (chosen_keeps squash s h)
        running (some true) r = stopped r ((e.stop s name).1) refl

    -- However a rebuild of a container that is there ends, the container is not lost: after a
    -- success there is a container of the name; after a failed renaming the new one is there
    -- under its other name; after a failure of the native endpoint one of both is there; and
    -- after any other failure the old one still is.
    pub rebuild_with_commit-Survives :
        (s : e.State) (squash : Bool)
        → e.exists s name ≡ true
        → Survives
            (rebuild_with_commit e s name squash).0
            name
            (rebuild_with_commit e s name squash).1
    unfolding rebuild_with_commit
    rebuild_with_commit-Survives s squash h = left (e.has_easytidy_container s (tmp_name name)) refl
      where
        kept : e.exists (e.remove s (tmp_name name)).0 name ≡ true
        kept = e.remove_other s (tmp_name name) name other_name ∙ h

        cleared :
            e.has_easytidy_container s (tmp_name name) ≡ some true
            → (b : Bool) → (e.remove s (tmp_name name)).1 ≡ b
            → Ends (rebuild_with_commit e s name squash)
        cleared r false k = rw (rebuild_with_commit, r, k) kept
        cleared r true k = rw (rebuild_with_commit, r, k) (stop_keeps _ squash kept)

        left :
            (o : Option Bool)
            → e.has_easytidy_container s (tmp_name name) ≡ o
            → Ends (rebuild_with_commit e s name squash)
        left none r = rw (rebuild_with_commit, r) h
        left (some false) r = rw (rebuild_with_commit, r) (stop_keeps s squash h)
        left (some true) r = cleared r ((e.remove s (tmp_name name)).1) refl

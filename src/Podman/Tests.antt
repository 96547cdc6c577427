-- ===== src/Podman/Tests.antt =====
-- A rebuild with an engine of two flags, and the mounts of a container with a target given twice.
use easytidy.Prelude.{
  ◌+◌, ◌≤◌, ◌≡◌, ◌≢◌, refl, Bool, true, false, none, some, List, [], ◌∷◌, ◌++◌, inl, if◌then◌else◌,
  Bool-cases, inr, ◌||◌, map,
}
use easytidy.Lists.{count, All, any, find}
use easytidy.Text.{Text, codes, text_eq}
use easytidy.Text.Split.{text_eq_iff, text_eq_refl}
use easytidy.PathVars.{MountConfig}
use easytidy.Podman.Images.{
  pos, all_digits, rebuild_image_tag, safe_container_name, rebuild_image_repo, rebuild_entry,
  ImageSummary, RebuildImageEntry, of_container, entries_of, plan_rebuild_cleanup,
}
use easytidy.Podman.Images.Cleanup.{FromRebuild, plan_rebuild_cleanup-spares}
use easytidy.Podman.Images.Cleanup.Newest.{spares}
use easytidy.Podman.Images.Tag.{rebuild_entry-rebuild_image_tag}
use easytidy.Podman.Mounts.{Distinct, targets, reverse, dedup_mounts, dedup_mounts-Distinct}
use easytidy.Podman.Rebuild.{Engine, rebuild_with_commit}
use easytidy.Podman.Rebuild.Survival.{Survives, rebuild_with_commit-Survives}

abbrev mount : Text → Text → MountConfig
mount host target = record { host_path = host; container_path = target; read_only = false }

abbrev mounts : List MountConfig
mounts =
    mount (codes "/template") (codes "/data")
    ∷ mount (codes "/home") (codes "/home")
    ∷ mount (codes "/mine") (codes "/data")
    ∷ []

dedup_example :
    Distinct (dedup_mounts mounts)
    × (find (targets (codes "/data")) (dedup_mounts mounts)
        ≡ find (targets (codes "/data")) (reverse mounts))
dedup_example = dedup_mounts-Distinct mounts (codes "/data") refl

-- The containers that there are, by their names; every request succeeds.
abbrev Names : Type 0
Names = Text → Bool

abbrev with_name : Names → Text → Names
with_name s n m = if text_eq m n then true else s m

abbrev without_name : Names → Text → Names
without_name s n m = if text_eq m n then false else s m

with_keeps : (s : Names) (t m : Text) → s m ≡ true → with_name s t m ≡ true
with_keeps s t m h = elim (Bool-cases (text_eq m t)) [ inl e ↦ rw e refl | inr e ↦ rw e h ]

with_makes : (s : Names) (t : Text) → with_name s t t ≡ true
with_makes s t = rw (text_eq_refl t) refl

without_other : (s : Names) (n m : Text) → m ≢ n → without_name s n m ≡ s m
without_other s n m h = elim (Bool-cases (text_eq m n)) [
  | inl e ↦ absurd (h ((text_eq_iff m n).0 e))
  | inr e ↦ rw e refl
]

cannot : {P : Type 0} → ◌≡◌ {A = Bool} true false → P
cannot h = cc h

cannot_none : {P : Type 0} {t : Text} → some t ≡ none → P
cannot_none h = cc h

abbrev names : Engine
names = record {
  State = Names;
  exists = λ s m. s m;
  has_easytidy_container = λ s n. some (s n);
  is_running = λ s n. some (s n);
  stop = λ s n. (s, true);
  start = λ s n. (s, true);
  commit = λ s n. (s, true);
  dock_bootstrap = λ s n. (s, true);
  dock_alive = λ s n. true;
  sleep = λ s. s;
  connect = λ s. true;
  create_named = λ s n t. (with_name s t, some (codes "id"));
  native_rebuild = λ s n t. (with_name s n, some (codes "id"));
  remove = λ s n. (without_name s n, true);
  rename = λ s t n. (with_name (without_name s t) n, true);
  stop_keeps = λ s n m. refl;
  start_keeps = λ s n m. refl;
  commit_keeps = λ s n m. refl;
  dock_bootstrap_keeps = λ s n m. refl;
  sleep_keeps = λ s m. refl;
  create_keeps = λ s n t m h. with_keeps s t m h;
  create_makes = λ s n t id h. with_makes s t;
  remove_other = λ s n m h. without_other s n m h;
  remove_fails = λ s n m h. cannot h;
  rename_makes = λ s t n h. with_makes (without_name s t) n;
  rename_fails = λ s t n m h. cannot h;
  native_makes = λ s n t id h. with_makes s n;
  native_fails = λ s n t h k. cannot_none h;
}

-- The container and what an interrupted rebuild has left of it.
abbrev interrupted : Names
interrupted m = text_eq m (codes "dev") || text_eq m (codes "dev_tmp")

survival_example :
    Survives names
      (rebuild_with_commit names interrupted (codes "dev") true).0
      (codes "dev")
      (rebuild_with_commit names interrupted (codes "dev") true).1
unfolding text_eq
survival_example = rebuild_with_commit-Survives names (codes "dev") interrupted true refl

abbrev image : Text → ImageSummary
image tag = record { id = tag; repo_tags = tag ∷ []; size = 5; created = pos 7 }

abbrev old_tag : Text
old_tag = codes "localhost/easytidy-rebuild:my-box-20240101000000000"

abbrev new_tag : Text
new_tag = codes "localhost/easytidy-rebuild:my-box-20240102000000000"

abbrev images : List ImageSummary
images = image (codes "docker.io/library/debian:12") ∷ image old_tag ∷ image new_tag ∷ []

-- The older image of the two is the redundant one.
old_is_redundant : map (λ r. r.tag) (plan_rebuild_cleanup images) ≡ old_tag ∷ []
unfolding plan_rebuild_cleanup
old_is_redundant = refl

spares_example :
    (kept : List RebuildImageEntry) × ((p : RebuildImageEntry → Bool)
      → count p kept + count p (plan_rebuild_cleanup images) ≡ count p (entries_of images))
    × ((name : Text) → count (of_container name) kept ≤ 1)
    × All (λ r. any (spares r) kept ≡ true) (plan_rebuild_cleanup images)
    × All FromRebuild (plan_rebuild_cleanup images)
spares_example = plan_rebuild_cleanup-spares images

tag_example :
    rebuild_entry (image new_tag)
    ≡ some (record {
      id = (image new_tag).id;
      tag =
          rebuild_image_repo
          ++ (b':' ∷ rebuild_image_tag (codes "my-box") (codes "20240102000000000"));
      container_name = safe_container_name (codes "my-box");
      size = (image new_tag).size;
      created = (image new_tag).created;
    })
unfolding all_digits rebuild_image_tag safe_container_name
tag_example =
    rebuild_entry-rebuild_image_tag (image new_tag) (codes "my-box") (codes "20240102000000000") []
      refl refl refl

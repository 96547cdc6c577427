-- ===== src/Podman/Images/Cleanup.antt =====
-- What the cleanup of rebuild images spares.
mod Order
pub mod Newest
mod Counts
use easytidy.Prelude.{
  ℕ, ◌+◌, ◌≤◌, suc, if◌then◌else◌, arith, ◌∙◌, ap, Bool, true, false, not, Bool-cases, inl, inr,
  ◌&&◌, ◌≡◌, refl, Option, none, some, List, [], ◌∷◌, ◌++◌,
}
use easytidy.Lists.{
  count, count-append, drop, find, find-holds, All, All-retain, All-append, All-drop, All-imp,
  retain-All, any, retain,
}
use easytidy.Text.{Text, codes, text_eq, starts_with, split_once}
use easytidy.Text.Split.{text_eq_iff, text_eq_refl}
use easytidy.Text.Order.{text_lt, text_lt_asym, text_le_trans}
use easytidy.Podman.Images.{
  ImageSummary, RebuildImageEntry, rebuild_image_repo, rebuild_entry, entry_named, entry_ref,
  parse_rebuild_ref, tag_timestamp, entries_of, insert_entry, sort_entries, of_container,
  containers_of, group_of, redundant_of, plan_rebuild_cleanup,
}
use easytidy.Podman.Images.Cleanup.Order.{NotBefore, Descending, All-sort, sort-Descending}
use easytidy.Podman.Images.Cleanup.Newest.{newest_of, spares, Of, group_of-Of, redundant_of-Spared}
use easytidy.Podman.Images.Cleanup.Counts.{
  occurs, grouped-once, newest-redundant, containers_of-once, containers_of-covers, newest_of-one,
}

-- A tag of the repository of rebuilds.
abbrev pub FromRebuild : RebuildImageEntry → Type 0
FromRebuild r = starts_with (rebuild_image_repo ++ codes ":") r.tag ≡ true

redundant_of-All :
    (P : RebuildImageEntry → Type 0) (names : List Text) (es : List RebuildImageEntry)
    → All P es
    → All P (redundant_of names es)
unfolding redundant_of group_of
redundant_of-All P [] es h = tt
redundant_of-All P (name ∷ names) es h =
    let sorted =
      All-sort P (retain (of_container name) es) (All-retain P (of_container name) es h) in
    All-append P (drop 1 (group_of name es)) (redundant_of names es)
      (All-drop P 1 (group_of name es) sorted) (redundant_of-All P names es h)

abbrev OnSome : (RebuildImageEntry → Type 0) → Option RebuildImageEntry → Type 0
OnSome P none = Unit {0}
OnSome P (some e) = P e

module _ (P : RebuildImageEntry → Type 0) (img : ImageSummary) (tag : Text)
    (h : (e : RebuildImageEntry) → e.tag ≡ tag → P e) where
  entry_named-tag : (o : Option (Text × Text)) → OnSome P (entry_named img tag o)
  entry_named-tag none = tt
  entry_named-tag (some (name, ts)) = h _ refl

  entry_ref-tag : (o : Option (Text × Text)) → OnSome P (entry_ref img tag o)
  entry_ref-tag none = tt
  entry_ref-tag (some (repo, refname)) = entry_named-tag (parse_rebuild_ref refname)

entry_by-FromRebuild :
    (img : ImageSummary) (o : Option Text)
    → ((t : Text) → o ≡ some t → starts_with (rebuild_image_repo ++ codes ":") t ≡ true)
    → OnSome FromRebuild
        (elim o [ none ↦ none | some tag ↦ entry_ref img tag (split_once b':' tag) ])
entry_by-FromRebuild img none h = tt
entry_by-FromRebuild img (some t) h =
    entry_ref-tag FromRebuild img t (λ e k. rw k (h t refl)) (split_once b':' t)

rebuild_entry-FromRebuild : (img : ImageSummary) → OnSome FromRebuild (rebuild_entry img)
unfolding rebuild_entry
rebuild_entry-FromRebuild img =
    entry_by-FromRebuild img (find (starts_with (rebuild_image_repo ++ codes ":")) img.repo_tags)
      (λ t h. find-holds (starts_with (rebuild_image_repo ++ codes ":")) img.repo_tags h)

entries_of-step :
    (o : Option RebuildImageEntry) (es : List RebuildImageEntry)
    → OnSome FromRebuild o
    → All FromRebuild es
    → All FromRebuild (elim o [ none ↦ es | some e ↦ e ∷ es ])
entries_of-step none es h k = k
entries_of-step (some e) es h k = (h, k)

entries_of-FromRebuild : (images : List ImageSummary) → All FromRebuild (entries_of images)
unfolding entries_of
entries_of-FromRebuild [] = tt
entries_of-FromRebuild (img ∷ imgs) =
    entries_of-step (rebuild_entry img) (entries_of imgs) (rebuild_entry-FromRebuild img)
      (entries_of-FromRebuild imgs)

-- The images of rebuilds fall apart into those that are planned for removal and those that are kept:
-- every test holds for as many of all as of both together. At most one of each container is kept;
-- each planned image has a kept one of the same container that is not older; and it has a tag of the
-- repository of rebuilds.
pub plan_rebuild_cleanup-spares :
    (images : List ImageSummary)
    → (kept : List RebuildImageEntry) × ((p : RebuildImageEntry → Bool)
        → count p kept + count p (plan_rebuild_cleanup images) ≡ count p (entries_of images))
      × ((name : Text) → count (of_container name) kept ≤ 1)
      × All (λ r. any (spares r) kept ≡ true) (plan_rebuild_cleanup images)
      × All FromRebuild (plan_rebuild_cleanup images)
unfolding plan_rebuild_cleanup
plan_rebuild_cleanup-spares images =
    let es = entries_of images in
    let names = containers_of es in
    (
      newest_of names es,
      λ p. newest-redundant p names es ∙ grouped-once p names es (containers_of-covers es),
      λ name. ground (arith, newest_of-one name names es, containers_of-once name es),
      redundant_of-Spared names es,
      redundant_of-All FromRebuild names es (entries_of-FromRebuild images),
    )

-- ===== src/Podman/Images/Cleanup/Counts.antt =====
-- How many images the cleanup of rebuilds keeps and plans.
use easytidy.Prelude.{
  ℕ, ◌+◌, ◌≤◌, suc, if◌then◌else◌, arith, ◌∙◌, ap, Bool, true, Bool-cases, inl, inr, ◌≡◌, refl,
  List, [], ◌∷◌, ◌++◌,
}
use easytidy.Lists.{count, count-append, drop, All, All-imp, any, retain}
use easytidy.Text.{Text, text_eq}
use easytidy.Text.Split.{text_eq_iff, text_eq_refl}
use easytidy.Podman.Images.{
  RebuildImageEntry, insert_entry, sort_entries, of_container, containers_of, group_of,
  redundant_of,
}
use easytidy.Podman.Images.Cleanup.Newest.{newest_of, Of, group_of-Of}

-- How often a container is named.
abbrev pub occurs : Text → List Text → ℕ
occurs name names = count (λ n. text_eq name n) names

module _ (p : RebuildImageEntry → Bool) where
  count-insert_entry :
      (e : RebuildImageEntry) (es : List RebuildImageEntry)
      → count p (insert_entry e es) ≡ count p (e ∷ es)
  unfolding insert_entry
  count-insert_entry e [] = refl
  count-insert_entry e (x ∷ es) = ground (arith, count-insert_entry e es)

  count-sort_entries : (es : List RebuildImageEntry) → count p (sort_entries es) ≡ count p es
  unfolding sort_entries
  count-sort_entries [] = refl
  count-sort_entries (e ∷ es) =
      count-insert_entry e (sort_entries es) ∙ ground (arith, count-sort_entries es)

  -- The images in the groups of the containers.
  abbrev grouped : List Text → List RebuildImageEntry → ℕ
  grouped [] es = 0
  grouped (name ∷ names) es = count p (retain (of_container name) es) + grouped names es

  grouped-none : (names : List Text) → grouped names [] ≡ 0
  unfolding retain
  grouped-none [] = refl
  grouped-none (name ∷ names) = omega (arith, grouped-none names)

  grouped-more :
      (names : List Text) (e : RebuildImageEntry) (es : List RebuildImageEntry)
      → grouped names (e ∷ es)
        ≡ (if p e then occurs e.container_name names else 0) + grouped names es
  unfolding retain
  grouped-more [] e es = ground arith
  grouped-more (name ∷ names) e es = ground (arith, grouped-more names e es)

  pub grouped-once :
      (names : List Text) (es : List RebuildImageEntry)
      → All (λ e. occurs e.container_name names ≡ 1) es
      → grouped names es ≡ count p es
  grouped-once names [] h = grouped-none names
  grouped-once names (e ∷ es) h =
      grouped-more names e es ∙ ground (arith, h.0, grouped-once names es h.1)

  split-group :
      (g : List RebuildImageEntry) (kept planned : List RebuildImageEntry)
      → count p (elim g [ [] ↦ kept | k ∷ rest ↦ k ∷ kept ]) + count p (drop 1 g ++ planned)
        ≡ count p g + (count p kept + count p planned)
  split-group [] kept planned = omega arith
  split-group (k ∷ rest) kept planned = ground (arith, count-append p rest planned)

  pub newest-redundant :
      (names : List Text) (es : List RebuildImageEntry)
      → count p (newest_of names es) + count p (redundant_of names es) ≡ grouped names es
  unfolding newest_of redundant_of group_of
  newest-redundant [] es = omega arith
  newest-redundant (name ∷ names) es =
      split-group (group_of name es) (newest_of names es) (redundant_of names es)
      ∙ ground
          (arith, count-sort_entries (retain (of_container name) es), newest-redundant names es)

-- Each container is named once.
pub containers_of-once :
    (name : Text) (es : List RebuildImageEntry)
    → occurs name (containers_of es) ≡ (if any (of_container name) es then 1 else 0)
unfolding containers_of any
containers_of-once name [] = refl
containers_of-once name (e ∷ es) = elim (Bool-cases (of_container name e)) [
  | inr h ↦ ground (
    arith,
    h,
    containers_of-once name es,
    text_eq_iff name e.container_name,
    text_eq_iff e.container_name name,
  )
  | inl h ↦
      let same : e.container_name ≡ name = (text_eq_iff e.container_name name).0 h in
      rw (same, text_eq_refl name)
        (elim (Bool-cases (any (of_container name) es)) [
          | inl k ↦ rw k (containers_of-once name es ∙ rw k refl)
          | inr k ↦ rw (k, text_eq_refl name) (ap suc (containers_of-once name es ∙ rw k refl))
        ])
]

own-any :
    (es : List RebuildImageEntry) → All (λ e. any (of_container e.container_name) es ≡ true) es
unfolding any
own-any [] = tt
own-any (e ∷ es) =
    (rw (text_eq_refl e.container_name) refl, All-imp (λ x h. ground (arith, h)) es (own-any es))

pub containers_of-covers :
    (es : List RebuildImageEntry) → All (λ e. occurs e.container_name (containers_of es) ≡ 1) es
containers_of-covers es =
    All-imp (λ e h. containers_of-once e.container_name es ∙ rw h refl) es (own-any es)

one-more :
    (name n : Text) (k : ℕ) (g kept : List RebuildImageEntry)
    → All (Of n) g
    → count (of_container name) kept ≤ k
    → count (of_container name) (elim g [ [] ↦ kept | e ∷ rest ↦ e ∷ kept ])
      ≤ (if text_eq name n then suc k else k)
one-more name n k [] kept h le = ground (arith, le)
one-more name n k (e ∷ rest) kept h le = ground (
  arith,
  le,
  h.0,
  text_eq_iff e.container_name n,
  text_eq_iff e.container_name name,
  text_eq_iff name n,
)

pub newest_of-one :
    (name : Text) (names : List Text) (es : List RebuildImageEntry)
    → count (of_container name) (newest_of names es) ≤ occurs name names
unfolding newest_of
newest_of-one name [] es = omega arith
newest_of-one name (n ∷ names) es =
    one-more name n (occurs name names) (group_of n es) (newest_of names es) (group_of-Of n es)
      (newest_of-one name names es)

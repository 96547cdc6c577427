-- ===== src/Podman/Images/Cleanup/Newest.antt =====
-- The newest image of each container beside the ones planned for removal.
use easytidy.Prelude.{Bool, true, not, Bool-cases, inl, inr, ◌&&◌, ◌≡◌, refl, List, [], ◌∷◌, ◌++◌}
use easytidy.Lists.{drop, All, All-append, All-imp, retain-All, any, retain}
use easytidy.Text.{Text, text_eq}
use easytidy.Text.Split.{text_eq_iff, text_eq_refl}
use easytidy.Text.Order.{text_lt}
use easytidy.Podman.Images.{RebuildImageEntry, tag_timestamp, of_container, group_of, redundant_of}
use easytidy.Podman.Images.Cleanup.Order.{NotBefore, Descending, All-sort, sort-Descending}

-- The newest image of each container, as the cleanup sorts them.
unfoldable pub newest_of : List Text → List RebuildImageEntry → List RebuildImageEntry
newest_of [] es = []
newest_of (name ∷ names) es = elim (group_of name es) [
  | [] ↦ newest_of names es
  | e ∷ rest ↦ e ∷ newest_of names es
]

-- An image of the same container that is not older than `r`.
abbrev pub spares : RebuildImageEntry → RebuildImageEntry → Bool
spares r k =
    text_eq k.container_name r.container_name
    && not (text_lt (tag_timestamp k.tag) (tag_timestamp r.tag))

abbrev pub Of : Text → RebuildImageEntry → Type 0
Of name e = of_container name e ≡ true

pub group_of-Of : (name : Text) (es : List RebuildImageEntry) → All (Of name) (group_of name es)
unfolding group_of
group_of-Of name es =
    All-sort (Of name) (retain (of_container name) es) (retain-All (of_container name) es)

group_of-Descending : (name : Text) (es : List RebuildImageEntry) → Descending (group_of name es)
unfolding group_of
group_of-Descending name es = sort-Descending (retain (of_container name) es)

-- An image of the same container is spared by one that is not older.
spares-head :
    (name : Text) (k r : RebuildImageEntry)
    → Of name k
    → Of name r
    → NotBefore k r
    → spares r k ≡ true
spares-head name k r h i n =
    rw
      (
        (text_eq_iff k.container_name name).0 h,
        (text_eq_iff r.container_name name).0 i,
        text_eq_refl name,
        n,
      )
      refl

abbrev Spared : List RebuildImageEntry → RebuildImageEntry → Type 0
Spared ks r = any (spares r) ks ≡ true

spares-tail :
    (name : Text) (k : RebuildImageEntry) (rest : List RebuildImageEntry)
    → Of name k
    → All (Of name) rest
    → All (NotBefore k) rest
    → All (λ r. spares r k ≡ true) rest
spares-tail name k [] h i n = tt
spares-tail name k (r ∷ rest) h i n =
    (spares-head name k r h i.0 n.0, spares-tail name k rest h i.1 n.1)

Spared-one :
    (k r : RebuildImageEntry) (ks : List RebuildImageEntry) → spares r k ≡ true → Spared (k ∷ ks) r
unfolding any
Spared-one k r ks h = rw h refl

Spared-more :
    (k r : RebuildImageEntry) (ks : List RebuildImageEntry) → Spared ks r → Spared (k ∷ ks) r
unfolding any
Spared-more k r ks h = elim (Bool-cases (spares r k)) [ inl e ↦ rw e refl | inr e ↦ rw e h ]

-- One group: `redundant_of` adds its tail and `newest_of` its head.
group-Spared :
    (name : Text) (names : List Text) (g es : List RebuildImageEntry)
    → All (Of name) g
    → Descending g
    → All (Spared (newest_of names es)) (redundant_of names es)
    → All
        (Spared (elim g [ [] ↦ newest_of names es | k ∷ rest ↦ k ∷ newest_of names es ]))
        (drop 1 g ++ redundant_of names es)
group-Spared name names [] es o d h = h
group-Spared name names (k ∷ rest) es o d h =
    All-append (Spared (k ∷ newest_of names es)) rest (redundant_of names es)
      (All-imp (λ r e. Spared-one k r (newest_of names es) e) rest
        (spares-tail name k rest o.0 o.1 d.0))
      (All-imp (λ r e. Spared-more k r (newest_of names es) e) (redundant_of names es) h)

pub redundant_of-Spared :
    (names : List Text) (es : List RebuildImageEntry)
    → All (Spared (newest_of names es)) (redundant_of names es)
unfolding newest_of redundant_of
redundant_of-Spared [] es = tt
redundant_of-Spared (name ∷ names) es =
    group-Spared name names (group_of name es) es (group_of-Of name es)
      (group_of-Descending name es) (redundant_of-Spared names es)

-- ===== src/Podman/Images/Cleanup/Order.antt =====
-- The images of a container as the cleanup orders them, newest first.
use easytidy.Prelude.{false, Bool-cases, inl, inr, ◌≡◌, List, [], ◌∷◌}
use easytidy.Lists.{All}
use easytidy.Text.{Text}
use easytidy.Text.Order.{text_lt, text_lt_asym, text_le_trans}
use easytidy.Podman.Images.{RebuildImageEntry, tag_timestamp, insert_entry, sort_entries}

abbrev stamp : RebuildImageEntry → Text
stamp e = tag_timestamp e.tag

-- Not older than the other.
abbrev pub NotBefore : RebuildImageEntry → RebuildImageEntry → Type 0
NotBefore k r = text_lt (stamp k) (stamp r) ≡ false

abbrev pub Descending : List RebuildImageEntry → Type 0
Descending [] = Unit {0}
Descending (e ∷ es) = All (NotBefore e) es × Descending es

module _ (P : RebuildImageEntry → Type 0) where
  All-insert :
      (e : RebuildImageEntry) (es : List RebuildImageEntry)
      → P e
      → All P es
      → All P (insert_entry e es)
  unfolding insert_entry
  All-insert e [] h k = (h, tt)
  All-insert e (x ∷ xs) h k = elim (Bool-cases (text_lt (stamp e) (stamp x))) [
    | inl d ↦ rw d (k.0, All-insert e xs h k.1)
    | inr d ↦ rw d (h, k)
  ]

  pub All-sort : (es : List RebuildImageEntry) → All P es → All P (sort_entries es)
  unfolding sort_entries
  All-sort [] h = tt
  All-sort (e ∷ es) h = All-insert e (sort_entries es) h.0 (All-sort es h.1)

All-after :
    (e x : RebuildImageEntry) (xs : List RebuildImageEntry)
    → NotBefore e x
    → All (NotBefore x) xs
    → All (NotBefore e) xs
All-after e x [] h k = tt
All-after e x (y ∷ ys) h k =
    (text_le_trans (stamp e) (stamp x) (stamp y) h k.0, All-after e x ys h k.1)

insert-Descending :
    (e : RebuildImageEntry) (es : List RebuildImageEntry)
    → Descending es
    → Descending (insert_entry e es)
unfolding insert_entry
insert-Descending e [] h = (tt, tt)
insert-Descending e (x ∷ xs) h = elim (Bool-cases (text_lt (stamp e) (stamp x))) [
  | inl d ↦ rw d (
    All-insert (NotBefore x) e xs (text_lt_asym (stamp e) (stamp x) d) h.0,
    insert-Descending e xs h.1,
  )
  | inr d ↦ rw d ((d, All-after e x xs d h.0), h)
]

pub sort-Descending : (es : List RebuildImageEntry) → Descending (sort_entries es)
unfolding sort_entries
sort-Descending [] = tt
sort-Descending (e ∷ es) = insert-Descending e (sort_entries es) (sort-Descending es)

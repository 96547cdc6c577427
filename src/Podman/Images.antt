-- ===== src/Podman/Images.antt =====
-- crates/core/src/podman/mod.rs: the names of the images that rebuilds make, and which of them are redundant. The
-- groups of `plan_rebuild_cleanup`, a hash map, are taken in the order in which their containers appear first.
pub mod Cleanup
pub mod Tag
use easytidy.Prelude.{
  ℕ, suc, Bool, true, false, not, ◌&&◌, ◌||◌, ◌==◌, leb, Option, none, some, List, [], ◌∷◌, ◌++◌,
  map, if◌then◌else◌,
}
use easytidy.Lists.{length, drop, find, any, retain}
use easytidy.Text.{
  Text, codes, is_empty, is_digit, text_eq, starts_with, strip_prefix, split, split_once,
}
use easytidy.Text.Order.{text_lt}

-- `i64`, of which nothing is computed here.
pub data ℤ : Type 0 where
  pos : ℕ → ℤ
  negsuc : ℕ → ℤ

pub record ImageSummary : Type 0 where
  pub id : Text
  pub repo_tags : List Text
  pub size : ℕ
  pub created : ℤ

pub record RebuildImageEntry : Type 0 where
  pub id : Text
  pub tag : Text
  pub container_name : Text
  pub size : ℕ
  pub created : ℤ

unfoldable pub all_digits : Text → Bool
all_digits [] = true
all_digits (c ∷ cs) = is_digit c && all_digits cs

-- The loop of `parse_rebuild_ref`: `front` is what stands before, `best` the last hit.
unfoldable pub parse_loop : Text → Option (Text × Text) → Text → Option (Text × Text)
unfolding all_digits
parse_loop front best [] = best
parse_loop front best (c ∷ rest) =
    parse_loop (front ++ (c ∷ []))
      (if c == b'-' && length rest == 17 && all_digits rest then some (front, rest) else best) rest

unfoldable pub parse_rebuild_ref : Text → Option (Text × Text)
unfolding parse_loop
parse_rebuild_ref refname = parse_loop [] none refname

abbrev last_or : Text → List Text → Text
last_or w [] = w
last_or w (v ∷ vs) = last_or v vs

-- `rsplit('-').next()`
unfoldable pub tag_timestamp : Text → Text
unfolding split
tag_timestamp tag = last_or [] (split b'-' tag)

abbrev pub rebuild_image_repo : Text
rebuild_image_repo = codes "localhost/easytidy-rebuild"

-- The characters of a container's name that a tag keeps; any other becomes `_`.
abbrev is_tag_char : ℕ → Bool
is_tag_char c =
    is_digit c
    || (leb b'A' c && leb c b'Z')
    || (leb b'a' c && leb c b'z')
    || c == b'_'
    || c == b'-'
    || c == b'.'

unfoldable pub safe_container_name : Text → Text
safe_container_name name = map (λ c. if is_tag_char c then c else b'_') name

-- `ts` is the clock's time in the format `%Y%m%d%H%M%S%3f`.
unfoldable pub rebuild_image_tag : Text → Text → Text
unfolding safe_container_name
rebuild_image_tag name ts = safe_container_name name ++ (b'-' ∷ ts)

-- The entry of an image of this tag, by the container's name and the timestamp.
abbrev pub entry_named : ImageSummary → Text → Option (Text × Text) → Option RebuildImageEntry
entry_named img tag none = none
entry_named img tag (some (name, ts)) = some (record {
  id = img.id;
  tag = tag;
  container_name = name;
  size = img.size;
  created = img.created;
})

-- The same by the two sides of the tag's first colon.
abbrev pub entry_ref : ImageSummary → Text → Option (Text × Text) → Option RebuildImageEntry
entry_ref img tag none = none
entry_ref img tag (some (repo, refname)) = entry_named img tag (parse_rebuild_ref refname)

unfoldable pub rebuild_entry : ImageSummary → Option RebuildImageEntry
unfolding find strip_prefix split_once parse_rebuild_ref
rebuild_entry img = elim (find (starts_with (rebuild_image_repo ++ codes ":")) img.repo_tags) [
  | none ↦ none
  | some tag ↦ entry_ref img tag (split_once b':' tag)
]

unfoldable pub entries_of : List ImageSummary → List RebuildImageEntry
unfolding rebuild_entry
entries_of [] = []
entries_of (img ∷ imgs) = elim (rebuild_entry img) [
  | none ↦ entries_of imgs
  | some e ↦ e ∷ entries_of imgs
]

-- A stable sort by descending timestamps.
unfoldable pub insert_entry : RebuildImageEntry → List RebuildImageEntry → List RebuildImageEntry
unfolding text_lt tag_timestamp
insert_entry e [] = e ∷ []
insert_entry e (x ∷ xs) =
    let rest = insert_entry e xs in
    if text_lt (tag_timestamp e.tag) (tag_timestamp x.tag) then x ∷ rest else e ∷ x ∷ xs

unfoldable pub sort_entries : List RebuildImageEntry → List RebuildImageEntry
unfolding insert_entry
sort_entries [] = []
sort_entries (e ∷ es) = insert_entry e (sort_entries es)

abbrev pub of_container : Text → RebuildImageEntry → Bool
of_container name e = text_eq e.container_name name

-- The containers, each once.
unfoldable pub containers_of : List RebuildImageEntry → List Text
unfolding any text_eq
containers_of [] = []
containers_of (e ∷ es) =
    let rest = containers_of es in
    if any (of_container e.container_name) es then rest else e.container_name ∷ rest

unfoldable pub group_of : Text → List RebuildImageEntry → List RebuildImageEntry
unfolding sort_entries retain text_eq
group_of name es = sort_entries (retain (of_container name) es)

unfoldable pub redundant_of : List Text → List RebuildImageEntry → List RebuildImageEntry
unfolding group_of
redundant_of [] es = []
redundant_of (name ∷ names) es = drop 1 (group_of name es) ++ redundant_of names es

unfoldable pub plan_rebuild_cleanup : List ImageSummary → List RebuildImageEntry
unfolding entries_of containers_of redundant_of
plan_rebuild_cleanup images = let es = entries_of images in redundant_of (containers_of es) es

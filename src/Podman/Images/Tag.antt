-- ===== src/Podman/Images/Tag.antt =====
-- `rebuild_image_tag` and `parse_rebuild_ref` of crates/core/src/podman/mod.rs: names of images.
use easytidy.Prelude.{
  ℕ, Bool, true, false, ◌&&◌, ◌==◌, ◌≡◌, refl, ap, ◌∙◌, Option, none, some, List, [], ◌∷◌, ◌++◌,
  arith,
}
use easytidy.Lists.{length, find}
use easytidy.Text.{Text, is_digit, strip_prefix, split_once}
use easytidy.Podman.Images.{
  ImageSummary, rebuild_image_repo, rebuild_entry, all_digits, parse_loop, parse_rebuild_ref,
  safe_container_name, rebuild_image_tag,
}

both : (a b : Bool) → (a && b) ≡ true → (a ≡ true) × (b ≡ true)
both true b h = (refl, h)
both false b h = cc

no_dash : (c : ℕ) → is_digit c ≡ true → (c == b'-') ≡ false
no_dash c h = ground arith

parse_loop-digits :
    (front t : Text) (best : Option (Text × Text))
    → all_digits t ≡ true
    → parse_loop front best t ≡ best
unfolding parse_loop all_digits
parse_loop-digits front [] best h = refl
parse_loop-digits front (c ∷ t) best h =
    rw (no_dash c (both (is_digit c) (all_digits t) h).0)
      (parse_loop-digits (front ++ (c ∷ [])) t best (both (is_digit c) (all_digits t) h).1)

append_one : (front a : Text) (x : ℕ) → (front ++ (x ∷ [])) ++ a ≡ front ++ (x ∷ a)
append_one [] a x = refl
append_one (f ∷ front) a x = ap (λ t. f ∷ t) (append_one front a x)

append_nil : (a : Text) → a ++ [] ≡ a
append_nil [] = refl
append_nil (x ∷ a) = ap (λ t. x ∷ t) (append_nil a)

parse_loop-last :
    (front a ts : Text) (best : Option (Text × Text))
    → length ts ≡ 17
    → all_digits ts ≡ true
    → parse_loop front best (a ++ (b'-' ∷ ts)) ≡ some (front ++ a, ts)
unfolding parse_loop
parse_loop-last front [] ts best n d =
    rw (parse_loop, ap (λ k. k == 17) n, d, append_nil front)
      (parse_loop-digits (front ++ (b'-' ∷ [])) ts (some (front, ts)) d)
parse_loop-last front (x ∷ a) ts best n d =
    parse_loop-last (front ++ (x ∷ [])) a ts _ n d ∙ ap (λ t. some (t, ts)) (append_one front a x)

-- What a rebuild of a container calls its image is read back as the container's name, with the
-- characters that a tag cannot have replaced, and the time, if the time is 17 digits.
pub parse_rebuild_ref-rebuild_image_tag :
    (name ts : Text)
    → length ts ≡ 17
    → all_digits ts ≡ true
    → parse_rebuild_ref (rebuild_image_tag name ts) ≡ some (safe_container_name name, ts)
unfolding parse_rebuild_ref rebuild_image_tag
parse_rebuild_ref-rebuild_image_tag name ts n d =
    parse_loop-last [] (safe_container_name name) ts none n d

-- An image of which the first tag is the one that a rebuild of a container gives it, at a time of 17
-- digits, has an entry in the cleanup: of the container's name, with the characters that a tag cannot
-- have replaced, and with the image's id, size and time.
pub rebuild_entry-rebuild_image_tag :
    (img : ImageSummary) (name ts : Text) (tags : List Text)
    → length ts ≡ 17
    → all_digits ts ≡ true
    → img.repo_tags ≡ (rebuild_image_repo ++ (b':' ∷ rebuild_image_tag name ts)) ∷ tags
    → rebuild_entry img
      ≡ some (record {
        id = img.id;
        tag = rebuild_image_repo ++ (b':' ∷ rebuild_image_tag name ts);
        container_name = safe_container_name name;
        size = img.size;
        created = img.created;
      })
unfolding rebuild_entry find strip_prefix split_once
rebuild_entry-rebuild_image_tag img name ts tags n d h =
    rw (h, parse_rebuild_ref-rebuild_image_tag name ts n d) refl

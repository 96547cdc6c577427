-- ===== src/Text/White.antt =====
-- `char::is_whitespace`, `str::trim` and `str::split_whitespace`.
use easytidy.Prelude.{ℕ, Bool, true, not, ◌&&◌, ◌||◌, ◌==◌, leb, if◌then◌else◌, List, [], ◌∷◌}
use easytidy.Lists.{retain}
use easytidy.Text.{Text, is_empty, cons_head}

unfoldable pub is_white : ℕ → Bool
is_white c =
    (leb 9 c && leb c 13)
    || c == 32
    || c == 133
    || c == 160
    || c == 5760
    || (leb 8192 c && leb c 8202)
    || c == 8232
    || c == 8233
    || c == 8239
    || c == 8287
    || c == 12288

-- `trim().is_empty()`
unfoldable pub all_white : Text → Bool
unfolding is_white
all_white [] = true
all_white (c ∷ cs) = is_white c && all_white cs

unfoldable pub trim_start : Text → Text
trim_start [] = []
trim_start (x ∷ xs) = if is_white x then trim_start xs else x ∷ xs

unfoldable pub trim_end : Text → Text
trim_end [] = []
trim_end (x ∷ xs) = let rest = trim_end xs in if is_empty rest && is_white x then [] else x ∷ rest

unfoldable pub trim : Text → Text
unfolding trim_start trim_end
trim s = trim_end (trim_start s)

-- `split(char::is_whitespace)`
unfoldable pub split_white : Text → List Text
split_white [] = [] ∷ []
split_white (x ∷ xs) =
    let rest = split_white xs in if is_white x then [] ∷ rest else cons_head x rest

-- `split_whitespace` drops the empty pieces of the split.
unfoldable pub words : Text → List Text
unfolding split_white
words s = retain (λ w. not (is_empty w)) (split_white s)

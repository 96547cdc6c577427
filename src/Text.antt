-- ===== src/Text.antt =====
-- Rust strings as lists of code points, with the `str` methods of the standard library that the
-- program calls: `split`, `splitn`, `split_once`, `lines`, `join`, `contains`, `strip_prefix`,
-- `parse::<u32>` and the decimal printing of integers.
pub mod Split
pub mod Lines
pub mod Decimal
pub mod White
pub mod Words
pub mod Order
use Prim.Native.Char.{code}
use easytidy.Prelude.{
  ℕ, zero, suc, ◌+◌, ◌-◌, ◌*◌, ◌/◌, ◌%◌, ◌^◌, Bool, true, false, ◌&&◌, ◌||◌, Option, none, some,
  List, [], ◌∷◌, ◌++◌, map, String, ◌≢◌, ltb, leb, ◌==◌, if◌then◌else◌,
}

abbrev pub Text : Type 0
Text = List ℕ

-- The code points of a literal. `String` has its own `[]` and `∷`.
abbrev pub codes : String → Text
codes String.[] = []
codes (String.◌∷◌ c s) = code c ∷ codes s

-- The character does not occur.
abbrev pub Free : ℕ → Text → Type 0
Free c [] = Unit {0}
Free c (x ∷ xs) = (x ≢ c) × Free c xs

unfoldable pub text_eq : Text → Text → Bool
text_eq [] [] = true
text_eq (x ∷ xs) (y ∷ ys) = x == y && text_eq xs ys
text_eq _ _ = false

abbrev pub is_empty : Text → Bool
is_empty [] = true
is_empty (x ∷ xs) = false

unfoldable pub strip_prefix : Text → Text → Option Text
strip_prefix [] s = some s
strip_prefix (p ∷ ps) [] = none
strip_prefix (p ∷ ps) (x ∷ xs) = if p == x then strip_prefix ps xs else none

abbrev pub starts_with : Text → Text → Bool
starts_with p s = elim (strip_prefix p s) [ some _ ↦ true | none ↦ false ]

unfoldable pub contains : Text → Text → Bool
unfolding strip_prefix
contains p [] = starts_with p []
contains p (x ∷ xs) = starts_with p (x ∷ xs) || contains p xs

abbrev pub on_fst : ℕ → Option (Text × Text) → Option (Text × Text)
on_fst x none = none
on_fst x (some (a, b)) = some (x ∷ a, b)

-- The text before and after the first `c`.
unfoldable pub split_once : ℕ → Text → Option (Text × Text)
split_once c [] = none
split_once c (x ∷ xs) =
    let rest = split_once c xs in if x == c then some ([], xs) else on_fst x rest

abbrev pub cons_head : ℕ → List Text → List Text
cons_head x [] = (x ∷ []) ∷ []
cons_head x (w ∷ ws) = (x ∷ w) ∷ ws

unfoldable pub split : ℕ → Text → List Text
split c [] = [] ∷ []
split c (x ∷ xs) = let rest = split c xs in if x == c then [] ∷ rest else cons_head x rest

-- At most `n` pieces; the last one holds what is left.
unfoldable pub splitn : ℕ → ℕ → Text → List Text
unfolding split_once
splitn zero c s = []
splitn (suc zero) c s = s ∷ []
splitn (suc (suc n)) c s = elim (split_once c s) [
  | none ↦ s ∷ []
  | some (a, b) ↦ a ∷ splitn (suc n) c b
]

unfoldable pub strip_cr : Text → Text
strip_cr [] = []
strip_cr (x ∷ []) = if x == b'\r' then [] else x ∷ []
strip_cr (x ∷ (y ∷ r)) = x ∷ strip_cr (y ∷ r)

-- A line that ends in `\n` loses a `\r` before it; an empty last line is no line.
unfoldable pub end_lines : List Text → List Text
unfolding strip_cr
end_lines [] = []
end_lines (w ∷ []) = if is_empty w then [] else w ∷ []
end_lines (w ∷ (v ∷ r)) = strip_cr w ∷ end_lines (v ∷ r)

unfoldable pub lines : Text → List Text
unfolding split end_lines
lines s = end_lines (split b'\n' s)

unfoldable pub join : ℕ → List Text → Text
join c [] = []
join c (w ∷ []) = w
join c (w ∷ (v ∷ r)) = w ++ (c ∷ join c (v ∷ r))

-- Each text as a line, with its line feed.
unfoldable pub unlines : List Text → Text
unlines [] = []
unlines (w ∷ ws) = w ++ (b'\n' ∷ unlines ws)

-- `str::trim_end_matches(c)`
unfoldable pub trim_end_char : ℕ → Text → Text
trim_end_char c [] = []
trim_end_char c (x ∷ xs) =
    let rest = trim_end_char c xs in if is_empty rest && x == c then [] else x ∷ rest

abbrev pub is_digit : ℕ → Bool
is_digit c = leb b'0' c && leb c b'9'

unfoldable pub parse_digits : ℕ → Text → Option ℕ
parse_digits acc [] = some acc
parse_digits acc (c ∷ cs) =
    let acc' = acc * 10 + (c - 48) in
    if is_digit c && ltb acc' (2 ^ 32) then parse_digits acc' cs else none

-- A leading `+` is accepted, an empty text or a value of 2^32 and more is not.
unfoldable pub parse_u32 : Text → Option ℕ
unfolding parse_digits
parse_u32 [] = none
parse_u32 (c ∷ cs) =
    if c == b'+' then if is_empty cs then none else parse_digits 0 cs else parse_digits 0 (c ∷ cs)

unfoldable pub decimal_digits : ℕ → ℕ → Text
decimal_digits zero n = (48 + n % 10) ∷ []
decimal_digits (suc f) n =
    let front = decimal_digits f (n / 10) in
    if ltb n 10 then (48 + n) ∷ [] else front ++ ((48 + n % 10) ∷ [])

-- Ten digits are enough for a u32.
unfoldable pub decimal : ℕ → Text
unfolding decimal_digits
decimal n = decimal_digits 9 n

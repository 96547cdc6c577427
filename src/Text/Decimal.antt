-- ===== src/Text/Decimal.antt =====
-- Printing a number in decimal and reading it back.
use easytidy.Prelude.{
  ℕ, zero, suc, ◌+◌, ◌*◌, ◌/◌, ◌%◌, ◌^◌, ◌≡◌, refl, ◌≢◌, ◌⊎◌, some, [], ◌∷◌, ◌++◌, arith,
  append_assoc, append-nil, ltb, ◌∙◌, ◌<◌, inl, inr, Bool-cases,
}
use easytidy.Text.{Text, Free, parse_digits, parse_u32, decimal_digits, decimal}
use easytidy.Text.Split.{Free-append}

abbrev pub IsU32 : ℕ → Type 0
IsU32 n = n < 2 ^ 32

parse_digits_step :
    (acc d : ℕ) (rest : Text)
    → d < 10
    → IsU32 (acc * 10 + d)
    → parse_digits acc ((48 + d) ∷ rest) ≡ parse_digits (acc * 10 + d) rest
unfolding parse_digits
parse_digits_step acc d rest h fits = ground arith

parse_digits-decimal :
    (f n : ℕ) (rest : Text)
    → n < 10 ^ suc f
    → IsU32 n
    → parse_digits 0 (decimal_digits f n ++ rest) ≡ parse_digits n rest
unfolding decimal_digits
parse_digits-decimal zero n rest h fits = ground (arith, parse_digits_step 0 (n % 10) rest)
parse_digits-decimal (suc f) n rest h fits = ground (
  arith,
  parse_digits_step 0 n rest,
  append_assoc (decimal_digits f (n / 10)) ((48 + n % 10) ∷ []) rest,
  parse_digits-decimal f (n / 10) ((48 + n % 10) ∷ rest) (omega arith) (omega arith),
  parse_digits_step (n / 10) (n % 10) rest,
)

pub parse_digits-zero_decimal : (n : ℕ) → IsU32 n → parse_digits 0 (decimal n) ≡ some n
unfolding decimal
parse_digits-zero_decimal n fits =
    rw append-nil at (parse_digits-decimal 9 n [] (omega arith) fits) ∙ unfold parse_digits in refl

decimal_digits-first : (f n : ℕ) → (d : ℕ) × (r : Text) × (decimal_digits f n ≡ d ∷ r) × (d ≢ b'+')
unfolding decimal_digits
decimal_digits-first zero n = (48 + n % 10, [], refl, omega arith)
decimal_digits-first (suc f) n = elim (Bool-cases (ltb n 10)) [
  | inl small ↦ (48 + n, [], rw small, omega arith)
  | inr large ↦
      (let (d, r, e, h) = decimal_digits-first f (n / 10) in
        (d, r ++ ((48 + n % 10) ∷ []), rw (large, e), h))
]

parse_u32-digit : (d : ℕ) (r : Text) → d ≢ b'+' → parse_u32 (d ∷ r) ≡ parse_digits 0 (d ∷ r)
unfolding parse_u32
parse_u32-digit d r h = ground arith

-- Reading back a printed u32.
pub parse_u32-decimal : (n : ℕ) → IsU32 n → parse_u32 (decimal n) ≡ some n
unfolding decimal
parse_u32-decimal n fits =
    let (d, r, e, h) = decimal_digits-first 9 n in
    rw e (parse_u32-digit d r h) ∙ rw e at (parse_digits-zero_decimal n fits)

decimal_digits-Free :
    (c f n : ℕ) → (c < 48) ⊎ (57 < c) → n < 10 ^ suc f → Free c (decimal_digits f n)
unfolding decimal_digits
decimal_digits-Free c zero n h b = omega arith
decimal_digits-Free c (suc f) n h b = elim (Bool-cases (ltb n 10)) [
  | inl small ↦ rw small (ground arith)
  | inr large ↦ rw large (
      Free-append c (decimal_digits f (n / 10)) _ (decimal_digits-Free c f (n / 10) h (omega arith))
        (omega arith))
]

-- Only digits are printed.
pub decimal-Free : (c n : ℕ) → (c < 48) ⊎ (57 < c) → IsU32 n → Free c (decimal n)
unfolding decimal
decimal-Free c n h fits = decimal_digits-Free c 9 n h (omega arith)

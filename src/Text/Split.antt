-- ===== src/Text/Split.antt =====
-- Laws of `text_eq`, `strip_prefix`, `split_once` and `splitn`.
use easytidy.Prelude.{ℕ, suc, ◌≡◌, refl, ◌↔◌, true, false, none, some, [], ◌∷◌, ◌++◌, arith, ◌==◌}
use easytidy.Lists.{any}
use easytidy.Text.{Text, Free, text_eq, strip_prefix, split_once, splitn}

pub text_eq_iff : (a b : Text) → (text_eq a b ≡ true) ↔ (a ≡ b)
unfolding text_eq
text_eq_iff (x ∷ a) (y ∷ b) = ground (arith, text_eq_iff a b)
text_eq_iff _ _ = ground arith

pub text_eq_refl : (a : Text) → text_eq a a ≡ true
text_eq_refl a = (text_eq_iff a a).1 refl

pub Free-append : (c : ℕ) (a b : Text) → Free c a → Free c b → Free c (a ++ b)
Free-append c [] b h k = k
Free-append c (x ∷ a) b h k = (h.0, Free-append c a b h.1 k)

pub split_once-Free : (c : ℕ) (a b : Text) → Free c a → split_once c (a ++ (c ∷ b)) ≡ some (a, b)
unfolding split_once
split_once-Free c [] b h = ground arith
split_once-Free c (x ∷ a) b h = ground (arith, split_once-Free c a b h.1)

pub split_once-none : (c : ℕ) (a : Text) → Free c a → split_once c a ≡ none
unfolding split_once
split_once-none c [] h = refl
split_once-none c (x ∷ a) h = ground (arith, split_once-none c a h.1)

pub splitn-Free :
    (n c : ℕ) (a b : Text)
    → Free c a
    → splitn (suc (suc n)) c (a ++ (c ∷ b)) ≡ a ∷ splitn (suc n) c b
unfolding splitn
splitn-Free n c a b h = rw (split_once-Free c a b h, splitn)

-- A text is free of a character if a search for it finds none.
pub Free-of-any : (c : ℕ) (t : Text) → any (λ x. x == c) t ≡ false → Free c t
unfolding any
Free-of-any c [] h = tt
Free-of-any c (x ∷ t) h = (λ e. ground arith, Free-of-any c t (ground arith))

pub strip_prefix-some : (p s t : Text) → strip_prefix p s ≡ some t → s ≡ p ++ t
unfolding strip_prefix
strip_prefix-some [] s t h = cc
strip_prefix-some (x ∷ p) [] t h = cc
strip_prefix-some (x ∷ p) (y ∷ s) t h = ground (arith, strip_prefix-some p s t)

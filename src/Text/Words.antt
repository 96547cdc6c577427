-- ===== src/Text/Words.antt =====
-- Laws of `trim` and `split_whitespace`.
use easytidy.Prelude.{
  ℕ, true, false, not, ◌≡◌, refl, ap, ◌∙◌, List, [], ◌∷◌, ◌++◌, arith, ◌≢◌, Bool-cases, inl, inr,
}
use easytidy.Lists.{retain, All, All-retain, All-append}
use easytidy.Text.{Text, is_empty, cons_head, join}
use easytidy.Text.Lines.{IsLine}
use easytidy.Text.White.{is_white, trim, trim_start, trim_end, split_white, words}

-- No white space in the text.
abbrev pub NoWhite : Text → Type 0
NoWhite [] = Unit {0}
NoWhite (x ∷ xs) = (is_white x ≡ false) × NoWhite xs

-- A word is not empty and holds no white space.
abbrev pub IsWord : Text → Type 0
IsWord w = (is_empty w ≡ false) × NoWhite w

white-line : (x : ℕ) → is_white x ≡ false → (x ≢ b'\n') × (x ≢ b'\r')
unfolding is_white
white-line x h = ground arith

pub NoWhite-IsLine : (w : Text) → NoWhite w → IsLine w
NoWhite-IsLine [] h = (tt, tt)
NoWhite-IsLine (x ∷ w) h =
    let (a, b) = white-line x h.0 in let (p, q) = NoWhite-IsLine w h.1 in ((a, p), (b, q))

trim_end-NoWhite : (w : Text) → NoWhite w → trim_end w ≡ w
unfolding trim_end
trim_end-NoWhite [] h = refl
trim_end-NoWhite (x ∷ w) h = ground (arith, trim_end-NoWhite w h.1)

pub trim-NoWhite : (w : Text) → NoWhite w → trim w ≡ w
unfolding trim trim_start
trim-NoWhite [] h = unfold trim_end in refl
trim-NoWhite (x ∷ w) h = rw (h.0) (trim_end-NoWhite (x ∷ w) h)

split_white-word : (w : Text) → NoWhite w → split_white w ≡ w ∷ []
unfolding split_white
split_white-word [] h = refl
split_white-word (x ∷ w) h = ground (arith, split_white-word w h.1)

white-space : is_white b' ' ≡ true
unfolding is_white
white-space = refl

split_white-append : (w s : Text) → NoWhite w → split_white (w ++ (b' ' ∷ s)) ≡ w ∷ split_white s
unfolding split_white
split_white-append [] s h = rw white-space refl
split_white-append (x ∷ w) s h = ground (arith, split_white-append w s h.1)

split_white-join :
    (w : Text) (ws : List Text) → All NoWhite (w ∷ ws) → split_white (join b' ' (w ∷ ws)) ≡ w ∷ ws
unfolding join
split_white-join w [] h = split_white-word w h.0
split_white-join w (v ∷ ws) h = split_white-append w _ h.0 ∙ ap (◌∷◌ w) (split_white-join v ws h.1)

retain-words : (ws : List Text) → All IsWord ws → retain (λ w. not (is_empty w)) ws ≡ ws
unfolding retain
retain-words [] h = refl
retain-words (w ∷ ws) h = rw (h.0.0, retain-words ws h.1) refl

IsWord-NoWhite : (ws : List Text) → All IsWord ws → All NoWhite ws
IsWord-NoWhite [] h = tt
IsWord-NoWhite (w ∷ ws) h = (h.0.1, IsWord-NoWhite ws h.1)

pub words-join : (ws : List Text) → All IsWord ws → words (join b' ' ws) ≡ ws
unfolding words
words-join [] h = unfold join split_white retain in refl
words-join (w ∷ ws) h =
    rw (split_white-join w ws (IsWord-NoWhite (w ∷ ws) h)) (retain-words (w ∷ ws) h)

cons_head-NoWhite :
    (x : ℕ) (ws : List Text) → is_white x ≡ false → All NoWhite ws → All NoWhite (cons_head x ws)
cons_head-NoWhite x [] h k = ((h, tt), tt)
cons_head-NoWhite x (w ∷ ws) h k = ((h, k.0), k.1)

split_white-NoWhite : (s : Text) → All NoWhite (split_white s)
unfolding split_white
split_white-NoWhite [] = (tt, tt)
split_white-NoWhite (x ∷ s) = elim (Bool-cases (is_white x)) [
  | inl e ↦ rw e (tt, split_white-NoWhite s)
  | inr e ↦ rw e (cons_head-NoWhite x (split_white s) e (split_white-NoWhite s))
]

retain-IsWord : (ws : List Text) → All NoWhite ws → All IsWord (retain (λ w. not (is_empty w)) ws)
unfolding retain
retain-IsWord [] h = tt
retain-IsWord ([] ∷ ws) h = retain-IsWord ws h.1
retain-IsWord ((x ∷ w) ∷ ws) h = ((refl, h.0), retain-IsWord ws h.1)

pub words-IsWord : (s : Text) → All IsWord (words s)
unfolding words
words-IsWord s = retain-IsWord (split_white s) (split_white-NoWhite s)

trim_end-space :
    (w s : Text)
    → trim_end s ≡ s
    → is_empty s ≡ false
    → trim_end (w ++ (b' ' ∷ s)) ≡ w ++ (b' ' ∷ s)
unfolding trim_end
trim_end-space [] s h k = rw (h, k) refl
trim_end-space (x ∷ []) s h k = rw (h, k) refl
trim_end-space (x ∷ (y ∷ w)) s h k = rw (trim_end-space (y ∷ w) s h k) refl

join-ne-empty : (w : Text) (ws : List Text) → IsWord w → is_empty (join b' ' (w ∷ ws)) ≡ false
unfolding join
join-ne-empty (x ∷ w) [] h = refl
join-ne-empty (x ∷ w) (v ∷ ws) h = refl
join-ne-empty [] ws h = cc h.0

trim_end-join : (ws : List Text) → All IsWord ws → trim_end (join b' ' ws) ≡ join b' ' ws
unfolding join
trim_end-join [] h = unfold trim_end in refl
trim_end-join (w ∷ []) h = trim_end-NoWhite w h.0.1
trim_end-join (w ∷ (v ∷ ws)) h =
    trim_end-space w _ (trim_end-join (v ∷ ws) h.1) (join-ne-empty v ws h.1.0)

trim_start-join : (ws : List Text) → All IsWord ws → trim_start (join b' ' ws) ≡ join b' ' ws
unfolding trim_start join
trim_start-join [] h = refl
trim_start-join ([] ∷ ws) h = cc (h.0.0)
trim_start-join ((x ∷ w) ∷ []) h = rw (h.0.1.0) refl
trim_start-join ((x ∷ w) ∷ (v ∷ ws)) h = rw (h.0.1.0) refl

pub trim-join : (ws : List Text) → All IsWord ws → trim (join b' ' ws) ≡ join b' ' ws
unfolding trim
trim-join ws h = rw (trim_start-join ws h) (trim_end-join ws h)

module _ {κ} (P : ℕ → Type κ) where
  cons_head-All :
      (x : ℕ) (ws : List Text) → P x → All (λ w. All P w) ws → All (λ w. All P w) (cons_head x ws)
  cons_head-All x [] h k = ((h, tt), tt)
  cons_head-All x (w ∷ ws) h k = ((h, k.0), k.1)

  split_white-All : (s : Text) → All P s → All (λ w. All P w) (split_white s)
  unfolding split_white
  split_white-All [] h = (tt, tt)
  split_white-All (x ∷ s) h = elim (Bool-cases (is_white x)) [
    | inl e ↦ rw e (tt, split_white-All s h.1)
    | inr e ↦ rw e (cons_head-All x (split_white s) h.0 (split_white-All s h.1))
  ]

  -- The words of a text, and their joint by `c`, hold only characters of the text and `c`.
  pub words-All : (s : Text) → All P s → All (λ w. All P w) (words s)
  unfolding words
  words-All s h = All-retain _ _ (split_white s) (split_white-All s h)

  pub join-All : (c : ℕ) (ws : List Text) → P c → All (λ w. All P w) ws → All P (join c ws)
  unfolding join
  join-All c [] h k = tt
  join-All c (w ∷ []) h k = k.0
  join-All c (w ∷ (v ∷ ws)) h k = All-append P w _ k.0 (h, join-All c (v ∷ ws) h k.1)

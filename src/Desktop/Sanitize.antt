-- ===== src/Desktop/Sanitize.antt =====
-- What `sanitize_ini_value` leaves: words of printable characters with single spaces between them.
use easytidy.Prelude.{
  ◌≤◌, ◌==◌, ltb, ◌||◌, Bool-cases, inl, inr, ◌≡◌, refl, ap, ◌∙◌, [], ◌∷◌, arith,
}
use easytidy.Lists.{All}
use easytidy.Text.{Text, join}
use easytidy.Text.Lines.{IsLine}
use easytidy.Text.White.{words, trim}
use easytidy.Text.Words.{words-join, words-IsWord, trim-join, words-All, join-All}
use easytidy.Desktop.{clean_ini, sanitize_ini_value}

-- No control character below 32.
abbrev pub Printable : Text → Type 0
Printable t = All (λ c. 32 ≤ c) t

clean_ini-Printable : (s : Text) → Printable (clean_ini s)
unfolding clean_ini
clean_ini-Printable [] = tt
clean_ini-Printable (c ∷ s) = elim (Bool-cases (c == b'\n' || c == b'\r')) [
  | inl e ↦ rw e (omega arith, clean_ini-Printable s)
  | inr e ↦ elim (Bool-cases (ltb c 32)) [
    | inl d ↦ rw (e, d) (clean_ini-Printable s)
    | inr d ↦ rw (e, d) (ground arith, clean_ini-Printable s)
  ]
]

clean_ini-printed : (s : Text) → Printable s → clean_ini s ≡ s
unfolding clean_ini
clean_ini-printed [] h = refl
clean_ini-printed (c ∷ s) h = ground (arith, clean_ini-printed s h.1)

Printable-IsLine : (t : Text) → Printable t → IsLine t
Printable-IsLine [] h = (tt, tt)
Printable-IsLine (c ∷ t) h =
    let (p, q) = Printable-IsLine t h.1 in
    let k : 32 ≤ c = h.0 in ((omega arith, p), (omega arith, q))

pub sanitize_ini_value-Printable : (s : Text) → Printable (sanitize_ini_value s)
unfolding sanitize_ini_value
sanitize_ini_value-Printable s =
    join-All _ b' ' (words (clean_ini s)) (omega arith)
      (words-All _ (clean_ini s) (clean_ini-Printable s))

pub sanitize_ini_value-IsLine : (s : Text) → IsLine (sanitize_ini_value s)
sanitize_ini_value-IsLine s = Printable-IsLine _ (sanitize_ini_value-Printable s)

pub trim-sanitize_ini_value : (s : Text) → trim (sanitize_ini_value s) ≡ sanitize_ini_value s
unfolding sanitize_ini_value
trim-sanitize_ini_value s = trim-join (words (clean_ini s)) (words-IsWord (clean_ini s))

sanitize-printed : (t : Text) → Printable t → sanitize_ini_value t ≡ join b' ' (words t)
unfolding sanitize_ini_value
sanitize-printed t h = rw (clean_ini-printed t h) refl

words-sanitize_ini_value : (s : Text) → words (sanitize_ini_value s) ≡ words (clean_ini s)
unfolding sanitize_ini_value
words-sanitize_ini_value s = words-join (words (clean_ini s)) (words-IsWord (clean_ini s))

pub sanitize_ini_value-twice :
    (s : Text) → sanitize_ini_value (sanitize_ini_value s) ≡ sanitize_ini_value s
sanitize_ini_value-twice s =
    sanitize-printed (sanitize_ini_value s) (sanitize_ini_value-Printable s)
    ∙ ap (join b' ') (words-sanitize_ini_value s)
    ∙ (unfold sanitize_ini_value in refl)

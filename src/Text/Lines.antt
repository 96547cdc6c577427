-- ===== src/Text/Lines.antt =====
-- `lines` undoes `join` over '\n' for lines with neither '\n' nor '\r'.
use easytidy.Prelude.{
  Bool-cases, inl, inr, ℕ, ◌==◌, ◌≢◌, ◌≡◌, refl, ap, ◌∙◌, List, [], ◌∷◌, ◌++◌, arith, append_assoc,
}
use easytidy.Lists.{All}
use easytidy.Text.{cons_head, Text, Free, split, strip_cr, end_lines, lines, join, unlines}

-- Neither line feed nor carriage return.
abbrev pub IsLine : Text → Type 0
IsLine w = Free b'\n' w × Free b'\r' w

split-append : (c : ℕ) (w s : Text) → Free c w → split c (w ++ (c ∷ s)) ≡ w ∷ split c s
unfolding split
split-append c [] s h = ground arith
split-append c (x ∷ w) s h = ground (arith, split-append c w s h.1)

strip_cr-Free : (w : Text) → Free b'\r' w → strip_cr w ≡ w
unfolding strip_cr
strip_cr-Free [] h = refl
strip_cr-Free (x ∷ []) h = ground arith
strip_cr-Free (x ∷ (y ∷ r)) h = ap (◌∷◌ x) (strip_cr-Free (y ∷ r) h.1)

end_lines-split :
    (c : ℕ) (w s : Text) → end_lines (w ∷ split c s) ≡ strip_cr w ∷ end_lines (split c s)
unfolding split end_lines
end_lines-split c w [] = ground arith
end_lines-split c w (x ∷ s) = ground arith

pub lines-cons : (w s : Text) → IsLine w → lines (w ++ (b'\n' ∷ s)) ≡ w ∷ lines s
unfolding lines
lines-cons w s h = rw (split-append b'\n' w s h.0, end_lines-split, strip_cr-Free w h.1)

pub lines-join :
    (w : Text) (ws : List Text)
    → All IsLine (w ∷ ws)
    → lines (join b'\n' (w ∷ ws) ++ (b'\n' ∷ [])) ≡ w ∷ ws
unfolding join
lines-join w [] h = lines-cons w [] h.0 ∙ ap (◌∷◌ w) (unfold lines split end_lines in refl)
lines-join w (v ∷ r) h = rw (append_assoc w) (lines-cons w _ h.0 ∙ ap (◌∷◌ w) (lines-join v r h.1))

cons_head-All :
    (d : ℕ) (x : ℕ) (ws : List Text) → x ≢ d → All (Free d) ws → All (Free d) (cons_head x ws)
cons_head-All d x [] h k = ((h, tt), tt)
cons_head-All d x (w ∷ ws) h k = ((h, k.0), k.1)

split-Free : (c d : ℕ) (s : Text) → Free d s → All (Free d) (split c s)
unfolding split
split-Free c d [] h = (tt, tt)
split-Free c d (x ∷ s) h = elim (Bool-cases (x == c)) [
  | inl e ↦ rw e (tt, split-Free c d s h.1)
  | inr e ↦ rw e (cons_head-All d x (split c s) h.0 (split-Free c d s h.1))
]

split-pieces : (c : ℕ) (s : Text) → All (Free c) (split c s)
unfolding split
split-pieces c [] = (tt, tt)
split-pieces c (x ∷ s) = elim (Bool-cases (x == c)) [
  | inl e ↦ rw e (tt, split-pieces c s)
  | inr e ↦ rw e (cons_head-All c x (split c s) (ground arith) (split-pieces c s))
]

end_lines-IsLine :
    (ws : List Text) → All (Free b'\n') ws → All (Free b'\r') ws → All IsLine (end_lines ws)
unfolding end_lines
end_lines-IsLine [] h k = tt
end_lines-IsLine ([] ∷ []) h k = tt
end_lines-IsLine ((x ∷ w) ∷ []) h k = ((h.0, k.0), tt)
end_lines-IsLine (w ∷ (v ∷ r)) h k =
    (rw (strip_cr-Free w k.0) (h.0, k.0), end_lines-IsLine (v ∷ r) h.1 k.1)

pub lines-IsLine : (s : Text) → Free b'\r' s → All IsLine (lines s)
unfolding lines
lines-IsLine s h = end_lines-IsLine _ (split-pieces b'\n' s) (split-Free b'\n' b'\r' s h)

pub lines-unlines : (ws : List Text) → All IsLine ws → lines (unlines ws) ≡ ws
unfolding unlines
lines-unlines [] h = unfold lines split end_lines in refl
lines-unlines (w ∷ ws) h = lines-cons w (unlines ws) h.0 ∙ ap (◌∷◌ w) (lines-unlines ws h.1)

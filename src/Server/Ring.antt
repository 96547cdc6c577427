-- ===== src/Server/Ring.antt =====
-- What a terminal's ring holds.
use easytidy.Prelude.{
  ℕ, zero, suc, ◌+◌, ◌-◌, ◌≤◌, ◌≡◌, refl, sym, ap, ◌∙◌, Option, none, some, List, [], ◌∷◌, ◌++◌,
  arith, append_assoc, append-nil, ltb, Bool-cases, inl, inr, ltb→lt, ltb-false→le,
}
use easytidy.Lists.{length, drop, length-append, length-drop, drop-append, get_elem?}
use easytidy.Server.{Json, PtySession, ServerState, ring_max, get_elem-update_same}
use mathlib.Core.Option.{some-injective}
use easytidy.Server.Reader.{trim, reader_output, output_to, reader_outputs, concat}

-- The last `max` elements.
abbrev pub last : ℕ → List ℕ → List ℕ
last max xs = drop (length xs - max) xs

drop_none : (n : ℕ) → [] ≡ drop {A = ℕ} n []
drop_none zero = refl
drop_none (suc n) = refl

pub trim-last : (max : ℕ) (xs : List ℕ) → trim max xs ≡ last max xs
unfolding trim
trim-last max [] = drop_none _
trim-last max (x ∷ xs) = elim (Bool-cases (ltb max (length (x ∷ xs)))) [
  | inl e ↦
      let long = ltb→lt max (length (x ∷ xs)) e in
      let one : length (x ∷ xs) - max ≡ suc (length xs - max) = omega arith in
      rw (e, one) (trim-last max xs)
  | inr e ↦
      let short = ltb-false→le max (length (x ∷ xs)) e in
      let zero_left : length (x ∷ xs) - max ≡ 0 = omega arith in rw (e, zero_left) refl
]

drop-drop : (n m : ℕ) (xs : List ℕ) → drop n (drop m xs) ≡ drop (m + n) xs
drop-drop n zero xs = ap (λ k. drop k xs) (omega arith)
drop-drop n (suc m) [] = sym (drop_none n) ∙ drop_none (suc m + n)
drop-drop n (suc m) (x ∷ xs) =
    let tidy : suc (m + n) ≡ suc m + n = omega arith in
    drop-drop n m xs ∙ ap (λ k. drop k (x ∷ xs)) tidy

-- The last bytes are found again behind what was cut.
pub last-last : (max : ℕ) (xs ys : List ℕ) → last max (last max xs ++ ys) ≡ last max (xs ++ ys)
last-last max xs ys =
    ap (last max) (sym (drop-append (length xs - max) xs ys (omega arith)))
    ∙ drop-drop _ (length xs - max) (xs ++ ys)
    ∙ ap (λ k. drop k (xs ++ ys))
        (omega (arith, length-drop (length xs - max) (xs ++ ys), length-append xs ys))

pub length-last : (max : ℕ) (xs : List ℕ) → length (last max xs) ≤ max
length-last max xs = omega (arith, length-drop (length xs - max) xs)

pub short-last : (max : ℕ) (xs : List ℕ) → length xs ≤ max → last max xs ≡ xs
short-last max xs h = let none_cut : length xs - max ≡ 0 = omega arith in rw none_cut refl

module _ (j : Json) where
  reader_output-cell :
      (s : ServerState j) (sid ref : ℕ) (out : List ℕ) (p : PtySession j)
      → get_elem? s.cells ref ≡ some p
      → (p' : PtySession j) × (get_elem? (reader_output j s sid ref out).cells ref ≡ some p')
        × (p'.ring ≡ last ring_max (p.ring ++ out))
  unfolding reader_output
  reader_output-cell s sid ref out p h = step (get_elem? s.cells ref) h
    where
      step :
          (o : Option (PtySession j))
          → o ≡ some p
          → (p' : PtySession j) × (get_elem?
                (elim o as (λ o'. ServerState j) [
                  | none ↦ s
                  | some q ↦ output_to j s sid ref q out
                ]).cells
                ref
              ≡ some p')
            × (p'.ring ≡ last ring_max (p.ring ++ out))
      step none e = cc
      step (some q) e =
          let same : p ≡ q = sym (some-injective _ _ e) in
          (
            _,
            get_elem-update_same s.cells ref _ p h,
            trim-last ring_max (q.ring ++ out) ∙ rw same refl,
          )

  -- Whatever a terminal puts out, in whatever pieces, its ring holds the last RING_MAX bytes of what it
  -- held, within that bound, and all that came after.
  pub reader_outputs-ring :
      (s : ServerState j) (sid ref : ℕ) (outs : List (List ℕ)) (p : PtySession j)
      → get_elem? s.cells ref ≡ some p
      → length p.ring ≤ ring_max
      → (p' : PtySession j) × (get_elem? (reader_outputs j s sid ref outs).cells ref ≡ some p')
        × (p'.ring ≡ last ring_max (p.ring ++ concat outs))
        × (length p'.ring ≤ ring_max)
  unfolding reader_outputs concat
  reader_outputs-ring s sid ref [] p h b =
      (p, h, sym (ap (last ring_max) (append-nil p.ring) ∙ short-last ring_max p.ring b), b)
  reader_outputs-ring s sid ref (out ∷ outs) p h b =
      let (p1, cell, ring) = reader_output-cell s sid ref out p h in
      let (p2, cell2, ring2, bound) =
        reader_outputs-ring (reader_output j s sid ref out) sid ref outs p1 cell
          (rw ring (length-last ring_max (p.ring ++ out))) in
      (
        p2,
        cell2,
        ring2
            ∙ ap (λ r. last ring_max (r ++ concat outs)) ring
            ∙ last-last ring_max (p.ring ++ out) (concat outs)
            ∙ ap (last ring_max) (append_assoc p.ring out (concat outs)),
        bound,
      )

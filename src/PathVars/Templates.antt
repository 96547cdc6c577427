-- ===== src/PathVars/Templates.antt =====
-- What `expand_path` means: a path is a sequence of literal parts and variables, and it expands to
-- the parts with the variables' values between them.
use easytidy.Prelude.{
  ℕ, zero, suc, ◌<◌, ◌≡◌, ◌≢◌, refl, ap, ◌∙◌, List, [], ◌∷◌, ◌++◌, arith, none, some, append_assoc,
  append-nil,
}
use easytidy.Lists.{length, length-append}
use easytidy.Text.{Text, codes, Free, strip_prefix, decimal, text_eq}
use easytidy.Text.Split.{split_once-Free, split_once-none, text_eq_iff}
use easytidy.PathVars.{
  PathVars, ok, unknown_var, value_of, expand_loop, expand_path, copy, replace, copy_rest, unknown,
  replace_var, close_var, open_var, round,
}
use easytidy.PathVars.Expand.{loop_copy, loop_replace, loop_copy_rest, loop_unknown}

pub data Segment : Type 0 where
  literal : Text → Segment
  home user uid gid : Segment

abbrev pub braced : Text → Text
braced name = codes "${" ++ (name ++ codes "}")

-- The source text of a segment, and the text that it stands for.
abbrev pub source : Segment → Text
source (literal t) = t
source home = braced (codes "HOME")
source user = braced (codes "USER")
source uid = braced (codes "UID")
source gid = braced (codes "GID")

abbrev pub meaning : PathVars → Segment → Text
meaning pv (literal t) = t
meaning pv home = pv.home
meaning pv user = pv.user
meaning pv uid = decimal pv.uid
meaning pv gid = decimal pv.gid

abbrev pub sources : List Segment → Text
sources [] = []
sources (g ∷ gs) = source g ++ sources gs

abbrev pub meanings : PathVars → List Segment → Text
meanings pv [] = []
meanings pv (g ∷ gs) = meaning pv g ++ meanings pv gs

-- The literal parts hold no `$`.
abbrev pub Plain : List Segment → Type 0
Plain [] = Unit {0}
Plain (literal t ∷ gs) = Free b'$' t × Plain gs
Plain (home ∷ gs) = Plain gs
Plain (user ∷ gs) = Plain gs
Plain (uid ∷ gs) = Plain gs
Plain (gid ∷ gs) = Plain gs

-- After `s` the loop has `t` left, enough fuel for it, and has written `written`.
abbrev Reaches : PathVars → ℕ → Text → Text → Text → Text → Type 0
Reaches pv f s out t written =
    (g : ℕ) × (length t < g) × (expand_loop f s pv out ≡ expand_loop g t pv (out ++ written))

round-copy : (pv : PathVars) (c : ℕ) (s : Text) → c ≢ b'$' → round pv (c ∷ s) ≡ copy
unfolding round open_var strip_prefix
round-copy pv c s h = ground arith

literal-Reaches :
    (pv : PathVars) (l t : Text) (f : ℕ) (out : Text)
    → Free b'$' l
    → length (l ++ t) < f
    → Reaches pv f (l ++ t) out t l
unfolding expand_loop
literal-Reaches pv [] t f out h b = (f, b, rw append-nil)
literal-Reaches pv (c ∷ l) t zero out h b = absurd (omega arith)
literal-Reaches pv (c ∷ l) t (suc f) out h b =
    let (g, p, e) = literal-Reaches pv l t f (out ++ (c ∷ [])) h.1 (omega arith) in
    (
      g,
      p,
      loop_copy f c (l ++ t) pv out (round-copy pv c (l ++ t) h.0)
          ∙ e
          ∙ ap (λ (o : Text). expand_loop g t pv o) (append_assoc out (c ∷ []) l),
    )

round-braced :
    (pv : PathVars) (name t value : Text)
    → Free b'}' name
    → value_of pv name ≡ some value
    → round pv (braced name ++ t) ≡ replace value t
unfolding round open_var close_var replace_var strip_prefix
round-braced pv name t value h e =
    rw (append_assoc name (codes "}") t, split_once-Free b'}' name t h) (rw e)

braced-Reaches :
    (pv : PathVars) (name t value : Text) (f : ℕ) (out : Text)
    → Free b'}' name
    → value_of pv name ≡ some value
    → length (braced name ++ t) < f
    → Reaches pv f (braced name ++ t) out t value
unfolding expand_loop
braced-Reaches pv name t value zero out h e b = absurd (omega arith)
braced-Reaches pv name t value (suc f) out h e b = (
  f,
  omega (
    arith,
    length-append name (codes "}" ++ t),
    ap (length {A = ℕ}) (append_assoc name (codes "}") t),
  ),
  loop_replace f b'$' _ pv out (round-braced pv name t value h e),
)

segment-Reaches :
    (pv : PathVars) (g : Segment) (t : Text) (f : ℕ) (out : Text)
    → Plain (g ∷ [])
    → length (source g ++ t) < f
    → Reaches pv f (source g ++ t) out t (meaning pv g)
unfolding value_of text_eq
segment-Reaches pv (literal l) t f out h b = literal-Reaches pv l t f out h.0 b
segment-Reaches pv home t f out h b =
    braced-Reaches pv (codes "HOME") t _ f out (omega arith) refl b
segment-Reaches pv user t f out h b =
    braced-Reaches pv (codes "USER") t _ f out (omega arith) refl b
segment-Reaches pv uid t f out h b = braced-Reaches pv (codes "UID") t _ f out (omega arith) refl b
segment-Reaches pv gid t f out h b = braced-Reaches pv (codes "GID") t _ f out (omega arith) refl b

Plain-cons : (g : Segment) (gs : List Segment) → Plain (g ∷ gs) → Plain (g ∷ []) × Plain gs
Plain-cons (literal l) gs h = ((h.0, tt), h.1)
Plain-cons home gs h = (tt, h)
Plain-cons user gs h = (tt, h)
Plain-cons uid gs h = (tt, h)
Plain-cons gid gs h = (tt, h)

segments_reach :
    (pv : PathVars) (gs : List Segment) (t : Text) (f : ℕ) (out : Text)
    → Plain gs
    → length (sources gs ++ t) < f
    → Reaches pv f (sources gs ++ t) out t (meanings pv gs)
segments_reach pv [] t f out h b = (f, b, rw append-nil)
segments_reach pv (g ∷ gs) t f out h b =
    let (k, hs) = Plain-cons g gs h in
    let (f₁, p, e) = segment-Reaches pv g (sources gs ++ t) f out k (rw append_assoc at b) in
    let (f₂, q, d) = segments_reach pv gs t f₁ (out ++ meaning pv g) hs p in
    (
      f₂,
      q,
      rw append_assoc (
          e
          ∙ d
          ∙ ap (λ (o : Text). expand_loop f₂ t pv o)
              (append_assoc out (meaning pv g) (meanings pv gs))),
    )

round-unclosed : (pv : PathVars) (t : Text) → Free b'}' t → round pv (codes "${" ++ t) ≡ copy_rest
unfolding round open_var close_var strip_prefix
round-unclosed pv t h = rw (split_once-none b'}' t h)

round-unknown :
    (pv : PathVars) (name t : Text)
    → Free b'}' name
    → value_of pv name ≡ none
    → round pv (braced name ++ t) ≡ unknown name
unfolding round open_var close_var replace_var strip_prefix
round-unknown pv name t h e =
    rw (append_assoc name (codes "}") t, split_once-Free b'}' name t h) (rw e)

end_empty : (g : ℕ) (pv : PathVars) (out : Text) → 0 < g → expand_loop g [] pv out ≡ ok out
unfolding expand_loop
end_empty zero pv out h = absurd (omega arith)
end_empty (suc g) pv out h = refl

end_unclosed :
    (g : ℕ) (pv : PathVars) (t out : Text)
    → 0 < g
    → Free b'}' t
    → expand_loop g (codes "${" ++ t) pv out ≡ ok (out ++ (codes "${" ++ t))
end_unclosed zero pv t out h k = absurd (omega arith)
end_unclosed (suc g) pv t out h k = loop_copy_rest g b'$' _ pv out (round-unclosed pv t k)

end_unknown :
    (g : ℕ) (pv : PathVars) (name t out : Text)
    → 0 < g
    → Free b'}' name
    → value_of pv name ≡ none
    → expand_loop g (braced name ++ t) pv out ≡ unknown_var name
end_unknown zero pv name t out h k e = absurd (omega arith)
end_unknown (suc g) pv name t out h k e = loop_unknown g b'$' _ pv out (round-unknown pv name t k e)

-- None of the four variables.
abbrev pub IsUnknown : Text → Type 0
IsUnknown name =
    (name ≢ codes "HOME") × (name ≢ codes "USER") × (name ≢ codes "UID") × (name ≢ codes "GID")

value_of-IsUnknown : (pv : PathVars) (name : Text) → IsUnknown name → value_of pv name ≡ none
unfolding value_of
value_of-IsUnknown pv name (h, u, i, g) = ground (
  arith,
  text_eq_iff name (codes "HOME"),
  text_eq_iff name (codes "USER"),
  text_eq_iff name (codes "UID"),
  text_eq_iff name (codes "GID"),
)

-- A path of literal parts without `$` and of variables expands to the parts with the values
-- between them. With `${` and a name behind it that is none of the four known ones and has no `}`, the
-- rest is copied. With an unknown variable behind it, the result is the error that names the variable,
-- whatever follows.
pub expand_path-segments :
    (pv : PathVars) (gs : List Segment) (name t : Text)
    → Plain gs
    → Free b'}' name
    → IsUnknown name
    → (expand_path (sources gs) pv ≡ ok (meanings pv gs))
      × (expand_path (sources gs ++ (codes "${" ++ name)) pv
          ≡ ok (meanings pv gs ++ (codes "${" ++ name)))
      × (expand_path (sources gs ++ (braced name ++ t)) pv ≡ unknown_var name)
unfolding expand_path
expand_path-segments pv gs name t h k u =
    let (f, a, p) =
      segments_reach pv gs [] (suc (length (sources gs))) [] h (rw append-nil (omega arith)) in
    let (f', b, q) = segments_reach pv gs (codes "${" ++ name) _ [] h (omega arith) in
    let (f'', c, r) = segments_reach pv gs (braced name ++ t) _ [] h (omega arith) in
    (
      rw append-nil at (p ∙ end_empty f pv _ (omega arith)),
      q ∙ end_unclosed f' pv name _ (omega arith) k,
      r ∙ end_unknown f'' pv name t _ (omega arith) k (value_of-IsUnknown pv name u),
    )

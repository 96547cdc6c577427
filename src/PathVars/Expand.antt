-- ===== src/PathVars/Expand.antt =====
-- `expand_path` on any text: it ends, and it keeps what stands before a variable.
use easytidy.Prelude.{
  ℕ, zero, suc, ◌<◌, ◌≡◌, ◌≢◌, refl, ap, ◌∙◌, inl, inr, [], ◌∷◌, ◌++◌, arith, ◌==◌, Bool-cases,
  Option, none, some, sym,
}
use easytidy.Lists.{length, length-append}
use easytidy.Text.{Text, codes, strip_prefix, split_once, on_fst}
use easytidy.PathVars.{
  PathVars, ok, unknown_var, stuck, value_of, expand_loop, expand_path, Round, copy, replace,
  copy_rest, unknown, replace_var, close_var, open_var, round,
}

cut_at : ℕ → Text → Option (Text × Text) → Text
cut_at c s none = s
cut_at c s (some p) = p.0 ++ (c ∷ p.1)

cut_at-on_fst :
    (c x : ℕ) (s : Text) (o : Option (Text × Text))
    → cut_at c (x ∷ s) (on_fst x o) ≡ x ∷ cut_at c s o
unfolding cut_at
cut_at-on_fst c x s none = refl
cut_at-on_fst c x s (some p) = refl

cut_at-split_once : (c : ℕ) (s : Text) → cut_at c s (split_once c s) ≡ s
unfolding split_once
cut_at-split_once c [] = unfold cut_at in refl
cut_at-split_once c (x ∷ s) = elim (Bool-cases (x == c)) [
  | inl e ↦ rw e (unfold cut_at in ground arith)
  | inr e ↦ rw e (cut_at-on_fst c x s (split_once c s) ∙ ap (◌∷◌ x) (cut_at-split_once c s))
]

-- What `split_once` cuts the text into.
pub split_once-eq :
    (c : ℕ) (s : Text) {a b : Text} → split_once c s ≡ some (a, b) → s ≡ a ++ (c ∷ b)
unfolding cut_at
split_once-eq c s {a} {b} h = sym (rw h at (cut_at-split_once c s))

pub strip_open :
    (s : Text) {body : Text} → strip_prefix (codes "${") s ≡ some body → s ≡ b'$' ∷ (b'{' ∷ body)
unfolding strip_prefix
strip_open [] h = cc
strip_open (x ∷ []) h = ground arith
strip_open (x ∷ (y ∷ r)) h = ground arith

-- A round that replaces a variable has read `${var}`.
pub record Replaced (pv : PathVars) (s value after : Text) : Type 0 where
  pub var : Text
  pub reads : s ≡ b'$' ∷ (b'{' ∷ (var ++ (b'}' ∷ after)))
  pub has_value : value_of pv var ≡ some value

module _ (pv : PathVars) (s : Text) {value after : Text} where
  replaced :
      (body : Text) (cut : Option (Text × Text))
      → s ≡ b'$' ∷ (b'{' ∷ body)
      → split_once b'}' body ≡ cut
      → close_var pv cut ≡ replace value after
      → Replaced pv s value after
  unfolding close_var
  replaced body none e k h = cc
  replaced body (some (var, rest)) e k h = named (value_of pv var) refl h
    where
      named :
          (v : Option Text)
          → value_of pv var ≡ v
          → replace_var var rest v ≡ replace value after
          → Replaced pv s value after
      named none q r = cc
      named (some w) q r = record {
        var = var;
        reads =
            e
            ∙ ap (λ (b : Text). b'$' ∷ (b'{' ∷ b))
                (split_once-eq b'}' body k ∙ ap (λ (b : Text). var ++ (b'}' ∷ b)) (ground arith));
        has_value = q ∙ ground arith;
      }

  opened :
      (o : Option Text)
      → strip_prefix (codes "${") s ≡ o
      → open_var pv o ≡ replace value after
      → Replaced pv s value after
  unfolding open_var
  opened none e h = cc
  opened (some body) e h = replaced body (split_once b'}' body) (strip_open s e) refl h

  pub round-Replaced : round pv s ≡ replace value after → Replaced pv s value after
  unfolding round
  round-Replaced = opened (strip_prefix (codes "${") s) refl

pub after_shorter :
    {pv : PathVars} {s value after : Text} → Replaced pv s value after → length after < length s
after_shorter {after} r =
    omega (arith, ap (length {A = ℕ}) r.reads, length-append r.var (b'}' ∷ after))

-- The loop's rounds.
module _ (f : ℕ) (c : ℕ) (rest : Text) (pv : PathVars) (out : Text) where
  pub loop_copy :
      round pv (c ∷ rest) ≡ copy
      → expand_loop (suc f) (c ∷ rest) pv out ≡ expand_loop f rest pv (out ++ (c ∷ []))
  unfolding expand_loop
  loop_copy e = rw (e, expand_loop)

  pub loop_replace :
      {value after : Text}
      → round pv (c ∷ rest) ≡ replace value after
      → expand_loop (suc f) (c ∷ rest) pv out ≡ expand_loop f after pv (out ++ value)
  unfolding expand_loop
  loop_replace e = rw (e, expand_loop)

  pub loop_copy_rest :
      round pv (c ∷ rest) ≡ copy_rest
      → expand_loop (suc f) (c ∷ rest) pv out ≡ ok (out ++ (c ∷ rest))
  unfolding expand_loop
  loop_copy_rest e = rw (e, expand_loop)

  pub loop_unknown :
      {var : Text}
      → round pv (c ∷ rest) ≡ unknown var
      → expand_loop (suc f) (c ∷ rest) pv out ≡ unknown_var var
  unfolding expand_loop
  loop_unknown e = rw (e, expand_loop)

-- With more fuel than characters the loop ends by itself.
expand_loop-ne-stuck :
    (f : ℕ) (s : Text) (pv : PathVars) (out : Text) → length s < f → expand_loop f s pv out ≢ stuck
unfolding expand_loop
expand_loop-ne-stuck zero s pv out h = elim h [ ]
expand_loop-ne-stuck (suc f) [] pv out h = λ e. cc
expand_loop-ne-stuck (suc f) (c ∷ rest) pv out h =
    split (round pv (c ∷ rest)) refl (λ o. expand_loop-ne-stuck f rest pv o (omega arith))
      (λ after. expand_loop-ne-stuck f after pv)
  where
    split :
        (r : Round)
        → round pv (c ∷ rest) ≡ r
        → ((o : Text) → expand_loop f rest pv o ≢ stuck)
        → ((after o : Text) → length after < f → expand_loop f after pv o ≢ stuck)
        → expand_loop (suc f) (c ∷ rest) pv out ≢ stuck
    split copy e ih jh = rw (loop_copy f c rest pv out e) (ih _)
    split (replace value after) e ih jh =
        rw (loop_replace f c rest pv out e)
          (jh after _ (omega (arith, after_shorter (round-Replaced pv (c ∷ rest) e))))
    split copy_rest e ih jh = rw (loop_copy_rest f c rest pv out e) (λ q. cc)
    split (unknown v) e ih jh = rw (loop_unknown f c rest pv out e) (λ q. cc)

-- `expand_path` gives a text or an unknown variable on every input: its loop ends.
pub expand_path-ne-stuck : (s : Text) (pv : PathVars) → expand_path s pv ≢ stuck
unfolding expand_path
expand_path-ne-stuck s pv = expand_loop-ne-stuck (suc (length s)) s pv [] (omega arith)

-- ===== src/Env/Gui/Keys.antt =====
-- Entries `KEY=VALUE` by their keys.
use mathlib.Core.Path.{subst}
use easytidy.Prelude.{
  ℕ, sym, ap, ◌∙◌, ◌≢◌, append-nil, ◌==◌, ◌≡◌, refl, Bool, true, false, not, ◌||◌, Option, none,
  some, List, [], ◌∷◌, ◌++◌, arith, Bool-cases, inl, inr, if◌then◌else◌,
}
use easytidy.Lists.{All, any, retain, retain-append}
use easytidy.Text.{Text, Free, text_eq, strip_prefix, split_once, on_fst}
use easytidy.Text.Split.{text_eq_iff, strip_prefix-some, split_once-Free}
use easytidy.PathVars.Expand.{split_once-eq}
use easytidy.Env.Gui.{prefix, starts, has, env_keys, set_env}

cons_key :
    (c x : ℕ) (o : Option (Text × Text)) {a b : Text}
    → ((p q : Text) → o ≡ some (p, q) → Free c p)
    → x ≢ c
    → on_fst x o ≡ some (a, b)
    → Free c a
cons_key c x none g n h = cc
cons_key c x (some (p, q)) {a} {b} g n h =
    let e : x ∷ p ≡ a = cc in subst (Free c) e (n, g p q refl)

pub split_once-key : (c : ℕ) (s : Text) {a b : Text} → split_once c s ≡ some (a, b) → Free c a
unfolding split_once
split_once-key c [] h = cc
split_once-key c (x ∷ s) {a} {b} h = elim (Bool-cases (x == c)) [
  | inl e ↦ let q : [] ≡ a = ground arith in subst (Free c) q tt
  | inr e ↦
      cons_key c x (split_once c s) (λ p q k. split_once-key c s {a = p} {b = q} k) (ground arith)
        (rw e at h)
]

pub starts-entry :
    (k key v : Text) → Free b'=' k → Free b'=' key → starts k (key ++ (b'=' ∷ v)) ≡ text_eq k key
unfolding strip_prefix text_eq
starts-entry [] [] v f g = refl
starts-entry [] (y ∷ key) v f g = ground arith
starts-entry (x ∷ k) [] v f g = ground arith
starts-entry (x ∷ k) (y ∷ key) v f g = ground (arith, starts-entry k key v)

prefix_rest : (k v : Text) → prefix k ++ v ≡ k ++ (b'=' ∷ v)
prefix_rest [] v = refl
prefix_rest (x ∷ k) v = ap (◌∷◌ x) (prefix_rest k v)

-- An entry of a key is no entry of another key.
pub starts-other :
    (k d e : Text)
    → Free b'=' k
    → Free b'=' d
    → text_eq d k ≡ false
    → starts k e ≡ true
    → starts d e ≡ false
starts-other k d e f g n h = split (strip_prefix (prefix k) e) refl h
  where
    split :
        (o : Option Text)
        → strip_prefix (prefix k) e ≡ o
        → ◌≡◌ {A = Bool} (elim o [ some _ ↦ true | none ↦ false ]) true
        → starts d e ≡ false
    split none q w = cc
    split (some v) q w =
        let is : e ≡ k ++ (b'=' ∷ v) = strip_prefix-some (prefix k) e v q ∙ prefix_rest k v in
        ap (starts d) is ∙ starts-entry d k v g f ∙ n

-- The keys of an environment have no equals sign in them.
pub env_keys-Free : (env : List Text) → All (Free b'=') (env_keys env)
unfolding env_keys
env_keys-Free [] = tt
env_keys-Free (kv ∷ rest) = split (split_once b'=' kv) refl (env_keys-Free rest)
  where
    split :
        (o : Option (Text × Text))
        → split_once b'=' kv ≡ o
        → All (Free b'=') (env_keys rest)
        → All (Free b'=') (elim o [ none ↦ env_keys rest | some (k, v) ↦ k ∷ env_keys rest ])
    split none q ih = ih
    split (some (k, v)) q ih = (split_once-key b'=' kv q, ih)

pub has-Free :
    (keys : List Text) (k : Text) → All (Free b'=') keys → has keys k ≡ true → Free b'=' k
unfolding any
has-Free [] k h e = cc
has-Free (x ∷ keys) k h e = elim (Bool-cases (text_eq k x)) [
  | inl q ↦ subst (Free b'=') (sym ((text_eq_iff k x).0 q)) h.0
  | inr q ↦ has-Free keys k h.1 (rw q at e)
]

-- What stands under another key stays when a variable is set, and an entry of it is not made.
module _ (k key : Text) (f : Free b'=' k) (g : Free b'=' key) (n : text_eq key k ≡ false) where
  not_same : text_eq k key ≡ false
  not_same = ground (arith, n, text_eq_iff k key, text_eq_iff key k)

  pub push-other :
      (env : List Text) (v : Text)
      → retain (starts k) (env ++ ((key ++ (b'=' ∷ v)) ∷ [])) ≡ retain (starts k) env
  unfolding retain
  push-other env v =
      retain-append (starts k) env ((key ++ (b'=' ∷ v)) ∷ [])
      ∙ rw (starts-entry k key v f g, not_same) (append-nil (retain (starts k) env))

  drop-other :
      (env : List Text)
      → retain (starts k) (retain (λ e. not (starts key e)) env) ≡ retain (starts k) env
  unfolding retain
  drop-other [] = refl
  drop-other (e ∷ env) = elim (Bool-cases (starts k e)) [
    | inl h ↦ rw (starts-other k key e f g n h, h) (ap (◌∷◌ e) (drop-other env))
    | inr h ↦ drops e (starts key e) env h (drop-other env)
  ]
    where
      drops :
          (e : Text) (b : Bool) (env : List Text)
          → starts k e ≡ false
          → retain (starts k) (retain (λ e. not (starts key e)) env) ≡ retain (starts k) env
          → retain (starts k) (
              if not b
              then e ∷ retain (λ e. not (starts key e)) env
              else retain (λ e. not (starts key e)) env)
            ≡ (if starts k e then e ∷ retain (starts k) env else retain (starts k) env)
      drops e true env h ih = rw h ih
      drops e false env h ih = rw h ih

  pub set_env-other :
      (declared : List Text) (v : Text) (env : List Text)
      → retain (starts k) (set_env declared key v env) ≡ retain (starts k) env
  unfolding set_env
  set_env-other declared v env = elim (Bool-cases (has declared key)) [
    | inl h ↦ rw h refl
    | inr h ↦ rw h (push-other (retain (λ e. not (starts key e)) env) v ∙ drop-other env)
  ]

-- A key is one of the environment's if an entry starts with it.
entry_key :
    (k kv : Text) (o : Option (Text × Text))
    → Free b'=' k
    → split_once b'=' kv ≡ o
    → starts k kv ≡ elim o [ none ↦ false | some (key, v) ↦ text_eq k key ]
entry_key k kv (some (key, v)) f q =
    ap (starts k) (split_once-eq b'=' kv q) ∙ starts-entry k key v f (split_once-key b'=' kv q)
entry_key k kv none f q = absent (strip_prefix (prefix k) kv) refl
  where
    absent :
        (o : Option Text)
        → strip_prefix (prefix k) kv ≡ o
        → ◌≡◌ {A = Bool} (elim o [ some _ ↦ true | none ↦ false ]) false
    absent none w = refl
    absent (some v) w =
        let is : kv ≡ k ++ (b'=' ∷ v) = strip_prefix-some (prefix k) kv v w ∙ prefix_rest k v in
        cc (ap (split_once b'=') is ∙ split_once-Free b'=' k v f, q)

pub has-env_keys :
    (k : Text) (env : List Text) → Free b'=' k → has (env_keys env) k ≡ any (starts k) env
unfolding env_keys any
has-env_keys k [] f = refl
has-env_keys k (kv ∷ env) f =
    split (split_once b'=' kv) (entry_key k kv (split_once b'=' kv) f refl) (has-env_keys k env f)
  where
    split :
        (o : Option (Text × Text))
        → starts k kv ≡ elim o [ none ↦ false | some (key, v) ↦ text_eq k key ]
        → has (env_keys env) k ≡ any (starts k) env
        → has (elim o [ none ↦ env_keys env | some (key, v) ↦ key ∷ env_keys env ]) k
          ≡ (starts k kv || any (starts k) env)
    split none q ih = rw q ih
    split (some (key, v)) q ih = rw (q, ih) refl

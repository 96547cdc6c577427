-- ===== src/Frame/BigEndian.antt =====
-- A transport that keeps its promises: each payload behind four bytes, the most significant first, that
-- count it; a message is its own text.
use easytidy.Prelude.{
  ℕ, zero, suc, ◌+◌, ◌*◌, ◌/◌, ◌%◌, ◌^◌, ◌≤◌, ◌<◌, ◌≡◌, refl, sym, ap, ◌∙◌, true, Option, none,
  some, [], ◌∷◌, ◌++◌, arith, if◌then◌else◌, ltb, leb, Bool-cases, inl, inr, ltb→lt, ltb-false→le,
}
use easytidy.Lists.{length, length-append, drop}
use easytidy.Frame.{Bytes, Chunk, payload, wait, corrupt, max_frame_len, Wire}

abbrev take : ℕ → Bytes → Bytes
take zero xs = []
take (suc n) [] = []
take (suc n) (x ∷ xs) = x ∷ take n xs

take-append : (p rest : Bytes) → take (length p) (p ++ rest) ≡ p
take-append [] rest = refl
take-append (x ∷ p) rest = ap (λ z. x ∷ z) (take-append p rest)

drop-length-append : (p rest : Bytes) → drop (length p) (p ++ rest) ≡ rest
drop-length-append [] rest = refl
drop-length-append (x ∷ p) rest = drop-length-append p rest

unfoldable pub put : ℕ → Bytes
put n = n / 2 ^ 24 % 256 ∷ n / 2 ^ 16 % 256 ∷ n / 2 ^ 8 % 256 ∷ n % 256 ∷ []

unfoldable pub get : Bytes → ℕ × Bytes
get (a ∷ b ∷ c ∷ d ∷ rest) = (a * 2 ^ 24 + b * 2 ^ 16 + c * 2 ^ 8 + d, rest)
get rest = (0, [])

pub get-put : (n : ℕ) (rest : Bytes) → n < 2 ^ 32 → get (put n ++ rest) ≡ (n, rest)
unfolding get put
get-put n rest h = ap (λ z. (z, rest)) (omega arith)

-- What the four bytes of the header demand, of the bytes behind them.
unfoldable pub deliver : Bytes → ℕ → Bytes → Chunk (Unit {0})
deliver src n rest =
    if ltb max_frame_len n
    then corrupt tt rest
    else if leb n (length rest)
    then payload (take n rest) tt (drop n rest)
    else wait tt src

unfoldable pub receive : Unit {0} → Bytes → Chunk (Unit {0})
unfolding deliver
receive u src = if ltb (length src) 4 then wait tt src else deliver src (get src).0 (get src).1

unfoldable pub send : Bytes → Bytes → Option Bytes
send p dst = if ltb max_frame_len (length p) then none else some (dst ++ (put (length p) ++ p))

get-append :
    (front r : Bytes) → 4 ≤ length front → get (front ++ r) ≡ ((get front).0, (get front).1 ++ r)
unfolding get
get-append [] r h = absurd (omega arith)
get-append (a ∷ []) r h = absurd (omega arith)
get-append (a ∷ b ∷ []) r h = absurd (omega arith)
get-append (a ∷ b ∷ c ∷ []) r h = absurd (omega arith)
get-append (a ∷ b ∷ c ∷ d ∷ front) r h = refl

pub length-put : (n : ℕ) → length (put n) ≡ 4
unfolding put
length-put n = refl

deliver_whole :
    (src p rest : Bytes)
    → length p ≤ max_frame_len
    → deliver src (length p) (p ++ rest) ≡ payload p tt rest
unfolding deliver
deliver_whole src p rest h =
    ground (arith, length-append p rest, take-append p rest, drop-length-append p rest)

receive_long :
    (u : Unit {0}) (src : Bytes)
    → 4 ≤ length src
    → receive u src ≡ deliver src (get src).0 (get src).1
unfolding receive
receive_long u src h = ground arith

receive_short : (u : Unit {0}) (src : Bytes) → length src < 4 → receive u src ≡ wait tt src
unfolding receive
receive_short u src h = ground arith

fits_u32 : (n : ℕ) → n ≤ max_frame_len → n < 2 ^ 32
fits_u32 n h = omega arith

pub receive_whole :
    (p rest : Bytes)
    → length p ≤ max_frame_len
    → receive tt (put (length p) ++ (p ++ rest)) ≡ payload p tt rest
receive_whole p rest h =
    let src = put (length p) ++ (p ++ rest) in
    receive_long tt src
      (omega (arith, length-append (put (length p)) (p ++ rest), length-put (length p)))
    ∙ ap (λ z. deliver src z.0 z.1) (get-put (length p) (p ++ rest) (fits_u32 (length p) h))
    ∙ deliver_whole src p rest h

get-put_self : (p : Bytes) → length p ≤ max_frame_len → get (put (length p) ++ p) ≡ (length p, p)
get-put_self p h = get-put (length p) p (fits_u32 (length p) h)

deliver_part :
    (src rest : Bytes) (n : ℕ)
    → n ≤ max_frame_len
    → length rest < n
    → deliver src n rest ≡ wait tt src
unfolding deliver
deliver_part src rest n h k = ground arith

pub receive_part :
    (p front back : Bytes) (x : ℕ)
    → length p ≤ max_frame_len
    → put (length p) ++ p ≡ front ++ (x ∷ back)
    → (s : Unit {0}) × (left : Bytes) × (receive tt front ≡ wait s left)
receive_part p front back x h e = (
  tt,
  front,
  elim (Bool-cases (ltb (length front) 4)) [
    | inl short ↦ receive_short tt front (ltb→lt (length front) 4 short)
    | inr long ↦
        let le = ltb-false→le (length front) 4 long in
        let whole : ((get front).0, (get front).1 ++ (x ∷ back)) ≡ (length p, p) =
          sym (get-append front (x ∷ back) le) ∙ ap get (sym e) ∙ get-put_self p h in
        receive_long tt front le
        ∙ deliver_part front (get front).1 (get front).0 (rw (ap (λ z. z.0) whole) h) (
            omega (
              arith,
              ap (λ z. z.0) whole,
              ap (λ z. length z.1) whole,
              length-append (get front).1 (x ∷ back),
            ))
  ],
)

deliver-wait :
    (src rest left : Bytes) (n : ℕ) (s : Unit {0}) → deliver src n rest ≡ wait s left → left ≡ src
unfolding deliver
deliver-wait src rest left n s e = ground arith

receive-wait : (u s : Unit {0}) (src left : Bytes) → receive u src ≡ wait s left → left ≡ src
unfolding receive
receive-wait u s src left e = ground (arith, deliver-wait src (get src).1 left (get src).0 s)

pub receive_resumes :
    (s s' : Unit {0}) (buf left more : Bytes)
    → receive s buf ≡ wait s' left
    → receive s' (left ++ more) ≡ receive s (buf ++ more)
receive_resumes s s' buf left more e = rw (receive-wait s s' buf left e) refl

pub send_fits :
    (p dst : Bytes) → length p ≤ max_frame_len → send p dst ≡ some (dst ++ (put (length p) ++ p))
unfolding send
send_fits p dst h = ground arith

pub send_too_long : (p dst : Bytes) → max_frame_len < length p → send p dst ≡ none
unfolding send
send_too_long p dst h = ground arith

abbrev pub wire : Wire
wire = record {
  Message = Bytes;
  State = Unit {0};
  init = tt;
  ld_decode = receive;
  ld_encode = send;
  header = λ p. put (length p);
  put_u32 = put;
  get_u32 = get;
  is_utf8 = λ b. true;
  from_str = λ b. some b;
  to_vec = λ m. some m;
  encode_fits = send_fits;
  encode_too_long = send_too_long;
  decode_whole = receive_whole;
  decode_part = receive_part;
  decode_resumes = receive_resumes;
  get-put_u32 = get-put;
  length-put_u32 = length-put;
  to_vec_utf8 = λ m b e. refl;
  from_str-to_vec = λ m b e. sym e;
}

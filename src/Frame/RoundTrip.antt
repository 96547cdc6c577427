-- ===== src/Frame/RoundTrip.antt =====
-- One frame: encoding and decoding, cut input, and what is refused.
use easytidy.Prelude.{
  ℕ, ◌+◌, ◌≤◌, ◌≡◌, refl, ◌∙◌, inl, inr, Option, none, some, [], ◌∷◌, ◌++◌, arith, Bool-cases,
  if◌then◌else◌, append_assoc, sym, ltb, ltb→lt, ltb-false→le, leb,
}
use easytidy.Lists.{length, length-append}
use easytidy.Text.Decimal.{IsU32}
use easytidy.Frame.{
  Bytes, Wire, wait, max_frame_len, frame_json, frame_raw, Frame, Decoded, decode_payload, decode,
  payload_of, encode, decode_frame,
}
use mathlib.Core.Option.{some-injective}

module _ (w : Wire) where
  open w use {
    Message, State, init, ld_decode, ld_encode, header, put_u32, get_u32, is_utf8, from_str, to_vec,
    encode_fits, encode_too_long, decode_whole, decode_part, decode_resumes, get-put_u32,
    length-put_u32, to_vec_utf8, from_str-to_vec,
  }

  -- The stream id, if there is one, is a u32.
  abbrev pub IdFits : Frame w → Type 0
  IdFits (Frame.json m) = Unit {0}
  IdFits (Frame.raw stream_id d) = IsU32 stream_id

  decode_payload-json :
      (m : Message) (b : Bytes) (s : State) (left : Bytes)
      → to_vec m ≡ some b
      → decode_payload w (frame_json ∷ b) s left ≡ Decoded.item (Frame.json m) s left
  unfolding decode_payload
  decode_payload-json m b s left e = rw (to_vec_utf8 m b e, from_str-to_vec m b e) refl

  decode_payload-raw :
      (stream_id : ℕ) (d : Bytes) (s : State) (left : Bytes)
      → IsU32 stream_id
      → decode_payload w (frame_raw ∷ (put_u32 stream_id ++ d)) s left
        ≡ Decoded.item (Frame.raw stream_id d) s left
  unfolding decode_payload
  decode_payload-raw stream_id d s left h = ground (
    arith,
    get-put_u32 stream_id d h,
    length-append (put_u32 stream_id) d,
    length-put_u32 stream_id,
  )

  decode_payload-payload_of :
      (fr : Frame w) (p : Bytes) (s : State) (left : Bytes)
      → IdFits fr
      → payload_of w fr ≡ some p
      → decode_payload w p s left ≡ Decoded.item fr s left
  unfolding payload_of
  decode_payload-payload_of (Frame.json m) p s left h e = split (to_vec m) refl e
    where
      split :
          (o : Option Bytes)
          → to_vec m ≡ o
          → elim o [ some b ↦ some (frame_json ∷ b) | none ↦ none ] ≡ some p
          → decode_payload w p s left ≡ Decoded.item (Frame.json m) s left
      split none q r = cc
      split (some b) q r =
          let eq : frame_json ∷ b ≡ p = ground arith in rw (← eq) (decode_payload-json m b s left q)
  decode_payload-payload_of (Frame.raw i d) p s left h e =
      let eq : frame_raw ∷ (put_u32 i ++ d) ≡ p = ground arith in
      rw (← eq) (decode_payload-raw i d s left h)

  abbrev pub on_wire : Bytes → Bytes
  on_wire p = header p ++ p

  -- A frame that was encoded: its payload, with the header in front.
  pub record Sent (fr : Frame w) (dst out : Bytes) : Type 0 where
    pub body : Bytes
    pub is_payload : payload_of w fr ≡ some body
    pub fits : length body ≤ max_frame_len
    pub written : out ≡ dst ++ on_wire body

  Sent-body :
      (fr : Frame w) (p dst out : Bytes)
      → payload_of w fr ≡ some p
      → ld_encode p dst ≡ some out
      → Sent fr dst out
  Sent-body fr p dst out e h = elim (Bool-cases (ltb max_frame_len (length p))) [
    | inl long ↦ cc (h, encode_too_long p dst (ltb→lt max_frame_len (length p) long))
    | inr short ↦ record {
      body = p;
      is_payload = e;
      fits = ltb-false→le max_frame_len (length p) short;
      written =
          some-injective _ _
            (sym h ∙ encode_fits p dst (ltb-false→le max_frame_len (length p) short));
    }
  ]

  pub encode-Sent : (fr : Frame w) (dst out : Bytes) → encode w fr dst ≡ some out → Sent fr dst out
  unfolding encode
  encode-Sent fr dst out h = split (payload_of w fr) refl h
    where
      split :
          (o : Option Bytes)
          → payload_of w fr ≡ o
          → elim o [ none ↦ none | some b ↦ ld_encode b dst ] ≡ some out
          → Sent fr dst out
      split none q r = cc
      split (some b) q r = Sent-body fr b dst out q r

  pub decode-Sent :
      (fr : Frame w) (dst out rest : Bytes) (s : Sent fr dst out)
      → IdFits fr
      → decode w init (on_wire s.body ++ rest) ≡ Decoded.item fr init rest
  unfolding decode
  decode-Sent fr dst out rest s h =
      rw (append_assoc (header s.body) s.body rest, decode_whole s.body rest s.fits, decode)
        (decode_payload-payload_of fr s.body init rest h s.is_payload)

  -- What `encode` has written decodes to the frame, and leaves what follows it.
  pub decode_frame-encode :
      (fr : Frame w) (out rest : Bytes)
      → IdFits fr
      → encode w fr [] ≡ some out
      → decode_frame w (out ++ rest) ≡ Decoded.item fr init rest
  unfolding decode_frame
  decode_frame-encode fr out rest h e =
      let s = encode-Sent fr [] out e in rw s.written (decode-Sent fr [] out rest s h)

  decode_wait :
      (s s' : State) (src left : Bytes)
      → ld_decode s src ≡ wait s' left
      → decode w s src ≡ Decoded.need_more s' left
  unfolding decode
  decode_wait s s' src left e = rw (e, decode)

  decode_same :
      (s s' : State) (a b : Bytes) → ld_decode s a ≡ ld_decode s' b → decode w s a ≡ decode w s' b
  unfolding decode
  decode_same s s' a b e = rw (e, decode)

  -- On a part of an encoded frame the codec asks for more; given the other bytes, it yields the
  -- frame.
  pub decode-cut :
      (fr : Frame w) (out front back rest : Bytes) (x : ℕ)
      → IdFits fr
      → encode w fr [] ≡ some out
      → out ≡ front ++ (x ∷ back)
      → (s : State) × (left : Bytes) × (decode w init front ≡ Decoded.need_more s left)
        × (decode w s (left ++ ((x ∷ back) ++ rest)) ≡ Decoded.item fr init rest)
  unfolding decode decode_frame
  decode-cut fr out front back rest x h e c =
      let sent = encode-Sent fr [] out e in
      let (s, left, waits) = decode_part sent.body front back x sent.fits (sym sent.written ∙ c) in
      (
        s,
        left,
        decode_wait init s front left waits,
        decode_same s init _ _ (decode_resumes init s front left ((x ∷ back) ++ rest) waits)
            ∙ rw (← append_assoc front (x ∷ back) rest, ← c) (decode_frame-encode fr out rest h e),
      )

  -- A raw frame is encoded behind what `dst` holds if its bytes, the stream id and the discriminator
  -- do not pass MAX_FRAME_LEN together; a longer one is refused.
  pub encode_raw_limit :
      (i : ℕ) (d dst : Bytes)
      → encode w (Frame.raw i d) dst ≡ (
          if leb (length d + 5) max_frame_len
          then some (dst ++ on_wire (frame_raw ∷ (put_u32 i ++ d)))
          else none)
  unfolding encode
  encode_raw_limit i d dst = ground (
    arith,
    length-append (put_u32 i) d,
    length-put_u32 i,
    encode_fits (frame_raw ∷ (put_u32 i ++ d)) dst,
    encode_too_long (frame_raw ∷ (put_u32 i ++ d)) dst,
  )

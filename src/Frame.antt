-- ===== src/Frame.antt =====
-- crates/protocol/src/frame.rs: frames with a discriminator byte, over a length-prefixed transport.
-- The transport (`LengthDelimitedCodec` of tokio-util), the byte order of `BytesMut` and the JSON of
-- `serde_json` are the record `Wire`, with what their documentation says as its laws.
pub mod RoundTrip
pub mod Stream
pub mod BigEndian
mod Tests
use easytidy.Prelude.{
  ℕ, zero, suc, ◌+◌, ◌*◌, ◌^◌, ◌≤◌, ◌<◌, ◌≡◌, Bool, true, false, not, Option, none, some, List, [],
  ◌∷◌, ◌++◌, ◌==◌, if◌then◌else◌, ltb,
}
use easytidy.Lists.{length}

abbrev pub Bytes : Type 0
Bytes = List ℕ

-- What the length-delimited decoder answers: a payload and what is left, a demand for more bytes
-- with what is left, or an error.
pub data Chunk (S : Type 0) : Type 0 where
  payload : Bytes → S → Bytes → Chunk S
  wait : S → Bytes → Chunk S
  corrupt : S → Bytes → Chunk S

-- `MAX_FRAME_LEN`
abbrev pub max_frame_len : ℕ
max_frame_len = 64 * 1024 * 1024

-- `FRAME_JSON` and `FRAME_RAW`
abbrev pub frame_json : ℕ
frame_json = 1

abbrev pub frame_raw : ℕ
frame_raw = 2

pub record Wire : Type 1 where
  pub Message : Type 0
  pub State : Type 0
  pub init : State
  -- `LengthDelimitedCodec::decode` and `encode`, with `max_frame_length(MAX_FRAME_LEN)`.
  pub ld_decode : State → Bytes → Chunk State
  pub ld_encode : Bytes → Bytes → Option Bytes
  -- The length prefix of a payload.
  pub header : Bytes → Bytes
  -- `BufMut::put_u32` and `Buf::get_u32`, the latter on four bytes and more.
  pub put_u32 : ℕ → Bytes
  pub get_u32 : Bytes → ℕ × Bytes
  -- `str::from_utf8`, `serde_json::from_str` and `to_vec`.
  pub is_utf8 : Bytes → Bool
  pub from_str : Bytes → Option Message
  pub to_vec : Message → Option Bytes
  pub encode_fits :
      (p dst : Bytes) → length p ≤ max_frame_len → ld_encode p dst ≡ some (dst ++ (header p ++ p))
  pub encode_too_long : (p dst : Bytes) → max_frame_len < length p → ld_encode p dst ≡ none
  pub decode_whole :
      (p rest : Bytes)
      → length p ≤ max_frame_len
      → ld_decode init (header p ++ (p ++ rest)) ≡ payload p init rest
  pub decode_part :
      (p front back : Bytes) (x : ℕ)
      → length p ≤ max_frame_len
      → header p ++ p ≡ front ++ (x ∷ back)
      → (s : State) × (left : Bytes) × (ld_decode init front ≡ wait s left)
  pub decode_resumes :
      (s s' : State) (buf left more : Bytes)
      → ld_decode s buf ≡ wait s' left
      → ld_decode s' (left ++ more) ≡ ld_decode s (buf ++ more)
  pub get-put_u32 : (n : ℕ) (rest : Bytes) → n < 2 ^ 32 → get_u32 (put_u32 n ++ rest) ≡ (n, rest)
  pub length-put_u32 : (n : ℕ) → length (put_u32 n) ≡ 4
  pub to_vec_utf8 : (m : Message) (b : Bytes) → to_vec m ≡ some b → is_utf8 b ≡ true
  pub from_str-to_vec : (m : Message) (b : Bytes) → to_vec m ≡ some b → from_str b ≡ some m

pub data Reason : Type 0 where
  length_error no_discriminator bad_utf8 bad_json raw_too_short : Reason
  unknown_discriminator : ℕ → Reason

module _ (w : Wire) where
  open w use {
    Message, State, init, ld_decode, ld_encode, put_u32, get_u32, is_utf8, from_str, to_vec,
  }

  pub data Frame : Type 0 where
    json : Message → Frame
    raw : ℕ → Bytes → Frame

  -- `Ok(Some(frame))`, `Ok(None)` and `Err`, with the codec's state and the bytes that are left.
  pub data Decoded : Type 0 where
    item : Frame → State → Bytes → Decoded
    need_more : State → Bytes → Decoded
    invalid : Reason → State → Bytes → Decoded

  -- The two arms of `match discriminator` behind `get_u8`.
  unfoldable pub decode_json : Bytes → State → Bytes → Decoded
  decode_json b s left =
      if is_utf8 b
      then elim (from_str b) [ some m ↦ item (json m) s left | none ↦ invalid bad_json s left ]
      else invalid bad_utf8 s left

  unfoldable pub decode_raw : Bytes → State → Bytes → Decoded
  decode_raw b s left =
      if ltb (length b) 4
      then invalid raw_too_short s left
      else item (raw (get_u32 b).0 (get_u32 b).1) s left

  unfoldable pub decode_payload : Bytes → State → Bytes → Decoded
  unfolding decode_json decode_raw
  decode_payload [] s left = invalid no_discriminator s left
  decode_payload (d ∷ b) s left =
      if d == frame_json
      then decode_json b s left
      else if d == frame_raw
      then decode_raw b s left
      else invalid (unknown_discriminator d) s left

  -- `FrameCodec::decode`
  unfoldable pub decode : State → Bytes → Decoded
  unfolding decode_payload
  decode s src = elim (ld_decode s src) [
    | wait s' left ↦ need_more s' left
    | corrupt s' left ↦ invalid length_error s' left
    | payload b s' left ↦ decode_payload b s' left
  ]

  unfoldable pub payload_of : Frame → Option Bytes
  payload_of (json m) = elim (to_vec m) [ some b ↦ some (frame_json ∷ b) | none ↦ none ]
  payload_of (raw stream_id b) = some (frame_raw ∷ (put_u32 stream_id ++ b))

  -- `FrameCodec::encode` appends to `dst`; `none` is its error, which leaves `dst` as it was.
  unfoldable pub encode : Frame → Bytes → Option Bytes
  unfolding payload_of
  encode frame dst = elim (payload_of frame) [ none ↦ none | some b ↦ ld_encode b dst ]

  -- `decode_frame`: a fresh codec.
  unfoldable pub decode_frame : Bytes → Decoded
  decode_frame src = decode init src

  -- The frames that `Framed` yields from the bytes at hand: it decodes until more is wanted. `none`
  -- is a decoding error, or that `fuel` frames were not enough.
  unfoldable pub decode_all : ℕ → State → Bytes → Option (List Frame × State × Bytes)
  decode_all zero s src = none
  decode_all (suc fuel) s src = elim (decode s src) [
    | item frame s' left ↦ elim (decode_all fuel s' left) [
      | none ↦ none
      | some (frames, s'', left') ↦ some (frame ∷ frames, s'', left')
    ]
    | need_more s' left ↦ some ([], s', left)
    | invalid r s' left ↦ none
  ]

  -- The frames one after the other.
  unfoldable pub encode_all : List Frame → Bytes → Option Bytes
  encode_all [] dst = some dst
  encode_all (f ∷ fs) dst = elim (encode f dst) [ none ↦ none | some dst' ↦ encode_all fs dst' ]

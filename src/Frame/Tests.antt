-- ===== src/Frame/Tests.antt =====
-- A raw frame and a JSON frame over the big-endian transport.
use easytidy.Prelude.{◌≡◌, refl, ◌+◌, some, none, [], ◌∷◌, ◌++◌, arith, if◌then◌else◌, leb}
use easytidy.Lists.{length}
use easytidy.Frame.{
  Bytes, Frame, Decoded, decode, encode, decode_all, encode_all, frame_raw, max_frame_len,
}
use easytidy.Frame.RoundTrip.{decode-cut, encode_raw_limit, on_wire}
use easytidy.Frame.Stream.{decode_all-encode_all}
use easytidy.Frame.BigEndian.{wire, put, send, receive}

abbrev frame : Frame wire
frame = Frame.raw 7 (104 ∷ 105 ∷ [])

abbrev frame_bytes : Bytes
frame_bytes = 0 ∷ 0 ∷ 0 ∷ 7 ∷ 2 ∷ 0 ∷ 0 ∷ 0 ∷ 7 ∷ 104 ∷ 105 ∷ []

frame_encoded : encode wire frame [] ≡ some frame_bytes
unfolding encode send put
frame_encoded = refl

cut_example :
    (s : Unit {0}) × (left : Bytes) × (decode wire tt (0 ∷ 0 ∷ []) ≡ Decoded.need_more s left)
    × (decode wire s (left ++ ((0 ∷ 7 ∷ 2 ∷ 0 ∷ 0 ∷ 0 ∷ 7 ∷ 104 ∷ 105 ∷ []) ++ []))
        ≡ Decoded.item frame tt [])
cut_example =
    decode-cut wire frame frame_bytes (0 ∷ 0 ∷ []) (7 ∷ 2 ∷ 0 ∷ 0 ∷ 0 ∷ 7 ∷ 104 ∷ 105 ∷ []) [] 0
      (omega arith) frame_encoded refl

abbrev one_byte : Bytes
one_byte = 1 ∷ []

limit_example : encode wire (Frame.raw 7 one_byte) [] ≡ (
    if leb (length one_byte + 5) max_frame_len
    then some ([] ++ on_wire wire (frame_raw ∷ (put 7 ++ one_byte)))
    else none)
limit_example = encode_raw_limit wire 7 one_byte []

stream_encoded :
    encode_all wire (frame ∷ Frame.json (123 ∷ []) ∷ []) []
    ≡ some (frame_bytes ++ (0 ∷ 0 ∷ 0 ∷ 2 ∷ 1 ∷ 123 ∷ []))
unfolding encode_all encode send put
stream_encoded = refl

nothing_left : decode wire tt (0 ∷ []) ≡ Decoded.need_more tt (0 ∷ [])
unfolding decode receive
nothing_left = refl

stream_example :
    decode_all wire 3 tt ((frame_bytes ++ (0 ∷ 0 ∷ 0 ∷ 2 ∷ 1 ∷ 123 ∷ [])) ++ (0 ∷ []))
    ≡ some (frame ∷ Frame.json (123 ∷ []) ∷ [], tt, 0 ∷ [])
stream_example =
    decode_all-encode_all wire (frame ∷ Frame.json (123 ∷ []) ∷ [])
      (frame_bytes ++ (0 ∷ 0 ∷ 0 ∷ 2 ∷ 1 ∷ 123 ∷ [])) (0 ∷ []) (0 ∷ []) tt (omega arith, (tt, tt))
      stream_encoded nothing_left

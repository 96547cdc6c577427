-- ===== src/Frame/Stream.antt =====
-- Frames one after the other in one stream.
use easytidy.Prelude.{
  ℕ, zero, suc, ◌<◌, ◌≡◌, refl, ap, ◌∙◌, Option, none, some, List, [], ◌∷◌, ◌++◌, arith,
  append_assoc, sym, append-nil,
}
use easytidy.Lists.{length, All}
use easytidy.Frame.{Bytes, Wire, Frame, Decoded, decode, encode, decode_all, encode_all}
use easytidy.Frame.RoundTrip.{IdFits, on_wire, Sent, encode-Sent, decode-Sent}
use mathlib.Core.Option.{some-injective}

module _ (w : Wire) where
  open w use {State, init}

  decode_all_item :
      (fuel : ℕ) (s s' s'' : State) (src left left' : Bytes) (fr : Frame w) (frs : List (Frame w))
      → decode w s src ≡ Decoded.item fr s' left
      → decode_all w fuel s' left ≡ some (frs, s'', left')
      → decode_all w (suc fuel) s src ≡ some (fr ∷ frs, s'', left')
  unfolding decode_all
  decode_all_item fuel s s' s'' src left left' fr frs e h = rw (e, decode_all, h)

  decode_all_wait :
      (fuel : ℕ) (s s' : State) (src left : Bytes)
      → decode w s src ≡ Decoded.need_more s' left
      → decode_all w (suc fuel) s src ≡ some ([], s', left)
  unfolding decode_all
  decode_all_wait fuel s s' src left e = rw (e, decode_all)

  -- What the frames of a list put on the wire, and that each of them is decoded.
  record Written (frs : List (Frame w)) (dst out : Bytes) : Type 0 where
    bytes : Bytes
    written : out ≡ dst ++ bytes
    decoded :
        (tail left : Bytes) (s : State) (fuel : ℕ)
        → decode w init tail ≡ Decoded.need_more s left
        → length frs < fuel
        → decode_all w fuel init (bytes ++ tail) ≡ some (frs, s, left)

  followed :
      (fr : Frame w) (frs : List (Frame w)) (dst out : Bytes) (sent : Sent w fr dst out)
      → IdFits w fr
      → (bytes tail left : Bytes) (s : State) (fuel : ℕ)
      → decode w init tail ≡ Decoded.need_more s left
      → suc (length frs) < fuel
      → ((k : ℕ) → length frs < k → decode_all w k init (bytes ++ tail) ≡ some (frs, s, left))
      → decode_all w fuel init ((on_wire w sent.body ++ bytes) ++ tail) ≡ some (fr ∷ frs, s, left)
  followed fr frs dst out sent h bytes tail left s zero d b f = absurd (omega arith)
  followed fr frs dst out sent h bytes tail left s (suc fuel) d b f =
      rw (append_assoc (on_wire w sent.body) bytes tail) (
        decode_all_item fuel init init s _ (bytes ++ tail) left fr frs
          (decode-Sent w fr dst out (bytes ++ tail) sent h) (f fuel (omega arith)))

  encode_all-Written :
      (frs : List (Frame w)) (dst out : Bytes)
      → All (IdFits w) frs
      → encode_all w frs dst ≡ some out
      → Written frs dst out
  unfolding encode_all
  encode_all-Written [] dst out h e = record {
    bytes = [];
    written = sym (some-injective _ _ e) ∙ sym (append-nil dst);
    decoded = λ tail left s fuel d b. none_left fuel tail left s d b;
  }
    where
      none_left :
          (fuel : ℕ) (tail left : Bytes) (s : State)
          → decode w init tail ≡ Decoded.need_more s left
          → 0 < fuel
          → decode_all w fuel init tail ≡ some ([], s, left)
      none_left zero tail left s d b = absurd (omega arith)
      none_left (suc fuel) tail left s d b = decode_all_wait fuel init s tail left d
  encode_all-Written (fr ∷ frs) dst out h e =
      step (λ d r. encode_all-Written frs d out h.1 r) (encode w fr dst) refl e
    where
      step :
          ((d : Bytes) → encode_all w frs d ≡ some out → Written frs d out)
          → (o : Option Bytes) → encode w fr dst ≡ o
          → elim o [ none ↦ none | some dst' ↦ encode_all w frs dst' ] ≡ some out
          → Written (fr ∷ frs) dst out
      step rest none q r = cc
      step rest (some dst') q r =
          let sent = encode-Sent w fr dst dst' q in
          let more = rest dst' r in
          record {
            bytes = on_wire w sent.body ++ more.bytes;
            written =
                more.written
                ∙ ap (λ z. z ++ more.bytes) sent.written
                ∙ append_assoc dst (on_wire w sent.body) more.bytes;
            decoded = λ tail left s fuel d b.
                followed fr frs dst dst' sent h.0 more.bytes tail left s fuel d b
                  (λ k c. more.decoded tail left s k d c);
          }

  pub decode_all-encode_all :
      (frs : List (Frame w)) (out tail left : Bytes) (s : State)
      → All (IdFits w) frs
      → encode_all w frs [] ≡ some out
      → decode w init tail ≡ Decoded.need_more s left
      → decode_all w (suc (length frs)) init (out ++ tail) ≡ some (frs, s, left)
  decode_all-encode_all frs out tail left s h e d =
      let sent = encode_all-Written frs [] out h e in
      rw sent.written (sent.decoded tail left s (suc (length frs)) d (omega arith))

-- ===== src/Dock/Replay.antt =====
-- The dock's ring keeps the last bytes, and replays what the server's terminals would.
use easytidy.Prelude.{
  ℕ, ◌-◌, ◌≤◌, ◌≡◌, refl, sym, ap, ◌∙◌, List, [], ◌∷◌, ◌++◌, arith, append_assoc, append-nil, ltb,
  Bool-cases, inl, inr, ltb→lt, ltb-false→le,
}
use easytidy.Lists.{length, length-append}
use easytidy.Dock.{ReplayRing, push_byte, push, replay_wrapped}
use easytidy.Server.Ring.{last, trim-last, last-last, length-last, short-last}
use easytidy.Server.Pty.{replay}
use easytidy.Server.Reader.{trim}

push_byte-last :
    (r : ReplayRing) (b : ℕ)
    → length r.bytes ≤ r.max
    → (push_byte r b).bytes ≡ last r.max (r.bytes ++ (b ∷ []))
unfolding push_byte
push_byte-last r b h = elim (Bool-cases (ltb r.max (length (r.bytes ++ (b ∷ []))))) [
  | inl e ↦
      let long = ltb→lt r.max (length (r.bytes ++ (b ∷ []))) e in
      let one : length (r.bytes ++ (b ∷ [])) - r.max ≡ 1 =
        omega (arith, length-append r.bytes (b ∷ [])) in
      rw (e, one) refl
  | inr e ↦
      let short = ltb-false→le r.max (length (r.bytes ++ (b ∷ []))) e in
      rw e (sym (short-last r.max (r.bytes ++ (b ∷ [])) short))
]

push_byte-max : (r : ReplayRing) (b : ℕ) → (push_byte r b).max ≡ r.max
unfolding push_byte
push_byte-max r b = refl

-- Pushed byte by byte, the ring holds the last `max` bytes of what it held and what was pushed, and
-- keeps to its bound.
pub push-last :
    (r : ReplayRing) (bs : List ℕ)
    → length r.bytes ≤ r.max
    → ((push r bs).bytes ≡ last r.max (r.bytes ++ bs)) × (length (push r bs).bytes ≤ r.max)
unfolding push
push-last r [] h = (sym (ap (last r.max) (append-nil r.bytes) ∙ short-last r.max r.bytes h), h)
push-last r (b ∷ bs) h =
    let one = push_byte-last r b h in
    let (rest, bound) =
      push-last (push_byte r b) bs
        (rw (push_byte-max r b, one) (length-last r.max (r.bytes ++ (b ∷ [])))) in
    (
      rest
          ∙ rw (push_byte-max r b) (ap (λ x. last r.max (x ++ bs)) one)
          ∙ last-last r.max (r.bytes ++ (b ∷ [])) bs
          ∙ ap (last r.max) (append_assoc r.bytes (b ∷ []) bs),
      bound,
    )

-- The dock's ring, filled byte by byte, holds what the server's ring does, which is extended and then
-- trimmed; so both replay the same bytes on an attach.
pub replay_wrapped-replay :
    (r : ReplayRing) (bs : List ℕ)
    → length r.bytes ≤ r.max
    → replay_wrapped (push r bs) ≡ replay (trim r.max (r.bytes ++ bs))
unfolding replay_wrapped replay
replay_wrapped-replay r bs h = rw ((push-last r bs h).0, trim-last r.max (r.bytes ++ bs)) refl

-- ===== src/Dock/Session/Output.antt =====
-- Who receives a root session's output.
use easytidy.Prelude.{
  ℕ, ◌≡◌, refl, ap, ◌∙◌, true, false, not, some, List, [], ◌∷◌, ◌==◌, arith, ◌&&◌,
}
use easytidy.Lists.{get_elem?, retain, retain_ext, any, All}
use easytidy.Server.{Json, Frame, Channel, send_all}
use easytidy.Server.Reader.{drop_tokens}
use easytidy.Server.Sending.{
  delivered, copies, refuses, send_all-copies, send_all-refuses, delivered-nil,
}
use easytidy.Dock.{push}
use easytidy.Dock.Session.{RootSession, unsubscribe, push_output, fan_out, root_stream_id}

retain_all : (xs : List (ℕ × ℕ)) → xs ≡ retain (λ e. true) xs
unfolding retain
retain_all [] = refl
retain_all (x ∷ xs) = ap (λ r. x ∷ r) (retain_all xs)

module _ (j : Json) where
  -- Taking off nobody is what the code leaves out where nobody is dead.
  fan_out-subs :
      (chans : List (Channel j)) (s : RootSession) (f : Frame j)
      → (fan_out j chans s f).1.subs ≡ drop_tokens (send_all j chans s.subs f).0 s.subs
  fan_out-subs chans s f = split (send_all j chans s.subs f).0
    where
      split :
          (dead : List ℕ)
          → (elim dead as (λ d. RootSession) [
            | [] ↦ s
            | t ∷ ts ↦ record s { subs = drop_tokens (t ∷ ts) s.subs }
          ]).subs
            ≡ drop_tokens dead s.subs
      split [] = unfold any in retain_all s.subs
      split (t ∷ ts) = refl

  -- Output that is not empty reaches each channel with a living receiver once for each subscription of it,
  -- the ring takes it, and the subscribers that stay are those of tokens with no subscription that refused;
  -- empty output changes nothing.
  pub push_output-broadcast :
      (chans : List (Channel j)) (s : RootSession) (b : ℕ) (bs : List ℕ) (d : ℕ) (ch : Channel j)
      → get_elem? chans d ≡ some ch
      → (get_elem? (push_output j chans s (b ∷ bs)).0 d
          ≡ some (delivered j ch (copies s.subs d (Frame.raw root_stream_id (b ∷ bs)))))
        × ((push_output j chans s (b ∷ bs)).1.subs
            ≡ retain (λ e. not (any (refuses j chans e.0) s.subs)) s.subs)
        × (push_output j chans s [] ≡ (chans, s))
  unfolding push_output
  push_output-broadcast chans s b bs d ch h = (
    send_all-copies j s.subs chans d (Frame.raw root_stream_id (b ∷ bs)) ch h,
    fan_out-subs chans (record s { ring = push s.ring (b ∷ bs) })
          (Frame.raw root_stream_id (b ∷ bs))
        ∙ retain_ext _ _ s.subs
            (λ e. ap not (send_all-refuses j s.subs chans e.0 (Frame.raw root_stream_id (b ∷ bs)))),
    refl,
  )

  -- The channel is subscribed under this token only.
  abbrev pub OnlyUnder : ℕ → ℕ → ℕ × ℕ → Type 0
  OnlyUnder token d e = ((e.1 == d) && not (e.0 == token)) ≡ false

  copies-unsubscribed :
      (subs : List (ℕ × ℕ)) (token d : ℕ) (f : Frame j)
      → All (OnlyUnder token d) subs
      → copies (retain (λ e. not (e.0 == token)) subs) d f ≡ []
  unfolding copies retain
  copies-unsubscribed [] token d f h = refl
  copies-unsubscribed ((t, c) ∷ subs) token d f h =
      ground (arith, copies-unsubscribed subs token d f h.1, h.0)

  -- A connection whose channel stands under its token only receives nothing more once it has
  -- unsubscribed.
  pub push_output-unsubscribe :
      (chans : List (Channel j)) (s : RootSession) (token : ℕ) (bs : List ℕ) (d : ℕ)
      (ch : Channel j)
      → All (OnlyUnder token d) s.subs
      → get_elem? chans d ≡ some ch
      → get_elem? (push_output j chans (unsubscribe s token) bs).0 d ≡ some ch
  unfolding push_output unsubscribe
  push_output-unsubscribe chans s token [] d ch o h = h
  push_output-unsubscribe chans s token (b ∷ bs) d ch o h =
      send_all-copies j (retain (λ e. not (e.0 == token)) s.subs) chans d
        (Frame.raw root_stream_id (b ∷ bs)) ch h
      ∙ ap (λ q. some (delivered j ch q))
          (copies-unsubscribed s.subs token d (Frame.raw root_stream_id (b ∷ bs)) o)
      ∙ ap (λ x. some x) (delivered-nil j ch)

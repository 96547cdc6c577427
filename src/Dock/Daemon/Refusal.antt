-- ===== src/Dock/Daemon/Refusal.antt =====
-- When the daemon refuses to attach to a session or to close it.
use easytidy.Prelude.{ℕ, ◌≡◌, ◌≢◌, refl, Bool, inl, inr, ◌↔◌, Option, none, List, [], ◌∷◌, arith}
use easytidy.Server.{Json}
use easytidy.Dock.Daemon.{
  attach, close, DaemonState, rc_attach, rc_close, handle_command, Reply, op_failed, not_found,
  attached, closed,
}
use easytidy.Dock.Daemon.Shows.{view, IsDaemon, lookup-cases}

abbrev pub refusal : ℕ → List Reply
refusal id = op_failed (not_found id) ∷ []

attached-ne :
    (b : Bool) (rs : List Reply) (id : ℕ) → ◌≢◌ {A = List Reply} (attached b ∷ rs) (refusal id)
attached-ne b rs id e = cc

closed-ne : (id : ℕ) → ◌≢◌ {A = List Reply} (closed ∷ []) (refusal id)
closed-ne id e = cc

module _ (j : Json) (d : DaemonState j) (n : IsDaemon j d) (spawned : Option ℕ) (sent : Bool) where
  attach-refusal :
      (cols rows id : ℕ)
      → ((handle_command j d (attach cols rows id) spawned sent).1 ≡ refusal id)
        ↔ (view j d id ≡ none)
  unfolding handle_command rc_attach
  attach-refusal cols rows id = elim (lookup-cases j d id n) [
    | inl (e, v) ↦ (λ q. v, λ q. rw (rc_attach, e) refl)
    | inr (ref, s, e, h, c, v) ↦
        (λ q. absurd (attached-ne _ _ id (rw (rc_attach, e) at q)), λ q. cc (v, q))
  ]

  close-refusal :
      (id : ℕ)
      → ((handle_command j d (close id) spawned sent).1 ≡ refusal id) ↔ (view j d id ≡ none)
  unfolding handle_command rc_close
  close-refusal id = elim (lookup-cases j d id n) [
    | inl (e, v) ↦ (λ q. v, λ q. rw (rc_close, e) refl)
    | inr (ref, s, e, h, c, v) ↦
        (λ q. absurd (closed-ne id (rw (rc_close, e) at q)), λ q. cc (v, q))
  ]

  zero-absent : view j d 0 ≡ none
  zero-absent = elim (lookup-cases j d 0 n) [
    | inl (e, v) ↦ v
    | inr (ref, s, e, h, c, v) ↦ absurd (omega (arith, c))
  ]

  -- In a well-formed state a client that attaches to an id, or closes it, gets the error that the
  -- session was not found, and no other answer, exactly when no session is registered under the
  -- id. An attach to the id 0 is always answered so.
  pub handle_command-refusal :
      (cols rows id : ℕ)
      → (((handle_command j d (attach cols rows id) spawned sent).1 ≡ refusal id)
          ↔ (view j d id ≡ none))
        × (((handle_command j d (close id) spawned sent).1 ≡ refusal id) ↔ (view j d id ≡ none))
        × ((handle_command j d (attach cols rows 0) spawned sent).1 ≡ refusal 0)
  handle_command-refusal cols rows id =
      (attach-refusal cols rows id, close-refusal id, (attach-refusal cols rows 0).1 zero-absent)

-- ===== src/Server/Reuse.antt =====
-- An attach finds the default terminal again.
use easytidy.Prelude.{ℕ, ◌≡◌, refl, ap, ◌∙◌, Bool, true, Option, none, some, [], ◌∷◌, arith}
use mathlib.Core.Path.{subst}
use easytidy.Lists.{get_elem?}
use easytidy.Text.{codes, text_eq}
use easytidy.Server.{
  Json, Frame, PtySession, ServerState, PtyOpen, Fallible, done, get, session_of, respond,
}
use easytidy.Server.Pty.{
  attach_key, get_text, attach_to_session, open_pty, attach_or, default_sid, spawn_or_fail,
}
use easytidy.Server.Lifetime.{Registered, DefaultIsLive, flag_of, live_of, live_in}

module _ (j : Json) where
  session_of-live :
      (s : ServerState j) (sid : ℕ)
      → live_in j s.sessions s.cells sid ≡ true
      → (ref : ℕ) × (p : PtySession j) × (session_of j s sid ≡ some (ref, p))
  unfolding session_of
  session_of-live s sid h = at_ref (get s.sessions sid) refl h
    where
      at_cell :
          (ref : ℕ) (o : Option (PtySession j))
          → get s.sessions sid ≡ some ref
          → get_elem? s.cells ref ≡ o
          → flag_of j o ≡ true
          → (r : ℕ) × (p : PtySession j) × (session_of j s sid ≡ some (r, p))
      at_cell ref none g c f = cc
      at_cell ref (some p) g c f = (ref, p, ground arith)

      at_ref :
          (o : Option ℕ)
          → get s.sessions sid ≡ o
          → live_of j s.cells o ≡ true
          → (r : ℕ) × (p : PtySession j) × (session_of j s sid ≡ some (r, p))
      at_ref none g f = cc
      at_ref (some ref) g f = at_cell ref (get_elem? s.cells ref) g refl f

  attach_found :
      (s : ServerState j) (sid ref : ℕ) (p : PtySession j) (size : ℕ × ℕ) (resized : Bool)
      (chan token id : ℕ)
      → session_of j s sid ≡ some (ref, p)
      → ((attach_to_session j s sid size resized chan token id).0
          ≡ some (respond j id (codes "pty.open") (j.open_value sid)))
        × ((attach_to_session j s sid size resized chan token id).1.sessions ≡ s.sessions)
  unfolding attach_to_session
  attach_found s sid ref p size resized chan token id e = rw (attach_to_session, e) (refl, refl)

  attach_or_found :
      (s : ServerState j) (sid : ℕ) (req : PtyOpen) (resized : Bool) (chan token id : ℕ)
      (frame : Frame j) (fallback : Fallible (Frame j) × ServerState j)
      → (attach_to_session j s sid (req.rows, req.cols) resized chan token id).0 ≡ some frame
      → attach_or j s (some sid) req resized chan token id fallback
        ≡ (done frame, (attach_to_session j s sid (req.rows, req.cols) resized chan token id).1)
  attach_or_found s sid req resized chan token id frame fallback e = rw (attach_or, e) refl

  default_sid-some :
      (s : ServerState j) (sid : ℕ) (req : PtyOpen)
      → s.default_terminal ≡ (attach_key, sid) ∷ []
      → req.attach ≡ true
      → default_sid j s req ≡ some sid
  unfolding get_text text_eq
  default_sid-some s sid req m a = rw (a, m) refl

  -- Where a default terminal is registered in a state that `DefaultIsLive` describes, a request to attach
  -- that names no stream is answered with that terminal's stream id, and no session is added or
  -- removed.
  pub open_pty-default :
      (s : ServerState j) (sid : ℕ) (req : PtyOpen) (resized : Bool) (spawned : Fallible ℕ)
      (chan token id : ℕ)
      → DefaultIsLive j s
      → s.default_terminal ≡ (attach_key, sid) ∷ []
      → req.attach ≡ true
      → req.attach_stream ≡ none
      → ((open_pty j s req resized spawned chan token id).0
          ≡ done (respond j id (codes "pty.open") (j.open_value sid)))
        × ((open_pty j s req resized spawned chan token id).1.sessions ≡ s.sessions)
  unfolding open_pty Registered get_text
  open_pty-default s sid req resized spawned chan token id live m a n =
      let reg : Registered j ((attach_key, sid) ∷ []) s.sessions s.cells s.next_stream_id =
        subst (λ x. Registered j x s.sessions s.cells s.next_stream_id) m live in
      let (ref, p, here) = session_of-live s sid reg.1 in
      let (frame, kept) =
        attach_found s sid ref p (req.rows, req.cols) resized chan token id here in
      let both : open_pty j s req resized spawned chan token id ≡ (
        done (respond j id (codes "pty.open") (j.open_value sid)),
        (attach_to_session j s sid (req.rows, req.cols) resized chan token id).1,
      ) =
        ap
          (λ o. attach_or j s o req resized chan token id (
            attach_or j s (default_sid j s req) req resized chan token id
              (spawn_or_fail j s req spawned chan token id)))
          n
        ∙ ap
            (λ o.
              attach_or j s o req resized chan token id
                (spawn_or_fail j s req spawned chan token id))
            (default_sid-some s sid req m a)
        ∙ attach_or_found s sid req resized chan token id _ _ frame in
      (ap (λ r. r.0) both, ap (λ r. r.1.sessions) both ∙ kept)

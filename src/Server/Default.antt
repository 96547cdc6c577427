-- ===== src/Server/Default.antt =====
-- The default terminal across everything that the server does to its terminals.
use easytidy.Prelude.{
  ℕ, ◌+◌, ◌^◌, ◌<◌, ◌≡◌, ◌≢◌, refl, sym, ap, ◌∙◌, Bool, true, false, not, ◌==◌, Option, none, some,
  List, [], ◌∷◌, Bool-cases, inl, inr,
}
use easytidy.Lists.{get_elem?, retain}
use easytidy.Server.{
  Json, Frame, PtySession, ServerState, PtyOpen, Fallible, done, failed, Map, get, remove,
  session_of,
}
use easytidy.Server.Pty.{
  attach_to_session, open_pty, attach_or, spawn_or_fail, default_sid, close_pty,
}
use easytidy.Server.Reader.{reader_output, reader_exit}
use easytidy.Server.Connection.{close_conn_ptys, close_pty_of}
use easytidy.Server.Lifetime.{
  Registered, DefaultIsLive, Registered-update, Registered-change, get-remove, session_of-cell,
  flag_of, live_of, live_in,
}
use easytidy.Server.Operations.{
  attach-DefaultIsLive, close_pty-DefaultIsLive, create-DefaultIsLive, output-DefaultIsLive,
  exit-DefaultIsLive,
}

module _ (j : Json) where
  attach_or-DefaultIsLive :
      (s : ServerState j) (o : Option ℕ) (req : PtyOpen) (resized : Bool) (chan token id : ℕ)
      (fallback : Fallible (Frame j) × ServerState j)
      → DefaultIsLive j s
      → DefaultIsLive j fallback.1
      → DefaultIsLive j (attach_or j s o req resized chan token id fallback).1
  attach_or-DefaultIsLive s none req resized chan token id fallback h k = k
  attach_or-DefaultIsLive s (some sid) req resized chan token id fallback h k =
      split (attach_to_session j s sid (req.rows, req.cols) resized chan token id).0
    where
      split :
          (o : Option (Frame j))
          → DefaultIsLive j
              (elim o as (λ x. Fallible (Frame j) × ServerState j) [
                | some frame ↦ (
                  done frame,
                  (attach_to_session j s sid (req.rows, req.cols) resized chan token id).1,
                )
                | none ↦ fallback
              ]).1
      split none = k
      split (some frame) = attach-DefaultIsLive j s sid (req.rows, req.cols) resized chan token id h

  open_pty-DefaultIsLive :
      (s : ServerState j) (req : PtyOpen) (resized : Bool) (spawned : Fallible ℕ)
      (chan token id : ℕ)
      → s.next_stream_id + 1 < 2 ^ 32
      → DefaultIsLive j s
      → DefaultIsLive j (open_pty j s req resized spawned chan token id).1
  unfolding open_pty
  open_pty-DefaultIsLive s req resized spawned chan token id room h =
      attach_or-DefaultIsLive s req.attach_stream req resized chan token id _ h (
        attach_or-DefaultIsLive s (default_sid j s req) req resized chan token id _ h
          (spawned-DefaultIsLive spawned))
    where
      spawned-DefaultIsLive :
          (sp : Fallible ℕ) → DefaultIsLive j (spawn_or_fail j s req sp chan token id).1
      spawned-DefaultIsLive (failed e) = h
      spawned-DefaultIsLive (done pid) = create-DefaultIsLive j s req pid chan token id room h

  -- A session that is not persistent is not the default terminal.
  other_session :
      (ss : Map ℕ) (cs : List (PtySession j)) (sid d ref : ℕ) (p : PtySession j)
      → get ss sid ≡ some ref
      → get_elem? cs ref ≡ some p
      → p.persistent ≡ false
      → live_in j ss cs d ≡ true
      → sid ≢ d
  other_session ss cs sid d ref p g c f l q =
      let dead : live_in j ss cs d ≡ false =
        ap (λ k. live_in j ss cs k) (sym q) ∙ ap (live_of j cs) g ∙ ap (flag_of j) c ∙ f in
      cc

  close_pty_of-DefaultIsLive :
      (s : ServerState j) (token sid : ℕ)
      → DefaultIsLive j s
      → DefaultIsLive j (close_pty_of j s token sid)
  close_pty_of-DefaultIsLive s token sid h = split (session_of j s sid) refl
    where
      split :
          (o : Option (ℕ × PtySession j))
          → session_of j s sid ≡ o
          → DefaultIsLive j (close_pty_of j s token sid)
      split none e = rw (close_pty_of, e) h
      split (some (ref, p)) e =
          let (c, g) = session_of-cell j s sid ref p e in
          elim (Bool-cases p.persistent) [
            | inl f ↦
                rw (close_pty_of, e, f)
                  (Registered-update j s.default_terminal s.sessions s.cells s.next_stream_id ref p
                    (record p {
                      persistent = true;
                      subs = retain (λ e'. not (e'.0 == token)) p.subs;
                    })
                    c (sym f) h)
            | inr f ↦
                rw (close_pty_of, e, f)
                  (Registered-change j s.default_terminal s.sessions (remove s.sessions sid) s.cells
                    s.cells s.next_stream_id s.next_stream_id
                    (λ d l b. (
                      ap (live_of j s.cells) (
                            get-remove j s.sessions sid d
                              (other_session s.sessions s.cells sid d ref p g c f l))
                          ∙ l,
                      b,
                    ))
                    h)
          ]

  close_conn_ptys-DefaultIsLive :
      (s : ServerState j) (ptys : List ℕ) (token : ℕ)
      → DefaultIsLive j s
      → DefaultIsLive j (close_conn_ptys j s ptys token)
  unfolding close_conn_ptys
  close_conn_ptys-DefaultIsLive s [] token h = h
  close_conn_ptys-DefaultIsLive s (sid ∷ ptys) token h =
      close_conn_ptys-DefaultIsLive (close_pty_of j s token sid) ptys token
        (close_pty_of-DefaultIsLive s token sid h)

  -- What happens to the terminals: a request opens or closes one, a process puts out bytes or ends, a
  -- connection ends. Stream ids have not run out where one is opened.
  pub data Step : ServerState j → ServerState j → Type 0 where
    opens :
        (s : ServerState j) (req : PtyOpen) (resized : Bool) (spawned : Fallible ℕ)
        (chan token id : ℕ)
        → s.next_stream_id + 1 < 2 ^ 32
        → Step s (open_pty j s req resized spawned chan token id).1
    closes : (s : ServerState j) (sid id : ℕ) → Step s (close_pty j s sid id).1
    prints :
        (s : ServerState j) (sid ref : ℕ) (out : List ℕ) → Step s (reader_output j s sid ref out)
    exits :
        (s : ServerState j) (sid ref msg_id : ℕ) (success : Bool)
        → Step s (reader_exit j s sid ref msg_id success)
    leaves :
        (s : ServerState j) (ptys : List ℕ) (token : ℕ) → Step s (close_conn_ptys j s ptys token)

  pub data Reach (s : ServerState j) : ServerState j → Type 0 where
    start : Reach s s
    step : (s1 s2 : ServerState j) → Reach s s1 → Step s1 s2 → Reach s s2

  Step-DefaultIsLive : (s s' : ServerState j) → Step s s' → DefaultIsLive j s → DefaultIsLive j s'
  Step-DefaultIsLive _ _ (opens s req resized spawned chan token id room) h =
      open_pty-DefaultIsLive s req resized spawned chan token id room h
  Step-DefaultIsLive _ _ (closes s sid id) h = close_pty-DefaultIsLive j s sid id h
  Step-DefaultIsLive _ _ (prints s sid ref out) h = output-DefaultIsLive j s sid ref out h
  Step-DefaultIsLive _ _ (exits s sid ref msg_id success) h =
      exit-DefaultIsLive j s sid ref msg_id success h
  Step-DefaultIsLive _ _ (leaves s ptys token) h = close_conn_ptys-DefaultIsLive s ptys token h

  -- In every state that is reached from one without a default terminal, by steps that open no terminal
  -- with the last stream id below 2^32, at most one default terminal is registered, under the key "user", and it is a session of the map, persistent, and older than the next
  -- stream id.
  pub Reach-DefaultIsLive :
      (s s' : ServerState j) → s.default_terminal ≡ [] → Reach s s' → DefaultIsLive j s'
  unfolding Registered
  Reach-DefaultIsLive s s' e start = rw e tt
  Reach-DefaultIsLive s s' e (step s1 _ r st) =
      Step-DefaultIsLive s1 s' st (Reach-DefaultIsLive s s1 e r)

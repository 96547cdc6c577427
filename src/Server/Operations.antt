-- ===== src/Server/Operations.antt =====
-- Each operation on terminals keeps the default terminal a live session.
use easytidy.Prelude.{
  ℕ, ◌+◌, ◌^◌, ◌<◌, ◌≡◌, refl, Bool, true, false, ◌||◌, Option, none, some, List, Bool-cases, inl,
  inr, ◌⊎◌,
}
use easytidy.Lists.{get_elem?}
use easytidy.Server.{Json, PtySession, ServerState, PtyOpen, remove, session_of}
use easytidy.Server.Pty.{deregister, new_session, attach_to_session, create, close_pty}
use easytidy.Server.Reader.{reader_output, reader_exit}
use easytidy.Server.Lifetime.{
  DefaultIsLive, Registered-update, Registered-close, Registered-deregister, create-Registered,
  session_of-cell,
}

module _ (j : Json) where
  pub attach-DefaultIsLive :
      (s : ServerState j) (sid : ℕ) (size : ℕ × ℕ) (resized : Bool) (chan token id : ℕ)
      → DefaultIsLive j s
      → DefaultIsLive j (attach_to_session j s sid size resized chan token id).1
  unfolding attach_to_session
  attach-DefaultIsLive s sid size resized chan token id h = split (session_of j s sid) refl
    where
      split :
          (o : Option (ℕ × PtySession j))
          → session_of j s sid ≡ o
          → DefaultIsLive j (attach_to_session j s sid size resized chan token id).1
      split none e = rw (attach_to_session, e) h
      split (some (ref, p)) e =
          rw (attach_to_session, e)
            (Registered-update j s.default_terminal s.sessions s.cells s.next_stream_id ref p _
              (session_of-cell j s sid ref p e).0 refl h)

  pub close_pty-DefaultIsLive :
      (s : ServerState j) (sid id : ℕ)
      → DefaultIsLive j s
      → DefaultIsLive j (close_pty j s sid id).1
  unfolding close_pty
  close_pty-DefaultIsLive s sid id h = split (session_of j s sid) refl
    where
      split :
          (o : Option (ℕ × PtySession j))
          → session_of j s sid ≡ o
          → DefaultIsLive j (close_pty j s sid id).1
      split none e =
          rw (close_pty, e)
            (Registered-deregister j s.default_terminal s.sessions s.cells s.next_stream_id sid h)
      split (some (ref, p)) e =
          rw (close_pty, e)
            (Registered-update j (deregister s.default_terminal sid) (remove s.sessions sid) s.cells
              s.next_stream_id ref p _ (session_of-cell j s sid ref p e).0 refl
              (Registered-close j s.default_terminal s.sessions s.cells s.next_stream_id sid h))

  persists : (req : PtyOpen) → (req.attach || req.persistent) ≡ true ⊎ req.attach ≡ false
  persists req = elim (Bool-cases req.attach) [ inl e ↦ inl (rw e refl) | inr e ↦ inr e ]

  pub create-DefaultIsLive :
      (s : ServerState j) (req : PtyOpen) (pid chan token id : ℕ)
      → s.next_stream_id + 1 < 2 ^ 32
      → DefaultIsLive j s
      → DefaultIsLive j (create j s req pid chan token id).1
  unfolding create
  create-DefaultIsLive s req pid chan token id room h =
      create-Registered j req.attach s.default_terminal s.sessions s.cells s.next_stream_id
        (new_session j req token chan pid) (persists req) room h

  pub output-DefaultIsLive :
      (s : ServerState j) (sid ref : ℕ) (out : List ℕ)
      → DefaultIsLive j s
      → DefaultIsLive j (reader_output j s sid ref out)
  unfolding reader_output
  output-DefaultIsLive s sid ref out h = split (get_elem? s.cells ref) refl
    where
      split :
          (o : Option (PtySession j))
          → get_elem? s.cells ref ≡ o
          → DefaultIsLive j (reader_output j s sid ref out)
      split none e = rw (reader_output, e) h
      split (some p) e =
          rw (reader_output, e)
            (Registered-update j s.default_terminal s.sessions s.cells s.next_stream_id ref p _ e
              refl h)

  pub exit-DefaultIsLive :
      (s : ServerState j) (sid ref msg_id : ℕ) (success : Bool)
      → DefaultIsLive j s
      → DefaultIsLive j (reader_exit j s sid ref msg_id success)
  unfolding reader_exit
  exit-DefaultIsLive s sid ref msg_id success h = split (get_elem? s.cells ref) refl
    where
      split :
          (o : Option (PtySession j))
          → get_elem? s.cells ref ≡ o
          → DefaultIsLive j (reader_exit j s sid ref msg_id success)
      split none e = rw (reader_exit, e) h
      split (some p) e =
          rw (reader_exit, e)
            (Registered-update j (deregister s.default_terminal sid) (remove s.sessions sid) s.cells
              s.next_stream_id ref p _ e refl
              (Registered-close j s.default_terminal s.sessions s.cells s.next_stream_id sid h))

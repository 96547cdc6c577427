-- ===== src/Server/Connection.antt =====
-- crates/server/src/connection.rs: one connection's life. Its loop is a run over what `select!` yields;
-- writing to the socket always succeeds, a failed write is the event `closed`.
use easytidy.Prelude.{
  ℕ, ◌+◌, ◌%◌, ◌^◌, Bool, true, false, not, ◌&&◌, Option, none, some, List, [], ◌∷◌, ◌++◌, ◌==◌,
  if◌then◌else◌,
}
use easytidy.Lists.{retain, length, get_elem?}
use easytidy.Text.{Text, text_eq, codes}
use easytidy.Server.{
  Json, MsgKind, Message, Frame, ServerState, Channel, remove, with_cell, session_of, update,
}
use easytidy.Server.Pty.{handle_raw_data}
use easytidy.Server.Router.{Services, Answers, handle_message}

module _ (j : Json) where
  -- What the loop waits for: a frame from the socket, the first frame in the connection's own channel,
  -- or an end (a bad frame, the client gone, the idle timeout, a failed write). Between these, other
  -- connections and reader threads change the shared state.
  pub data Input : Type 0 where
    received : Frame j → Answers → (List ℕ → List ℕ) → Input
    outgoing : Input
    meanwhile : (ServerState j → ServerState j) → Input
    closed : Input

  -- The connection's own state, and the socket's output.
  pub record Conn : Type 0 where
    pub token : ℕ
    pub chan : ℕ
    pub session_id : Text
    pub handshake_done : Bool
    pub conn_ptys : List ℕ
    pub output : List (Frame j)

  abbrev pub add_pty : List ℕ → ℕ → List ℕ
  add_pty ptys sid = sid ∷ retain (λ t. not (t == sid)) ptys

  abbrev pub del_pty : List ℕ → ℕ → List ℕ
  del_pty ptys sid = retain (λ t. not (t == sid)) ptys

  abbrev pub is_resp : MsgKind → Bool
  is_resp MsgKind.resp = true
  is_resp MsgKind.req = false
  is_resp MsgKind.evt = false

  abbrev pub with_id : Option ℕ → List ℕ → (List ℕ → ℕ → List ℕ) → List ℕ
  with_id none ptys f = ptys
  with_id (some sid) ptys f = f ptys sid

  -- The response to `pty.open` registers a terminal, one to `pty.close` forgets it.
  unfoldable pub note_response : List ℕ → Message j → Frame j → List ℕ
  note_response ptys req (Frame.raw sid d) = ptys
  note_response ptys req (Frame.json m) =
      if text_eq m.op (codes "pty.open") && is_resp m.kind
      then with_id (j.pty_open_resp m.payload) ptys add_pty
      else if text_eq req.op (codes "pty.close") && is_resp m.kind
      then with_id (j.pty_close req.payload) ptys del_pty
      else ptys

  -- The event `pty.exited` forgets a terminal.
  unfoldable pub note_event : List ℕ → Frame j → List ℕ
  note_event ptys (Frame.raw sid d) = ptys
  note_event ptys (Frame.json m) =
      if text_eq m.op (codes "pty.exited")
      then with_id (j.pty_exited m.payload) ptys del_pty
      else ptys

  abbrev pub after_message :
      Conn → Message j → Option (Frame j) × Bool × ServerState j → Conn × ServerState j
  after_message c msg (none, h, s) = (record c { handshake_done = h }, s)
  after_message c msg (some f, h, s) = (
    record c {
      handshake_done = h;
      conn_ptys = note_response c.conn_ptys msg f;
      output = c.output ++ (f ∷ []);
    },
    s,
  )

  unfoldable pub receive :
      Services j
      → Conn
      → ServerState j
      → Frame j
      → Answers
      → (List ℕ → List ℕ)
      → Conn × ServerState j
  unfolding handle_message handle_raw_data note_response
  receive services c s (Frame.json msg) a wrote =
      after_message c msg
        (handle_message j services s msg c.handshake_done c.chan c.token c.session_id a)
  receive services c s (Frame.raw sid bytes) a wrote =
      (c, handle_raw_data j s sid bytes wrote a.cwd_at)

  abbrev pub forward_from : Conn → ServerState j → Channel j → Conn × ServerState j
  forward_from c s ch = elim ch.queue [
    | [] ↦ (c, s)
    | f ∷ fs ↦ (
      record c { conn_ptys = note_event c.conn_ptys f; output = c.output ++ (f ∷ []) },
      record s { channels = update s.channels c.chan (record ch { queue = fs }) },
    )
  ]

  -- The arm `Some(frame) = event_rx.recv()`; with nothing in the channel it is not taken.
  unfoldable pub forward : Conn → ServerState j → Conn × ServerState j
  unfolding note_event
  forward c s = elim (get_elem? s.channels c.chan) [ none ↦ (c, s) | some ch ↦ forward_from c s ch ]

  -- `event_rx` is dropped.
  abbrev pub drop_receiver : ServerState j → ℕ → ServerState j
  drop_receiver s chan = elim (get_elem? s.channels chan) [
    | none ↦ s
    | some ch ↦ record s { channels = update s.channels chan (record ch { open_receiver = false }) }
  ]

  -- `connection_loop`, over what it is given; it also ends when the server shuts down.
  unfoldable pub connection_loop :
      Services j → Conn → ServerState j → List Input → Conn × ServerState j
  unfolding receive forward
  connection_loop services c s [] = (c, s)
  connection_loop services c s (received f a wrote ∷ ins) =
      if s.shutting_down
      then (c, s)
      else let (c', s') = receive services c s f a wrote in connection_loop services c' s' ins
  connection_loop services c s (outgoing ∷ ins) =
      if s.shutting_down
      then (c, s)
      else let (c', s') = forward c s in connection_loop services c' s' ins
  connection_loop services c s (meanwhile f ∷ ins) = connection_loop services c (f s) ins
  connection_loop services c s (closed ∷ ins) = (c, s)

  -- One terminal of `close_conn_ptys`: a persistent session loses the subscriber, another one goes.
  abbrev pub close_pty_of : ServerState j → ℕ → ℕ → ServerState j
  close_pty_of s token sid = elim (session_of j s sid) [
    | none ↦ s
    | some (ref, p) ↦
        if p.persistent
        then with_cell j s ref (record p { subs = retain (λ e. not (e.0 == token)) p.subs })
        else record s { sessions = remove s.sessions sid }
  ]

  unfoldable pub close_conn_ptys : ServerState j → List ℕ → ℕ → ServerState j
  unfolding session_of
  close_conn_ptys s [] token = s
  close_conn_ptys s (sid ∷ ptys) token = close_conn_ptys (close_pty_of s token sid) ptys token

  -- `handle_connection`: a token and a channel, the loop, and the end: the registration goes, then
  -- the terminals, and the channel's receiver.
  unfoldable pub handle_connection :
      Services j → ServerState j → Text → List Input → Conn × ServerState j
  unfolding connection_loop close_conn_ptys
  handle_connection services s session_id ins =
      let start : ServerState j = record s {
        next_conn_id = (s.next_conn_id + 1) % 2 ^ 64;
        channels = s.channels ++ (record { open_receiver = true; queue = [] } ∷ []);
      } in
      let conn : Conn = record {
        token = s.next_conn_id;
        chan = length s.channels;
        session_id = session_id;
        handshake_done = false;
        conn_ptys = [];
        output = [];
      } in
      let (c, s') = connection_loop services conn start ins in
      (
        c,
        drop_receiver
            (close_conn_ptys (record s' { conns = remove s'.conns c.token }) c.conn_ptys c.token)
            c.chan,
      )

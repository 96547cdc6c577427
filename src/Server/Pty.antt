-- ===== src/Server/Pty.antt =====
-- crates/server/src/services/pty.rs: open, attach, list, cwd, resize, close and input of terminals. What
-- the system answers (the spawned process, whether a resize or a write succeeds, a process's
-- directory) is an argument.
use easytidy.Prelude.{
  ℕ, Bool, true, false, not, ◌||◌, Option, none, some, List, [], ◌∷◌, ◌++◌, ◌==◌, if◌then◌else◌,
}
use easytidy.Lists.{length, find, retain, any, get_elem?}
use easytidy.Text.{Text, text_eq, codes, decimal}
use easytidy.Server.{
  Json, Message, Frame, PtySession, ServerState, PtyOpen, PtyTerminalInfo, Fallible, done, failed,
  Map, insert, remove, send, send_retain, with_cell, session_of, respond, respond_err, event,
  bump_u32,
}

-- The bytes `\x1b[?2026h`, `\x1b[2J\x1b[H` and `\x1b[?2026l`.
abbrev pub sync_start : List ℕ
sync_start = 27 ∷ codes "[?2026h"

abbrev pub sync_end : List ℕ
sync_end = 27 ∷ codes "[?2026l"

abbrev pub clear_home : List ℕ
clear_home = (27 ∷ codes "[2J") ++ (27 ∷ codes "[H")

unfoldable pub replay : List ℕ → List ℕ
replay ring = sync_start ++ (clear_home ++ (ring ++ sync_end))

abbrev pub attach_key : Text
attach_key = codes "user"

unfoldable pub get_text : {A : Type 0} → List (Text × A) → Text → Option A
get_text [] k = none
get_text ((n, a) ∷ m) k = if text_eq n k then some a else get_text m k

abbrev pub remove_text : {A : Type 0} → List (Text × A) → Text → List (Text × A)
remove_text m k = retain (λ e. not (text_eq e.0 k)) m

-- `def.iter().find(|(_, v)| **v == stream_id)` and the removal of the key that it finds.
unfoldable pub deregister : List (Text × ℕ) → ℕ → List (Text × ℕ)
deregister m sid = elim (find (λ e. e.1 == sid) m) [ none ↦ m | some e ↦ remove_text m e.0 ]

abbrev pub not_found : (j : Json) → ℕ → Text → ℕ → Frame j
not_found j id op sid =
    respond_err j id op (codes "not_found")
      (codes "PTY stream " ++ (decimal sid ++ codes " not found"))

module _ (j : Json) where
  -- The session as an attach leaves it: resized, one more subscriber.
  abbrev pub attached : PtySession j → ℕ × ℕ → Bool → ℕ → ℕ → PtySession j
  attached p size resized token chan = record p {
    size = if resized then size else p.size;
    subs = p.subs ++ ((token, chan) ∷ []);
  }

  -- `attach_to_session`: the screen is replayed in one frame, then the connection subscribes.
  unfoldable pub attach_to_session :
      ServerState j → ℕ → ℕ × ℕ → Bool → ℕ → ℕ → ℕ → Option (Frame j) × ServerState j
  unfolding session_of send replay
  attach_to_session s sid size resized chan token id = elim (session_of j s sid) [
    | none ↦ (none, s)
    | some (ref, p) ↦
        let (ok, chans) = send j s.channels chan (Frame.raw sid (replay p.ring)) in
        (
          some (respond j id (codes "pty.open") (j.open_value sid)),
          with_cell j (record s { channels = chans }) ref (attached p size resized token chan),
        )
  ]

  abbrev pub new_session : PtyOpen → ℕ → ℕ → ℕ → PtySession j
  new_session req token chan pid = record {
    written = [];
    sunk = false;
    size = (req.rows, req.cols);
    ring = [];
    subs = (token, chan) ∷ [];
    persistent = req.attach || req.persistent;
    spawn_pid = pid;
    last_cwd = none;
    cmd = req.cmd;
  }

  -- `handle_pty_open` from the spawned process on.
  unfoldable pub create :
      ServerState j → PtyOpen → ℕ → ℕ → ℕ → ℕ → Fallible (Frame j) × ServerState j
  create s req pid chan token id =
      let sid = s.next_stream_id in
      (
        done (respond j id (codes "pty.open") (j.open_value sid)),
        record s {
          next_stream_id = bump_u32 sid;
          default_terminal =
              if req.attach
              then ((attach_key, sid) ∷ remove_text s.default_terminal attach_key)
              else s.default_terminal;
          cells = s.cells ++ (new_session req token chan pid ∷ []);
          sessions = insert s.sessions sid (length s.cells);
          next_msg_id = bump_u32 s.next_msg_id;
        },
      )

  abbrev pub spawn_or_fail :
      ServerState j → PtyOpen → Fallible ℕ → ℕ → ℕ → ℕ → Fallible (Frame j) × ServerState j
  spawn_or_fail s req (failed e) chan token id = (failed e, s)
  spawn_or_fail s req (done pid) chan token id = create s req pid chan token id

  -- The attempt to attach to a stream id, if there is one; else what `fallback` does.
  abbrev pub attach_or :
      ServerState j
      → Option ℕ
      → PtyOpen
      → Bool
      → ℕ
      → ℕ
      → ℕ
      → Fallible (Frame j) × ServerState j
      → Fallible (Frame j) × ServerState j
  attach_or s none req resized chan token id fallback = fallback
  attach_or s (some sid) req resized chan token id fallback =
      let (resp, s') = attach_to_session s sid (req.rows, req.cols) resized chan token id in
      elim resp [ some frame ↦ (done frame, s') | none ↦ fallback ]

  abbrev pub default_sid : ServerState j → PtyOpen → Option ℕ
  default_sid s req = if req.attach then get_text s.default_terminal attach_key else none

  -- `handle_pty_open`: the requested stream, else the default terminal, else a new terminal.
  unfoldable pub open_pty :
      ServerState j → PtyOpen → Bool → Fallible ℕ → ℕ → ℕ → ℕ → Fallible (Frame j) × ServerState j
  unfolding attach_to_session create get_text
  open_pty s req resized spawned chan token id =
      attach_or s req.attach_stream req resized chan token id (
        attach_or s (default_sid s req) req resized chan token id
          (spawn_or_fail s req spawned chan token id))

  unfoldable pub handle_pty_open :
      ServerState j → Message j → Bool → Fallible ℕ → ℕ → ℕ → Fallible (Frame j) × ServerState j
  unfolding open_pty
  handle_pty_open s msg resized spawned chan token = elim (j.pty_open msg.payload) [
    | none ↦ (failed (codes "Failed to parse PtyOpen"), s)
    | some req ↦ open_pty s req resized spawned chan token msg.id
  ]

  abbrev pub info_of : ServerState j → ℕ × ℕ → List PtyTerminalInfo
  info_of s (sid, ref) = elim (get_elem? s.cells ref) [
    | none ↦ []
    | some p ↦
        record { stream_id = sid; cmd = p.cmd; persistent = p.persistent; cwd = p.last_cwd } ∷ []
  ]

  unfoldable pub terminals : ServerState j → Map ℕ → List PtyTerminalInfo
  terminals s [] = []
  terminals s (e ∷ m) = info_of s e ++ terminals s m

  unfoldable pub handle_pty_list : ServerState j → Message j → Fallible (Frame j) × ServerState j
  unfolding terminals
  handle_pty_list s msg =
      (done (respond j msg.id (codes "pty.list") (j.list_value (terminals s s.sessions))), s)

  -- `cwd_at` is what /proc says of the session's process.
  unfoldable pub handle_pty_cwd :
      ServerState j → Message j → (ℕ → Option Text) → Fallible (Frame j) × ServerState j
  unfolding session_of
  handle_pty_cwd s msg cwd_at = elim (j.pty_cwd msg.payload) [
    | none ↦ (failed (codes "Failed to parse PtyCwd"), s)
    | some sid ↦ elim (session_of j s sid) [
      | none ↦ (done (not_found j msg.id (codes "pty.cwd") sid), s)
      | some (ref, p) ↦ (
        done (
            respond j msg.id (codes "pty.cwd")
              (j.cwd_value (elim (cwd_at p.spawn_pid) [ none ↦ [] | some d ↦ d ]))),
        s,
      )
    ]
  ]

  unfoldable pub handle_pty_resize :
      ServerState j → Message j → Bool → Fallible (Frame j) × ServerState j
  unfolding session_of
  handle_pty_resize s msg resized = elim (j.pty_resize msg.payload) [
    | none ↦ (failed (codes "Failed to parse PtyResize"), s)
    | some req ↦ elim (session_of j s req.stream_id) [
      | none ↦ (done (not_found j msg.id (codes "pty.resize") req.stream_id), s)
      | some (ref, p) ↦
          if resized
          then (
            done (respond j msg.id (codes "pty.resize") j.null),
            with_cell j s ref (record p { size = (req.rows, req.cols) }),
          )
          else (failed (codes "Failed to resize PTY"), s)
    ]
  ]

  -- The default terminal's registration goes, then the session, whose writer becomes a sink.
  unfoldable pub close_pty : ServerState j → ℕ → ℕ → Frame j × ServerState j
  unfolding session_of deregister
  close_pty s sid id =
      let s' : ServerState j = record s { default_terminal = deregister s.default_terminal sid } in
      elim (session_of j s sid) [
        | none ↦ (not_found j id (codes "pty.close") sid, s')
        | some (ref, p) ↦ (
          respond j id (codes "pty.close") j.null,
          with_cell j (record s' { sessions = remove s.sessions sid }) ref
              (record p { sunk = true }),
        )
      ]

  unfoldable pub handle_pty_close : ServerState j → Message j → Fallible (Frame j) × ServerState j
  unfolding close_pty
  handle_pty_close s msg = elim (j.pty_close msg.payload) [
    | none ↦ (failed (codes "Failed to parse PtyClose"), s)
    | some sid ↦ (done (close_pty s sid msg.id).0, (close_pty s sid msg.id).1)
  ]

  -- A carriage return or a line feed in the input.
  abbrev pub has_enter : List ℕ → Bool
  has_enter bytes = any (λ b. b == 10) bytes || any (λ b. b == 13) bytes

  abbrev pub same_cwd : Option Text → Text → Bool
  same_cwd none d = false
  same_cwd (some c) d = text_eq c d

  -- The directory that was read behind an Enter: if it is another one, it is remembered and every
  -- subscriber told.
  unfoldable pub note_cwd : ServerState j → ℕ → ℕ → PtySession j → Option Text → ServerState j
  unfolding send_retain
  note_cwd s sid ref p none = s
  note_cwd s sid ref p (some d) =
      if same_cwd p.last_cwd d
      then s
      else let evt = event j s.next_msg_id (codes "pty.cwdChanged") (j.cwd_changed_value sid d) in
        let (kept, chans) = send_retain j s.channels p.subs evt in
        with_cell j (record s { channels = chans; next_msg_id = bump_u32 s.next_msg_id }) ref
          (record p { last_cwd = some d; subs = kept })

  -- `handle_raw_data`; `wrote` is how many of the bytes the writer took.
  unfoldable pub handle_raw_data :
      ServerState j → ℕ → List ℕ → (List ℕ → List ℕ) → (ℕ → Option Text) → ServerState j
  unfolding session_of note_cwd
  handle_raw_data s sid bytes wrote cwd_at = elim (session_of j s sid) [
    | none ↦ s
    | some (ref, p) ↦
        let p' : PtySession j =
          if p.sunk then p else record p { written = p.written ++ wrote bytes } in
        let s' = with_cell j s ref p' in
        if has_enter bytes then note_cwd s' sid ref p' (cwd_at p.spawn_pid) else s'
  ]

-- ===== src/Server/Router.antt =====
-- crates/server/src/router.rs: the handshake guard, the handshake, the dispatch on the operation and the
-- routing of `ui.edit` to a GUI. Error texts are abbreviated. The services that are not terminals are an argument.
use easytidy.Prelude.{
  ℕ, Bool, true, false, not, ◌&&◌, Option, none, some, [], ◌∷◌, ◌++◌, ◌==◌, if◌then◌else◌, ltb,
}
use easytidy.Lists.{any}
use easytidy.Text.{Text, text_eq, codes, decimal}
use easytidy.Text.White.{all_white}
use easytidy.Server.{
  Json, MsgKind, Message, Frame, ConnInfo, ServerState, Fallible, done, failed, Map, insert, send,
  respond, respond_err, event, bump_u32,
}
use easytidy.Server.Pty.{
  handle_pty_open, handle_pty_list, handle_pty_cwd, handle_pty_resize, handle_pty_close,
}

-- `PROTOCOL_VERSION`
abbrev pub protocol_version : ℕ
protocol_version = 2

-- What the system answers while a message is handled.
pub record Answers : Type 0 where
  pub resized : Bool
  pub spawned : Fallible ℕ
  pub cwd_at : ℕ → Option Text

module _ (j : Json) where
  -- The handlers of the other operations; none is an operation that no handler knows.
  abbrev pub Services : Type 0
  Services = Message j → ServerState j → Option (Fallible (Frame j) × ServerState j)

  abbrev pub mismatch : ℕ → Text
  mismatch v =
      codes "Protocol version mismatch: client="
      ++ (decimal v ++ (codes ", server=" ++ decimal protocol_version))

  -- `handle_handshake`: whether the connection has shaken hands, behind the response.
  unfoldable pub handle_handshake :
      ServerState j → Message j → Bool → ℕ → ℕ → Text → Fallible (Frame j) × Bool × ServerState j
  handle_handshake s msg handshake_done chan token session_id = elim (j.handshake msg.payload) [
    | none ↦ (failed (codes "Failed to parse Handshake"), handshake_done, s)
    | some hs ↦
        if hs.v == protocol_version
        then (
          done (respond j msg.id (codes "hello") (j.ack_value session_id)),
          true,
          record s {
            conns =
                insert s.conns token
                  (record { client = hs.client; wants = hs.wants; events = chan });
          },
        )
        else (
          done (respond_err j msg.id (codes "hello") (codes "version_mismatch") (mismatch hs.v)),
          handshake_done,
          s,
        )
  ]

  -- A GUI connection that asked for events.
  abbrev pub is_gui : ConnInfo j → Bool
  is_gui c =
      text_eq c.client (codes "easytidy-gui") && any (λ w. text_eq w (codes "events")) c.wants

  abbrev pub smaller : ℕ × ConnInfo j → Option (ℕ × ConnInfo j) → Option (ℕ × ConnInfo j)
  smaller e none = some e
  smaller e (some e') = if ltb e'.0 e.0 then some e' else some e

  -- `.filter(..).min_by_key(..)`: the GUI connection with the least token.
  unfoldable pub edit_target : Map (ConnInfo j) → Option (ℕ × ConnInfo j)
  edit_target [] = none
  edit_target (e ∷ conns) =
      let best = edit_target conns in if is_gui e.1 then smaller e best else best

  abbrev pub push_edit :
      ServerState j → Message j → Text → ConnInfo j → Fallible (Frame j) × ServerState j
  push_edit s msg path conn =
      let (ok, chans) =
        send j s.channels conn.events
          (event j s.next_msg_id (codes "ui.edit") (j.edit_value path)) in
      let s' : ServerState j = record s {
        channels = chans;
        next_msg_id = bump_u32 s.next_msg_id;
      } in
      if ok
      then (done (respond j msg.id (codes "ui.edit") (j.edit_resp_value true (codes "gui"))), s')
      else (failed (codes "ui.edit: event not sent"), s')

  unfoldable pub handle_ui_edit : ServerState j → Message j → Fallible (Frame j) × ServerState j
  unfolding edit_target send all_white
  handle_ui_edit s msg = elim (j.ui_edit msg.payload) [
    | none ↦ (failed (codes "Failed to parse UiEdit"), s)
    | some path ↦
        if all_white path
        then (failed (codes "ui.edit: path is empty"), s)
        else elim (edit_target s.conns) [
          | none ↦ (
            done (respond j msg.id (codes "ui.edit") (j.edit_resp_value false (codes "none"))),
            s,
          )
          | some target ↦ push_edit s msg path target.1
        ]
  ]

  -- `dispatch`'s result: the response if there is one, whether hands were shaken, the state.
  abbrev pub Reply : Type 0
  Reply = Fallible (Option (Frame j)) × Bool × ServerState j

  abbrev pub reply : Bool → Fallible (Frame j) × ServerState j → Reply
  reply h (done f, s) = (done (some f), h, s)
  reply h (failed e, s) = (failed e, h, s)

  abbrev pub reply_handshake : Fallible (Frame j) × Bool × ServerState j → Reply
  reply_handshake (done f, h, s) = (done (some f), h, s)
  reply_handshake (failed e, h, s) = (failed e, h, s)

  abbrev pub other_op : Services → Bool → Message j → ServerState j → Reply
  other_op services h msg s = elim (services msg s) [
    | some r ↦ reply h r
    | none ↦ (
      done (
          some (
            respond_err j msg.id msg.op (codes "unknown_op")
              (codes "Unknown operation: " ++ msg.op))),
      h,
      s,
    )
  ]

  abbrev pub request : Services → ServerState j → Message j → Bool → ℕ → ℕ → Text → Answers → Reply
  request services s msg h chan token session_id a =
      if text_eq msg.op (codes "hello")
      then reply_handshake (handle_handshake s msg h chan token session_id)
      else if text_eq msg.op (codes "ping")
      then (done (some (respond j msg.id (codes "ping") msg.payload)), h, s)
      else if text_eq msg.op (codes "pty.open")
      then reply h (handle_pty_open j s msg a.resized a.spawned chan token)
      else if text_eq msg.op (codes "pty.resize")
      then reply h (handle_pty_resize j s msg a.resized)
      else if text_eq msg.op (codes "pty.close")
      then reply h (handle_pty_close j s msg)
      else if text_eq msg.op (codes "pty.cwd")
      then reply h (handle_pty_cwd j s msg a.cwd_at)
      else if text_eq msg.op (codes "pty.list")
      then reply h (handle_pty_list j s msg)
      else if text_eq msg.op (codes "ui.edit")
      then reply h (handle_ui_edit s msg)
      else other_op services h msg s

  abbrev pub requested :
      MsgKind → Services → ServerState j → Message j → Bool → ℕ → ℕ → Text → Answers → Reply
  requested MsgKind.req services s msg h chan token session_id a =
      request services s msg h chan token session_id a
  requested MsgKind.resp services s msg h chan token session_id a = (done none, h, s)
  requested MsgKind.evt services s msg h chan token session_id a = (done none, h, s)

  unfoldable pub dispatch :
      Services → ServerState j → Message j → Bool → ℕ → ℕ → Text → Answers → Reply
  dispatch services s msg h chan token session_id a =
      if not (text_eq msg.op (codes "hello")) && not h
      then (
        done (
            some (
              respond_err j msg.id msg.op (codes "not_handshaked") (codes "Must handshake first"))),
        h,
        s,
      )
      else requested msg.kind services s msg h chan token session_id a

  -- `handle_message`: an error becomes a response.
  unfoldable pub handle_message :
      Services
      → ServerState j
      → Message j
      → Bool
      → ℕ
      → ℕ
      → Text
      → Answers
      → Option (Frame j) × Bool × ServerState j
  unfolding dispatch
  handle_message services s msg h chan token session_id a =
      let (r, h', s') = dispatch services s msg h chan token session_id a in
      elim r [
        | done response ↦ (response, h', s')
        | failed e ↦ (some (respond_err j msg.id msg.op (codes "op_failed") e), h', s')
      ]

-- ===== src/Dock/Daemon.antt =====
-- crates/dock/src/daemon.rs: the commands of a client of the root daemon, the bridge of an attached
-- client, the reader of a session and the reaping. The map of sessions holds references into
-- `cells`, since a session is shared by the map, its reader and its bridges. What `match op` and
-- serde make of a message is a `Payload`. What the system answers (a spawned shell, a signal that
-- was sent) is an argument; resizing a terminal changes nothing that the daemon keeps. The map is
-- listed in an arbitrary order, here that of the table.
pub mod Table
pub mod Registration
pub mod Reaping
mod Tests
pub mod Shows
pub mod Refinement
pub mod Refusal
use easytidy.Prelude.{
  ℕ, ◌+◌, ◌-◌, ◌*◌, ◌^◌, ◌==◌, Bool, true, false, Option, none, some, List, [], ◌∷◌, ◌++◌, map,
  if◌then◌else◌,
}
use easytidy.Lists.{length, get_elem?, find, retain}
use easytidy.Text.{Text, codes, decimal_digits}
use easytidy.Server.{Json, Channel, Map, get, remove, insert, update}
use easytidy.Dock.{next_session_id}
use easytidy.Dock.Session.{
  RootSession, new, unsubscribe, replay, write_input, kill, subscribe, push_output,
  broadcast_exited, root_stream_id,
}

pub data Payload : Type 0 where
  ping list : Payload
  new_session : ℕ → ℕ → Payload
  attach : ℕ → ℕ → ℕ → Payload
  close : ℕ → Payload
  resize : ℕ → ℕ → Payload
  unknown : Text → Payload
  malformed : Payload

pub record SessionInfo : Type 0 where
  pub id : ℕ
  pub alive : Bool
  pub spawn_pid : ℕ

-- The payloads of the answers; `op_failed` is the error of `resp_err`, `replayed` the raw frame.
pub data Reply : Type 0 where
  pong : Bool → Reply
  sessions : List SessionInfo → Reply
  created : ℕ → Reply
  attached : Bool → Reply
  replayed : List ℕ → Reply
  closed resized : Reply
  op_failed : Text → Reply

-- What follows the answers of a command: the connection ends, as an error or not, or it is to be bridged to a
-- session.
pub data Next : Type 0 where
  ended dropped : Next
  bridge : ℕ → Next

-- A u64 in decimal.
abbrev pub decimal_u64 : ℕ → Text
decimal_u64 n = decimal_digits 19 n

abbrev pub not_found : ℕ → Text
not_found id = codes "session " ++ (decimal_u64 id ++ codes " not found")

abbrev pub info_of : RootSession → SessionInfo
info_of s = record { id = s.id; alive = s.alive; spawn_pid = s.spawn_pid }

abbrev pub is_alive : Option RootSession → Bool
is_alive none = false
is_alive (some s) = s.alive

-- The names of the operations.
abbrev pub op_name : Payload → Text
op_name ping = codes "rc.ping"
op_name list = codes "rc.list"
op_name (new_session cols rows) = codes "rc.new"
op_name (attach cols rows id) = codes "rc.attach"
op_name (close id) = codes "rc.close"
op_name (resize cols rows) = codes "rc.resize"
op_name (unknown op) = op
op_name malformed = []

-- What happens to the daemon, one at a time.
pub data Event : Type 0 where
  command : Payload → Option ℕ → Bool → Event
  begin : ℕ → ℕ → Event
  message : ℕ → ℕ → Payload → Bool → Event
  raw : ℕ → ℕ → List ℕ → (List ℕ → List ℕ) → Event
  end_bridge : ℕ → ℕ → Event
  output : ℕ → List ℕ → Event
  eof : ℕ → Event
  reap : Event

module _ (j : Json) where
  -- `next_id` is the counter of `next_session_id`.
  pub record DaemonState : Type 0 where
    pub sessions : Map ℕ
    pub cells : List RootSession
    pub channels : List (Channel j)
    pub next_id : ℕ

  abbrev pub with_session : DaemonState → ℕ → RootSession → DaemonState
  with_session d ref s = record d { cells = update d.cells ref s }

  -- Applies a session's own operation that sends to its subscribers.
  abbrev pub sending : DaemonState → ℕ → List (Channel j) × RootSession → DaemonState
  sending d ref (chans, s) = record d { channels = chans; cells = update d.cells ref s }

  -- `sessions.get(&id)`, with its reference.
  unfoldable pub lookup : DaemonState → ℕ → Option (ℕ × RootSession)
  unfolding get
  lookup d id = elim (get d.sessions id) [
    | none ↦ none
    | some ref ↦ elim (get_elem? d.cells ref) [ none ↦ none | some s ↦ some (ref, s) ]
  ]

  -- The sessions of the map.
  unfoldable pub registered : List RootSession → Map ℕ → List RootSession
  registered cells [] = []
  registered cells ((id, ref) ∷ m) = elim (get_elem? cells ref) [
    | none ↦ registered cells m
    | some s ↦ s ∷ registered cells m
  ]

  abbrev is_some : Option RootSession → Bool
  is_some none = false
  is_some (some s) = true

  -- The operations of `match cmd.op.as_str()`, each with what it answers.
  unfoldable pub rc_new : DaemonState → Option ℕ → DaemonState × List Reply × Next
  rc_new d none = (d, [], dropped)
  rc_new d (some pid) =
      let (id, next) = next_session_id d.next_id in
      (
        record d {
          sessions = insert d.sessions id (length d.cells);
          cells = d.cells ++ (new id pid ∷ []);
          next_id = next;
        },
        created id ∷ [],
        bridge (length d.cells),
      )

  unfoldable pub rc_attach : DaemonState → ℕ → DaemonState × List Reply × Next
  unfolding lookup
  rc_attach d id = elim (lookup d id) [
    | none ↦ (d, op_failed (not_found id) ∷ [], ended)
    | some (ref, s) ↦ (d, attached s.alive ∷ replayed (replay s) ∷ [], bridge ref)
  ]

  unfoldable pub rc_close : DaemonState → ℕ → Bool → DaemonState × List Reply × Next
  unfolding lookup kill broadcast_exited
  rc_close d id sent = elim (lookup d id) [
    | none ↦ (d, op_failed (not_found id) ∷ [], ended)
    | some (ref, s) ↦ (
      sending (record d { sessions = remove d.sessions id }) ref
          (broadcast_exited j d.channels (kill s sent)),
      closed ∷ [],
      ended,
    )
  ]

  -- `handle_client` behind the handshake, up to the bridge.
  unfoldable pub handle_command :
      DaemonState → Payload → Option ℕ → Bool → DaemonState × List Reply × Next
  unfolding rc_new rc_attach rc_close registered find
  handle_command d ping spawned sent = (d, pong true ∷ [], ended)
  handle_command d list spawned sent =
      (d, sessions (map info_of (registered d.cells d.sessions)) ∷ [], ended)
  handle_command d (new_session cols rows) spawned sent = rc_new d spawned
  handle_command d (attach cols rows id) spawned sent = rc_attach d id
  handle_command d (close id) spawned sent = rc_close d id sent
  handle_command d (resize cols rows) spawned sent =
      if is_some (find (λ (s : RootSession). s.alive) (registered d.cells d.sessions))
      then (d, resized ∷ [], ended)
      else (d, op_failed (codes "no alive root session (root 终端未挂载)") ∷ [], ended)
  handle_command d (unknown op) spawned sent =
      (d, op_failed (codes "unknown post-hello op: " ++ op) ∷ [], ended)
  handle_command d malformed spawned sent = (d, [], dropped)

  -- A session of the heap, or the state as it is where there is none.
  abbrev pub at_session : {A : Type 0} → DaemonState → ℕ → A → (RootSession → A) → A
  at_session d ref other f = elim (get_elem? d.cells ref) [ none ↦ other | some s ↦ f s ]

  -- `attach_session` begins with the subscription.
  unfoldable pub bridge_begin : DaemonState → ℕ → ℕ → DaemonState
  unfolding subscribe
  bridge_begin d ref token =
      at_session d ref d
        (λ s. let (chans, s', chan) = subscribe j d.channels s token in sending d ref (chans, s'))

  -- `unsubscribe`, behind the loop.
  unfoldable pub bridge_end : DaemonState → ℕ → ℕ → DaemonState
  unfolding unsubscribe
  bridge_end d ref token = at_session d ref d (λ s. with_session d ref (unsubscribe s token))

  unfoldable pub bridge_close : DaemonState → ℕ → RootSession → Bool → DaemonState
  unfolding kill broadcast_exited
  bridge_close d ref s sent =
      sending (record d { sessions = remove d.sessions s.id }) ref
        (broadcast_exited j d.channels (kill s sent))

  -- A message on the bridge of `token`. A payload of `rc.resize` or `rc.ping` that is malformed ends
  -- the handler where it stands, without `unsubscribe`.
  unfoldable pub bridge_message : DaemonState → ℕ → ℕ → Payload → Bool → DaemonState × List Reply
  unfolding bridge_close bridge_end
  bridge_message d ref token (resize cols rows) sent = (d, [])
  bridge_message d ref token (close id) sent =
      at_session d ref (d, []) (λ s. (bridge_end (bridge_close d ref s sent) ref token, []))
  bridge_message d ref token ping sent = at_session d ref (d, []) (λ s. (d, pong s.alive ∷ []))
  bridge_message d ref token malformed sent = (d, [])
  bridge_message d ref token p sent = (d, op_failed (codes "unknown op: " ++ op_name p) ∷ [])

  -- A raw frame of the client.
  unfoldable pub bridge_raw : DaemonState → ℕ → ℕ → List ℕ → (List ℕ → List ℕ) → DaemonState
  bridge_raw d ref stream_id [] wrote = d
  bridge_raw d ref stream_id (b ∷ bs) wrote = at_session d ref d (λ s.
      if stream_id == root_stream_id then with_session d ref (write_input s (b ∷ bs) wrote) else d)

  -- The reader task: a chunk of output, and the end.
  unfoldable pub reader_output : DaemonState → ℕ → List ℕ → DaemonState
  unfolding push_output
  reader_output d ref bytes =
      at_session d ref d (λ s. sending d ref (push_output j d.channels s bytes))

  unfoldable pub reader_end : DaemonState → ℕ → DaemonState
  unfolding broadcast_exited
  reader_end d ref =
      at_session d ref d
        (λ s. sending d ref (broadcast_exited j d.channels (record s { alive = false })))

  unfoldable pub reap_dead_sessions : DaemonState → DaemonState
  reap_dead_sessions d = record d {
    sessions = retain (λ e. is_alive (get_elem? d.cells e.1)) d.sessions;
  }

  unfoldable pub step : DaemonState → Event → DaemonState
  unfolding handle_command bridge_begin bridge_message bridge_raw bridge_end reader_output
      reader_end reap_dead_sessions
  step d (command p spawned sent) = (handle_command d p spawned sent).0
  step d (begin ref token) = bridge_begin d ref token
  step d (message ref token p sent) = (bridge_message d ref token p sent).0
  step d (raw ref stream_id bytes wrote) = bridge_raw d ref stream_id bytes wrote
  step d (end_bridge ref token) = bridge_end d ref token
  step d (output ref bytes) = reader_output d ref bytes
  step d (eof ref) = reader_end d ref
  step d reap = reap_dead_sessions d

-- ===== src/Server.antt =====
-- crates/server/src/state.rs: the state that the connections, the services and the terminals' reader
-- threads share.
-- `Arc<PtySession>` is a reference into `cells`: the session map and a reader thread hold the same
-- one. An unbounded channel is a reference into `channels`; it refuses once its receiver is dropped.
pub mod Pty
pub mod Command
pub mod Reader
pub mod Connection
pub mod Router
pub mod Sending
pub mod Ring
pub mod Lifetime
pub mod Operations
pub mod Default
pub mod Editing
pub mod Reuse
pub mod Login
pub mod Children
pub mod Payload
mod Tests
use easytidy.Prelude.{
  ℕ, zero, suc, ◌+◌, ◌-◌, ◌%◌, ◌^◌, ◌*◌, ◌≡◌, ◌≢◌, refl, ap, Bool, true, false, not, ◌&&◌, Option,
  none, some, List, [], ◌∷◌, ◌++◌, ◌==◌, if◌then◌else◌,
}
use easytidy.Lists.{length, get_elem?, find, retain}
use easytidy.Text.{Text, text_eq}

pub data MsgKind : Type 0 where
  req resp evt : MsgKind

pub record RpcError : Type 0 where
  pub code : Text
  pub message : Text

-- `PtyOpen`
pub record PtyOpen : Type 0 where
  pub cmd : Text
  pub argv : List Text
  pub env : List (Text × Text)
  pub cwd : Text
  pub cols : ℕ
  pub rows : ℕ
  pub attach : Bool
  pub persistent : Bool
  pub attach_stream : Option ℕ

-- `PtyResize`
pub record PtyResize : Type 0 where
  pub stream_id : ℕ
  pub cols : ℕ
  pub rows : ℕ

-- `PtyTerminalInfo`
pub record PtyTerminalInfo : Type 0 where
  pub stream_id : ℕ
  pub cmd : Text
  pub persistent : Bool
  pub cwd : Option Text

-- `Handshake`
pub record Handshake : Type 0 where
  pub v : ℕ
  pub client : Text
  pub wants : List Text

-- `serde_json::Value`, `from_value` and `to_value` of the payloads, and `json!`. What `to_value`
-- makes of a stream id, `from_value` reads back.
pub record Json : Type 1 where
  pub Value : Type 0
  pub null : Value
  pub pty_open : Value → Option PtyOpen
  pub pty_resize : Value → Option PtyResize
  pub pty_close : Value → Option ℕ
  pub pty_cwd : Value → Option ℕ
  pub handshake : Value → Option Handshake
  pub ui_edit : Value → Option Text
  pub pty_open_resp : Value → Option ℕ
  pub pty_exited : Value → Option ℕ
  pub open_value : ℕ → Value
  pub list_value : List PtyTerminalInfo → Value
  pub cwd_value : Text → Value
  pub exited_value : ℕ → Bool → Value
  pub cwd_changed_value : ℕ → Text → Value
  pub ack_value : Text → Value
  pub edit_value : Text → Value
  pub edit_resp_value : Bool → Text → Value
  pub resp-open_value : (n : ℕ) → pty_open_resp (open_value n) ≡ some n
  pub exited-exited_value : (n : ℕ) (ok : Bool) → pty_exited (exited_value n ok) ≡ some n

-- `anyhow::Result`, an error by its text.
pub data Fallible {ℓ} (A : Type ℓ) : Type ℓ where
  done : A → Fallible A
  failed : Text → Fallible A

-- `AtomicU32::fetch_add(1)` leaves this behind.
abbrev pub bump_u32 : ℕ → ℕ
bump_u32 n = (n + 1) % 2 ^ 32

-- `RING_MAX`
abbrev pub ring_max : ℕ
ring_max = 128 * 1024

-- A `HashMap` from numbers, its entries in the order it yields them.
abbrev pub Map : Type 0 → Type 0
Map A = List (ℕ × A)

unfoldable pub get : {A : Type 0} → Map A → ℕ → Option A
get [] k = none
get ((j, a) ∷ m) k = if j == k then some a else get m k

abbrev pub remove : {A : Type 0} → Map A → ℕ → Map A
remove m k = retain (λ e. not (e.0 == k)) m

abbrev pub insert : {A : Type 0} → Map A → ℕ → A → Map A
insert m k a = (k, a) ∷ remove m k

-- The element at an index is replaced.
unfoldable pub update {ℓ} : {A : Type ℓ} → List A → ℕ → A → List A
update [] i a = []
update (x ∷ xs) zero a = a ∷ xs
update (x ∷ xs) (suc i) a = x ∷ update xs i a

pub get_elem-update_same :
    {A : Type 0} (xs : List A) (i : ℕ) (a b : A)
    → get_elem? xs i ≡ some b
    → get_elem? (update xs i a) i ≡ some a
unfolding update
get_elem-update_same [] i a b h = cc
get_elem-update_same (x ∷ xs) zero a b h = refl
get_elem-update_same (x ∷ xs) (suc i) a b h = get_elem-update_same xs i a b h

pub get_elem-update_other :
    {A : Type 0} (xs : List A) (i k : ℕ) (a : A)
    → i ≢ k
    → get_elem? (update xs i a) k ≡ get_elem? xs k
unfolding update
get_elem-update_other [] i k a h = refl
get_elem-update_other (x ∷ xs) zero zero a h = absurd (h refl)
get_elem-update_other (x ∷ xs) zero (suc k) a h = refl
get_elem-update_other (x ∷ xs) (suc i) zero a h = refl
get_elem-update_other (x ∷ xs) (suc i) (suc k) a h =
    get_elem-update_other xs i k a (λ e. h (ap suc e))

module _ (j : Json) where
  pub record Message : Type 0 where
    pub id : ℕ
    pub kind : MsgKind
    pub op : Text
    pub payload : j.Value
    pub err : Option RpcError

  pub data Frame : Type 0 where
    json : Message → Frame
    raw : ℕ → List ℕ → Frame

  -- An unbounded channel: whether its receiver lives, and the frames sent into it.
  pub record Channel : Type 0 where
    pub open_receiver : Bool
    pub queue : List Frame

  -- `PtySession`. Of the PTY's master it keeps the size, of the writer what was written and whether
  -- it was replaced by a sink.
  pub record PtySession : Type 0 where
    pub written : List ℕ
    pub sunk : Bool
    pub size : ℕ × ℕ
    pub ring : List ℕ
    pub subs : List (ℕ × ℕ)
    pub persistent : Bool
    pub spawn_pid : ℕ
    pub last_cwd : Option Text
    pub cmd : Text

  -- `ConnInfo`, its channel by reference.
  pub record ConnInfo : Type 0 where
    pub client : Text
    pub wants : List Text
    pub events : ℕ

  -- `ServerState`, with the heap of sessions and channels.
  pub record ServerState : Type 0 where
    pub sessions : Map ℕ
    pub default_terminal : List (Text × ℕ)
    pub next_stream_id : ℕ
    pub next_conn_id : ℕ
    pub conns : Map ConnInfo
    pub next_msg_id : ℕ
    pub shutting_down : Bool
    pub cells : List PtySession
    pub channels : List Channel

  -- `UnboundedSender::send`: whether it succeeded.
  unfoldable pub send : List Channel → ℕ → Frame → Bool × List Channel
  send chans c f = elim (get_elem? chans c) [
    | none ↦ (false, chans)
    | some ch ↦
        if ch.open_receiver
        then (true, update chans c (record ch { queue = ch.queue ++ (f ∷ []) }))
        else (false, chans)
  ]

  -- A loop over the subscribers that sends the frame to each, and collects the tokens of the ones
  -- that refuse.
  unfoldable pub send_all : List Channel → List (ℕ × ℕ) → Frame → List ℕ × List Channel
  send_all chans [] f = ([], chans)
  send_all chans ((tok, c) ∷ subs) f =
      let (ok, chans') = send chans c f in
      let (fail_tokens, chans'') = send_all chans' subs f in
      (if ok then fail_tokens else (tok ∷ fail_tokens), chans'')

  -- `subs.retain(|(_, tx)| tx.send(..).is_ok())`
  unfoldable pub send_retain : List Channel → List (ℕ × ℕ) → Frame → List (ℕ × ℕ) × List Channel
  send_retain chans [] f = ([], chans)
  send_retain chans ((tok, c) ∷ subs) f =
      let (ok, chans') = send chans c f in
      let (kept, chans'') = send_retain chans' subs f in
      (if ok then ((tok, c) ∷ kept) else kept, chans'')

  -- The session behind a reference.
  abbrev pub with_cell : ServerState → ℕ → PtySession → ServerState
  with_cell s ref p = record s { cells = update s.cells ref p }

  -- `sessions.get(&stream_id)`, with its reference.
  unfoldable pub session_of : ServerState → ℕ → Option (ℕ × PtySession)
  session_of s sid = elim (get s.sessions sid) [
    | none ↦ none
    | some ref ↦ elim (get_elem? s.cells ref) [ none ↦ none | some p ↦ some (ref, p) ]
  ]

  -- A response with a payload, and one with an error.
  abbrev pub respond : ℕ → Text → j.Value → Frame
  respond id op v =
      Frame.json (record { id = id; kind = MsgKind.resp; op = op; payload = v; err = none })

  abbrev pub respond_err : ℕ → Text → Text → Text → Frame
  respond_err id op code message = Frame.json (record {
    id = id;
    kind = MsgKind.resp;
    op = op;
    payload = j.null;
    err = some (record { code = code; message = message });
  })

  abbrev pub event : ℕ → Text → j.Value → Frame
  event id op v =
      Frame.json (record { id = id; kind = MsgKind.evt; op = op; payload = v; err = none })

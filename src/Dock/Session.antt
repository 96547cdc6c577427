-- ===== src/Dock/Session.antt =====
-- crates/dock/src/session.rs, `RootSession`: output to the subscribers, the broadcast of its end,
-- subscription and input. Of the process it keeps the pid and whether SIGHUP was sent.
pub mod Output
use easytidy.Prelude.{
  ℕ, ◌^◌, ◌≡◌, Bool, true, false, not, List, [], ◌∷◌, ◌++◌, ◌==◌, ltb, if◌then◌else◌,
}
use easytidy.Lists.{length, retain}
use easytidy.Text.{codes}
use easytidy.Server.{Json, Frame, Channel, send_all, event}
use easytidy.Server.Reader.{drop_tokens}
use easytidy.Dock.{ReplayRing, ring_new, ring_max, push, replay_wrapped}

-- `ROOT_STREAM_ID`
abbrev pub root_stream_id : ℕ
root_stream_id = 2 ^ 30

pub record RootSession : Type 0 where
  pub id : ℕ
  pub spawn_pid : ℕ
  pub alive : Bool
  pub hung_up : Bool
  pub written : List ℕ
  pub ring : ReplayRing
  pub subs : List (ℕ × ℕ)

-- `RootSession::new`, with the id that the counter gives.
abbrev pub new : ℕ → ℕ → RootSession
new id spawn_pid = record {
  id = id;
  spawn_pid = spawn_pid;
  alive = true;
  hung_up = false;
  written = [];
  ring = ring_new ring_max;
  subs = [];
}

-- `unsubscribe`
unfoldable pub unsubscribe : RootSession → ℕ → RootSession
unsubscribe s token = record s { subs = retain (λ e. not (e.0 == token)) s.subs }

-- `replay`
abbrev pub replay : RootSession → List ℕ
replay s = replay_wrapped s.ring

-- `write_input`; `wrote` says what the writer took.
abbrev pub write_input : RootSession → List ℕ → (List ℕ → List ℕ) → RootSession
write_input s bytes wrote = record s { written = s.written ++ wrote bytes }

-- `kill`: the signal goes to a process group that exists, and the session is dead.
unfoldable pub kill : RootSession → Bool → RootSession
kill s sent = record s { alive = false; hung_up = if ltb 0 s.spawn_pid then sent else s.hung_up }

module _ (j : Json) where
  -- `subscribe`: a new channel, by its index.
  unfoldable pub subscribe : List (Channel j) → RootSession → ℕ → List (Channel j) × RootSession × ℕ
  subscribe chans s token = (
    chans ++ (record { open_receiver = true; queue = [] } ∷ []),
    record s { subs = s.subs ++ ((token, length chans) ∷ []) },
    length chans,
  )

  -- A frame to every subscriber, and the dead ones taken off, where there are any.
  abbrev pub fan_out : List (Channel j) → RootSession → Frame j → List (Channel j) × RootSession
  fan_out chans s f =
      let (dead, chans') = send_all j chans s.subs f in
      (chans', elim dead [ [] ↦ s | t ∷ ts ↦ record s { subs = drop_tokens (t ∷ ts) s.subs } ])

  -- `push_output`
  unfoldable pub push_output :
      List (Channel j) → RootSession → List ℕ → List (Channel j) × RootSession
  unfolding push send_all
  push_output chans s [] = (chans, s)
  push_output chans s (b ∷ bs) =
      fan_out chans (record s { ring = push s.ring (b ∷ bs) }) (Frame.raw root_stream_id (b ∷ bs))

  -- `broadcast_exited`
  unfoldable pub broadcast_exited : List (Channel j) → RootSession → List (Channel j) × RootSession
  unfolding send_all
  broadcast_exited chans s = fan_out chans s (event j 0 (codes "rc.exited") j.null)

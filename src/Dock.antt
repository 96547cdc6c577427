-- ===== src/Dock.antt =====
-- crates/dock/src/session.rs: the output ring of a root session and its subscribers.
pub mod Replay
pub mod Session
pub mod Daemon
mod Tests
use easytidy.Prelude.{
  ℕ, ◌+◌, ◌%◌, ◌^◌, ◌*◌, ◌≡◌, Bool, true, false, not, List, [], ◌∷◌, ◌++◌, ◌==◌, if◌then◌else◌, ltb,
}
use easytidy.Lists.{length, retain, any, drop}
use easytidy.Text.{codes}

-- `RING_MAX`
abbrev pub ring_max : ℕ
ring_max = 128 * 1024

-- `next_session_id`: the id, and the counter behind it.
abbrev pub next_session_id : ℕ → ℕ × ℕ
next_session_id n = (n, (n + 1) % 2 ^ 64)

pub record ReplayRing : Type 0 where
  pub bytes : List ℕ
  pub max : ℕ

abbrev pub ring_new : ℕ → ReplayRing
ring_new max = record { bytes = []; max = max }

-- `ReplayRing::push`, one byte.
unfoldable pub push_byte : ReplayRing → ℕ → ReplayRing
push_byte r b =
    let grown = r.bytes ++ (b ∷ []) in
    record r { bytes = if ltb r.max (length grown) then drop 1 grown else grown }

-- `ReplayRing::push`
unfoldable pub push : ReplayRing → List ℕ → ReplayRing
unfolding push_byte
push r [] = r
push r (b ∷ bs) = push (push_byte r b) bs

-- `ReplayRing::replay_bytes`
abbrev pub replay_bytes : ReplayRing → List ℕ
replay_bytes r = r.bytes

-- `ReplayRing::replay_wrapped`, between the escape sequences of a synchronised update.
unfoldable pub replay_wrapped : ReplayRing → List ℕ
replay_wrapped r =
    (27 ∷ codes "[?2026h")
    ++ (((27 ∷ codes "[2J") ++ (27 ∷ codes "[H")) ++ (replay_bytes r ++ (27 ∷ codes "[?2026l")))

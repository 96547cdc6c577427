-- ===== src/Dock/Daemon/Tests.antt =====
-- A daemon with one session.
use easytidy.Prelude.{◌≡◌, refl, ◌↔◌, true, none, some, [], arith}
use easytidy.Lists.{retain}
use easytidy.Server.{get, update}
use easytidy.Server.Payload.{json}
use easytidy.Dock.Daemon.{
  DaemonState, attach, close, new_session, handle_command, command, eof, reap, step,
}
use easytidy.Dock.Daemon.Refinement.{after, step-Shows}
use easytidy.Dock.Daemon.Shows.{view, IsDaemon, Shows}
use easytidy.Dock.Daemon.Refusal.{refusal, handle_command-refusal}

-- `DaemonState::new`, and the counter of ids at its start.
abbrev started : DaemonState json
started = record { sessions = []; cells = []; channels = []; next_id = 1 }

started-IsDaemon : IsDaemon json started
unfolding get
started-IsDaemon = record { ids = λ ref s e. cc e; refs = tt; fresh = refl }

abbrev running : DaemonState json
running = step json started (command (new_session 80 24) (some 7) true)

running-IsDaemon : IsDaemon json running
running-IsDaemon =
    (step-Shows json started (command (new_session 80 24) (some 7) true) (omega arith)
      started-IsDaemon).0

few : running.next_id ≡ 2
unfolding step
few = refl

eof_example :
    Shows json (step json running (eof 0)) (after (eof 0) running.next_id (view json running))
eof_example = step-Shows json running (eof 0) (rw few (omega arith)) running-IsDaemon

refusal_example :
    (((handle_command json running (attach 80 24 5) none true).1 ≡ refusal 5)
      ↔ (view json running 5 ≡ none))
    × (((handle_command json running (close 5) none true).1 ≡ refusal 5)
        ↔ (view json running 5 ≡ none))
    × ((handle_command json running (attach 80 24 0) none true).1 ≡ refusal 0)
refusal_example = handle_command-refusal json running running-IsDaemon none true 80 24 5

-- The session is registered and alive; once its shell has ended and was reaped, it is gone.
alive_first : view json running 1 ≡ some true
unfolding step get
alive_first = refl

gone_later : view json (step json (step json running (eof 0)) reap) 1 ≡ none
unfolding step get retain update
gone_later = refl

-- ===== src/Dock/Tests.antt =====
-- A small ring that overflows.
use easytidy.Prelude.{◌≡◌, [], ◌∷◌, ◌++◌, arith, true}
use easytidy.Dock.{ReplayRing, push, replay_wrapped}
use easytidy.Dock.Replay.{replay_wrapped-replay}
use easytidy.Dock.Session.{RootSession, new}
use easytidy.Server.{Channel}
use easytidy.Server.Payload.{json}
use easytidy.Server.Pty.{replay}
use easytidy.Server.Reader.{trim}

abbrev ring : ReplayRing
ring = record { bytes = 1 ∷ 2 ∷ []; max = 3 }

replay_example :
    replay_wrapped (push ring (3 ∷ 4 ∷ [])) ≡ replay (trim 3 ((1 ∷ 2 ∷ []) ++ (3 ∷ 4 ∷ [])))
replay_example = replay_wrapped-replay ring (3 ∷ 4 ∷ []) (omega arith)

abbrev channel : Channel json
channel = record { open_receiver = true; queue = [] }

abbrev session : RootSession
session = record (new 1 77) { subs = (4, 0) ∷ [] }

-- ===== src/Server/Tests.antt =====
-- A server whose payloads are one data type, and what happens to its terminals.
use easytidy.Prelude.{◌≡◌, refl, ◌≤◌, true, false, not, some, none, [], ◌∷◌, ◌++◌, arith}
use easytidy.Lists.{length, get_elem?, any, retain}
use easytidy.Text.{codes}
use easytidy.Server.{
  PtyOpen, Frame, Channel, PtySession, ConnInfo, ServerState, done, respond, ring_max, get,
}
use easytidy.Server.Payload.{stream, json}
use easytidy.Server.Command.{UserMap, Host}
use easytidy.Server.Pty.{attach_key, open_pty}
use easytidy.Server.Reader.{reader_output, reader_outputs, concat}
use easytidy.Server.Ring.{last, reader_outputs-ring}
use easytidy.Server.Sending.{delivered, copies, refuses, reader_output-broadcast}
use easytidy.Server.Lifetime.{DefaultIsLive, Registered}
use easytidy.Server.Default.{Reach, start, step, opens, Reach-DefaultIsLive}
use easytidy.Server.Reuse.{open_pty-default}

abbrev request : PtyOpen
request = record {
  cmd = [];
  argv = [];
  env = (codes "HOME", codes "/home/host") ∷ [];
  cwd = [];
  cols = 80;
  rows = 24;
  attach = true;
  persistent = false;
  attach_stream = none;
}

-- One open channel, no terminal.
abbrev empty : ServerState json
empty = record {
  sessions = [];
  default_terminal = [];
  next_stream_id = 1;
  next_conn_id = 1;
  conns = [];
  next_msg_id = 1;
  shutting_down = false;
  cells = [];
  channels = record { open_receiver = true; queue = [] } ∷ [];
}

abbrev opened : ServerState json
opened = (open_pty json empty request true (done 42) 0 0 9).1

one_open : Reach json empty opened
one_open = step empty opened start (opens empty request true (done 42) 0 0 9 (omega arith))

default_example : DefaultIsLive json opened
default_example = Reach-DefaultIsLive json empty opened refl one_open

abbrev session : PtySession json
session = record {
  written = [];
  sunk = false;
  size = (24, 80);
  ring = [];
  subs = (0, 0) ∷ [];
  persistent = true;
  spawn_pid = 42;
  last_cwd = none;
  cmd = [];
}

abbrev registered : ServerState json
registered = record empty {
  sessions = (1, 0) ∷ [];
  default_terminal = (attach_key, 1) ∷ [];
  next_stream_id = 2;
  cells = session ∷ [];
}

registered-DefaultIsLive : DefaultIsLive json registered
unfolding Registered get
registered-DefaultIsLive = (refl, refl, omega arith)

reuse_example :
    ((open_pty json registered request true (done 43) 0 5 9).0
      ≡ done (respond json 9 (codes "pty.open") (stream 1)))
    × ((open_pty json registered request true (done 43) 0 5 9).1.sessions ≡ registered.sessions)
reuse_example =
    open_pty-default json registered 1 request true (done 43) 0 5 9 registered-DefaultIsLive refl
      refl refl

ring_example :
    (p' : PtySession json) × (get_elem?
        (reader_outputs json registered 1 0 ((1 ∷ 2 ∷ []) ∷ (3 ∷ []) ∷ [])).cells
        0
      ≡ some p')
    × (p'.ring ≡ last ring_max ([] ++ concat ((1 ∷ 2 ∷ []) ∷ (3 ∷ []) ∷ [])))
    × (length p'.ring ≤ ring_max)
ring_example =
    reader_outputs-ring json registered 1 0 ((1 ∷ 2 ∷ []) ∷ (3 ∷ []) ∷ []) session refl
      (omega arith)

abbrev channel : Channel json
channel = record { open_receiver = true; queue = [] }

broadcast_example :
    (get_elem? (reader_output json registered 1 0 (7 ∷ [])).channels 0
      ≡ some (delivered json channel (copies session.subs 0 (Frame.raw 1 (7 ∷ [])))))
    × ((p' : PtySession json) × (get_elem? (reader_output json registered 1 0 (7 ∷ [])).cells 0
          ≡ some p')
        × (p'.subs
            ≡ retain
                (λ e. not (any (refuses json registered.channels e.0) session.subs))
                session.subs))
broadcast_example = reader_output-broadcast json registered 1 0 0 (7 ∷ []) session channel refl refl

abbrev gui : ConnInfo json
gui = record { client = codes "easytidy-gui"; wants = codes "events" ∷ []; events = 0 }

abbrev user : UserMap
user = record { name = codes "ada"; home = codes "/home/ada" }

abbrev container : Host
container = record { bash_exists = true; user_map = some user; is_dir = λ d. true }

abbrev temporary : ServerState json
temporary = record registered {
  default_terminal = [];
  cells = record session { persistent = false } ∷ [];
}

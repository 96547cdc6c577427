-- ===== src/Lib.antt =====
-- easytidy: containers for desktop work, with a server in each container and a root daemon.
--
-- The host creates a container; in it, as root, crates/dock prepares the user's entry and home
-- (crates/core/src/env/incontainer.rs). Then the server (crates/server) runs as the container's user. Clients
-- connect to it over a socket, on which frames (crates/protocol/src/frame.rs) carry JSON messages and the
-- bytes of terminals. The server keeps terminals, some of them beyond the connection that opened them, and
-- pushes their output to every connection that is attached. The root daemon (crates/dock) does the same for
-- root's terminals. Mount paths of the configuration hold variables (crates/core/src/pathvars.rs).
--
-- Prelude, Lists, Text: names passed on from the libraries, lists measured by native numbers with `find`,
--   `any` and `retain`, and texts as lists of character codes, with `splitn`, `lines`, `parse::<u32>` and so
--   on.
-- Incontainer: crates/core/src/env/incontainer.rs. `parse_passwd`, `parse_group`, `resolve_identity`,
--   `plan_prepare`, `rewrite_file`, `ensure_home`, `apply_plan` and `prepare_in_container` up to
--   `apply_plan` keep their names; `Container` holds the files they read and write. Passwd, Home, Plan and
--   Prepare are proofs. Xdg models `fixup_xdg_data_dirs_value`, Ownership the recursive repair of owners.
-- PathVars: crates/core/src/pathvars.rs. `expand_path` runs its loop on fuel, one more than the length of the
--   path, since each round takes a character; Expand proves that it never runs out. Templates and Probe are
--   proofs about what it computes and when the image's /etc/passwd matters.
-- Frame: crates/protocol/src/frame.rs, `FrameCodec` over the record `Wire`, the transport and JSON of other
--   packages, whose laws are what their documentation says. BigEndian is a transport with these laws.
--   `decode_all` is what a reader of the stream does, on fuel, which has to exceed the number of
--   frames.
-- Server: crates/server/src/state.rs. `ServerState` holds references into lists of sessions and channels,
--   since a session is shared by the map and its reader thread. Pty, Command and Reader model
--   crates/server/src/services/pty.rs, Router crates/server/src/router.rs and Connection
--   crates/server/src/connection.rs. Stream and message ids wrap at 2^32. JSON values are the record `Json`.
--   What the system answers (a spawned process, a resize, a directory) is an argument. Ring, Sending,
--   Lifetime, Operations, Default, Reuse, Editing and Login are proofs.
--   Children models the table of managed processes of crates/server/src/services/apps.rs, apart from
--   `ServerState`, which it shares nothing with; Children/Table has its proofs.
-- Dock: crates/dock/src/session.rs and daemon.rs. The module itself has the replay ring, Session the root session; Replay
--   compares the ring with the server's, Output is about who receives output. Daemon models the
--   commands of a client (`handle_command` is the match of `handle_client`), the bridge of
--   `attach_session`, the reader task and `reap_dead_sessions`, as events that come in any order;
--   Daemon/Table has the abstract table of sessions, Daemon/Registration and Daemon/Reaping its laws,
--   Daemon/Shows, Daemon/Refinement and Daemon/Refusal are proofs.
-- Desktop: crates/core/src/desktop.rs. The module itself has the texts of entries, with the function names of the
--   source; Folders the operations on the applications folder and the desktop, which are lists of files
--   that can be written or not; Icons the update of icons; Scan `scan_desktop_icons`; ResourceDirs the
--   host's resource folders. `trim_start_matches` there runs on fuel, the length of the name, since
--   each round takes a character. Sanitize, Content, Fields, Export, Icons/Replace, Scan/Listing, Scan/Rows and
--   ResourceDirs/Portable are proofs.
-- Podman: crates/core/src/podman/mod.rs. Rebuild models `rebuild_with_commit`, `restore_original` and
--   `start_and_confirm` over the record `Engine`, the engine's requests with their documented effect on
--   which containers there are; Rebuild/Survival is about what is left. Mounts models `dedup_mounts` and
--   `validate_mount`; Images models `plan_rebuild_cleanup` with `parse_rebuild_ref`, whose groups, a hash map
--   there, are taken in a fixed order, Images/Cleanup is about what it spares and Images/Tag about `rebuild_image_tag`.
--   Body models `keep_id_create_body` of crates/core/src/libpod.rs, whose JSON objects are records, and Create
--   `create_inner` from the injected configuration to the request, which it does
--   not send: the folder of sockets, the expanded mounts and the answers of host and engine are
--   arguments. Accepted, Entries, Request and Ports below Create are proofs.
--
-- Config: crates/core/src/models.rs. The parameters of a container; Mode models `GuiMode`, Params the hand-written
--   `Serialize` and `Deserialize`, over the record `Serde`, a data format with what serde documents of it.
--   Params/Reading and Params/RoundTrip are proofs.
-- Env: crates/core/src/env/gui.rs and host.rs. Gui models `apply` and `inject_section`, Host
--   `inject_passthrough`. The two rules, which are YAML files, the variables of the host's process and the
--   paths of the host are arguments. Gui/Steps is the induction over the steps of an injection, the other
--   modules below Gui and Host are proofs.
-- Apps: crates/gui/src/commands/passthrough.rs and crates/server/src/services/passthrough.rs, the applications
--   of a container that the user configures. `Command` are the commands of the window (`set_pinned` is
--   `passthrough_set_pinned`, and so on), which read the whole configuration from the server, change it and
--   write it back; two windows at once are not modelled. `dedup_by_id` and `resolve_app` are those of
--   crates/server/src/services/apps.rs. IconPaths models `rewrite_icon_paths`. Ids, Consistent, AutoStart,
--   Stale and Resolve are proofs.
--
-- Not modelled: the reaping of processes, sockets, signals and timeouts, pictures, errors of file writes but
-- those of desktop entries, the other services, the rest of the podman client and its transport, the desktop
-- application, the command line, and the parsing of configuration files.
pub mod Config
pub mod Env
pub mod Apps
pub mod Prelude
pub mod Lists
pub mod Text
pub mod Incontainer
pub mod PathVars
pub mod Frame
pub mod Server
pub mod Dock
pub mod Desktop
pub mod Podman

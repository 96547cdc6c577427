-- ===== src/Server/Children.antt =====
-- crates/server/src/services/apps.rs and state.rs: the table of managed processes. Starting a process,
-- the signal and the clock are arguments, error texts are abbreviated; the exit code is `none` where the code writes -1.
pub mod Table
mod Tests
use easytidy.Prelude.{
  ℕ, ◌-◌, ◌*◌, Bool, true, false, not, Option, none, some, List, [], ◌∷◌, ◌++◌, ◌==◌, ltb, leb,
  if◌then◌else◌,
}
use easytidy.Lists.{length, retain}
use easytidy.Text.{Text, codes}
use easytidy.Server.{Map, get, insert, Fallible, done, failed}
use easytidy.Server.Reader.{trim}

-- `APP_LOG_MAX` and `EXITED_TTL_MS`
abbrev pub app_log_max : ℕ
app_log_max = 64 * 1024

abbrev pub exited_ttl_ms : ℕ
exited_ttl_ms = 120000

pub data ProcessStatus : Type 0 where
  running : ProcessStatus
  exited : Option ℕ → ℕ → ProcessStatus

pub record ChildInfo : Type 0 where
  pub kind : Text
  pub name : Text
  pub cmd : Text
  pub started_at : ℕ
  pub status : ProcessStatus
  pub stdio : List ℕ

-- `ManagedProcess`; the exit code is that of an exited process.
pub record ManagedProcess : Type 0 where
  pub pid : ℕ
  pub name : Text
  pub kind : Text
  pub cmd : Text
  pub started_at : ℕ
  pub status : ProcessStatus
  pub stdio_len : ℕ

abbrev pub Children : Type 0
Children = Map ChildInfo

-- `children.get_mut(&pid)` and the change of what it finds.
unfoldable pub change : Children → ℕ → (ChildInfo → ChildInfo) → Children
change [] pid f = []
change ((p, info) ∷ m) pid f =
    let rest = change m pid f in if p == pid then ((p, f info) ∷ m) else ((p, info) ∷ rest)

-- `spawn_managed_process` registers the process that was started.
unfoldable pub register : Children → ℕ → Text → Text → Text → ℕ → Children
register m pid kind name cmd now = insert m pid (record {
  kind = kind;
  name = name;
  cmd = cmd;
  started_at = now;
  status = ProcessStatus.running;
  stdio = [];
})

-- One chunk of `read_stream_into_buffer`, for a process that is in the table. The code writes to the
-- buffer it shares with the table's entry, also before the entry is made and after it is pruned.
unfoldable pub capture : Children → ℕ → List ℕ → Children
unfolding change trim
capture m pid out =
    change m pid (λ info. record info { stdio = trim app_log_max (info.stdio ++ out) })

-- Its loop.
unfoldable pub captures : Children → ℕ → List (List ℕ) → Children
unfolding capture
captures m pid [] = m
captures m pid (out ∷ outs) = captures (capture m pid out) pid outs

-- The task that waits for the process.
unfoldable pub child_exited : Children → ℕ → Option ℕ → ℕ → Children
unfolding change
child_exited m pid code now =
    change m pid (λ info. record info { status = ProcessStatus.exited code now })

abbrev pub fresh : ℕ → ProcessStatus → Bool
fresh now ProcessStatus.running = true
fresh now (ProcessStatus.exited code at) = ltb (now - at) exited_ttl_ms

unfoldable pub prune_children : Children → ℕ → Children
prune_children m now = retain (λ e. fresh now e.1.status) m

-- A stable insertion by the time of the start.
unfoldable pub insert_sorted : ManagedProcess → List ManagedProcess → List ManagedProcess
insert_sorted p [] = p ∷ []
insert_sorted p (q ∷ qs) =
    let rest = insert_sorted p qs in if leb p.started_at q.started_at then p ∷ q ∷ qs else q ∷ rest

unfoldable pub listing : Children → List ManagedProcess
unfolding insert_sorted
listing [] = []
listing ((pid, info) ∷ m) =
    insert_sorted
      (record {
        pid = pid;
        name = info.name;
        kind = info.kind;
        cmd = info.cmd;
        started_at = info.started_at;
        status = info.status;
        stdio_len = length info.stdio;
      })
      (listing m)

-- `handle_apps_ps`
unfoldable pub apps_ps : Children → ℕ → List ManagedProcess × Children
unfolding listing prune_children
apps_ps m now = (listing (prune_children m now), prune_children m now)

-- `handle_apps_logs`, before the bytes become text.
unfoldable pub apps_logs : Children → ℕ → List ℕ
unfolding get
apps_logs m pid = elim (get m pid) [ none ↦ [] | some info ↦ info.stdio ]

abbrev pub is_running : Option ChildInfo → Bool
is_running none = false
is_running (some info) = elim info.status [ running ↦ true | exited code at ↦ false ]

-- `handle_apps_kill`; `sent` is whether the signal went out.
unfoldable pub apps_kill : Children → ℕ → Bool → Fallible (Unit {0})
unfolding get
apps_kill m pid sent =
    if not (is_running (get m pid))
    then failed (codes "no such process")
    else if sent
    then done tt
    else failed (codes "SIGTERM failed")

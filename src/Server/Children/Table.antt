-- ===== src/Server/Children/Table.antt =====
-- What the table of processes keeps.
use easytidy.Prelude.{
  ℕ, ◌≡◌, refl, sym, ap, ◌∙◌, ◌≤◌, true, false, some, List, [], ◌∷◌, ◌++◌, ◌+◌, ◌&&◌, Bool, ltb,
  ◌==◌, arith, append_assoc, append-nil, Bool-cases, inl, inr, leb,
}
use mathlib.Core.Option.{some-injective}
use easytidy.Lists.{count, length, retain}
use easytidy.Server.{get}
use easytidy.Server.Reader.{concat}
use easytidy.Server.Ring.{last, trim-last, last-last, length-last, short-last}
use easytidy.Server.Children.{
  ChildInfo, ManagedProcess, ProcessStatus, Children, change, capture, captures, app_log_max,
  prune_children, insert_sorted, listing, apps_ps, apps_logs, fresh,
}

get_here :
    (m : Children) (p pid : ℕ) (i : ChildInfo) → (p == pid) ≡ true → get ((p, i) ∷ m) pid ≡ some i
unfolding get
get_here m p pid i e = rw e refl

get_there :
    (m : Children) (p pid : ℕ) (i : ChildInfo)
    → (p == pid) ≡ false
    → get ((p, i) ∷ m) pid ≡ get m pid
unfolding get
get_there m p pid i e = rw e refl

change_here :
    (m : Children) (p pid : ℕ) (i : ChildInfo) (f : ChildInfo → ChildInfo)
    → (p == pid) ≡ true
    → change ((p, i) ∷ m) pid f ≡ (p, f i) ∷ m
unfolding change
change_here m p pid i f e = rw e refl

change_there :
    (m : Children) (p pid : ℕ) (i : ChildInfo) (f : ChildInfo → ChildInfo)
    → (p == pid) ≡ false
    → change ((p, i) ∷ m) pid f ≡ (p, i) ∷ change m pid f
unfolding change
change_there m p pid i f e = rw e refl

get-change :
    (m : Children) (pid : ℕ) (f : ChildInfo → ChildInfo) (info : ChildInfo)
    → get m pid ≡ some info
    → get (change m pid f) pid ≡ some (f info)
unfolding get
get-change [] pid f info h = cc
get-change ((p, i) ∷ m) pid f info h = elim (Bool-cases (p == pid)) [
  | inl e ↦
      ap (λ x. get x pid) (change_here m p pid i f e)
      ∙ get_here m p pid (f i) e
      ∙ ap (λ x. some (f x)) (some-injective _ _ (sym (get_here m p pid i e) ∙ h))
  | inr e ↦
      ap (λ x. get x pid) (change_there m p pid i f e)
      ∙ get_there (change m pid f) p pid i e
      ∙ get-change m pid f info (sym (get_there m p pid i e) ∙ h)
]

capture-get :
    (m : Children) (pid : ℕ) (out : List ℕ) (info : ChildInfo)
    → get m pid ≡ some info
    → get (capture m pid out) pid
      ≡ some (record info { stdio = last app_log_max (info.stdio ++ out) })
unfolding capture
capture-get m pid out info h =
    get-change m pid _ info h
    ∙ ap (λ r. some (record info { stdio = r })) (trim-last app_log_max (info.stdio ++ out))

apps_logs-get :
    (m : Children) (pid : ℕ) (info : ChildInfo)
    → get m pid ≡ some info
    → apps_logs m pid ≡ info.stdio
unfolding apps_logs
apps_logs-get m pid info h = rw (apps_logs, h) refl

-- However a process's output is cut into chunks, its log is the last APP_LOG_MAX bytes of what was captured
-- before, within that bound, and all that came after.
pub apps_logs-captures :
    (m : Children) (pid : ℕ) (outs : List (List ℕ)) (info : ChildInfo)
    → get m pid ≡ some info
    → length info.stdio ≤ app_log_max
    → apps_logs (captures m pid outs) pid ≡ last app_log_max (info.stdio ++ concat outs)
unfolding apps_logs captures concat
apps_logs-captures m pid [] info h b =
    apps_logs-get m pid info h
    ∙ sym (ap (last app_log_max) (append-nil info.stdio) ∙ short-last app_log_max info.stdio b)
apps_logs-captures m pid (out ∷ outs) info h b =
    apps_logs-captures (capture m pid out) pid outs _ (capture-get m pid out info h)
      (length-last app_log_max (info.stdio ++ out))
    ∙ last-last app_log_max (info.stdio ++ out) (concat outs)
    ∙ ap (last app_log_max) (append_assoc info.stdio out (concat outs))

-- Each process started no later than the next one.
abbrev pub NotBefore : ℕ → List ManagedProcess → Type 0
NotBefore n [] = Unit {0}
NotBefore n (q ∷ qs) = n ≤ q.started_at

abbrev pub IsSorted : List ManagedProcess → Type 0
IsSorted [] = Unit {0}
IsSorted (p ∷ ps) = NotBefore p.started_at ps × IsSorted ps

NotBefore-insert_sorted :
    (n : ℕ) (p : ManagedProcess) (qs : List ManagedProcess)
    → n ≤ p.started_at
    → NotBefore n qs
    → NotBefore n (insert_sorted p qs)
unfolding insert_sorted
NotBefore-insert_sorted n p [] h k = h
NotBefore-insert_sorted n p (q ∷ qs) h k = elim (Bool-cases (leb p.started_at q.started_at)) [
  | inl e ↦ rw e h
  | inr e ↦ rw e k
]

insert_sorted-IsSorted :
    (p : ManagedProcess) (qs : List ManagedProcess) → IsSorted qs → IsSorted (insert_sorted p qs)
unfolding insert_sorted
insert_sorted-IsSorted p [] h = (tt, tt)
insert_sorted-IsSorted p (q ∷ qs) h = elim (Bool-cases (leb p.started_at q.started_at)) [
  | inl e ↦ let le : p.started_at ≤ q.started_at = ground arith in rw e (le, h)
  | inr e ↦
      let le : q.started_at ≤ p.started_at = ground arith in
      rw e (NotBefore-insert_sorted q.started_at p qs le h.0, insert_sorted-IsSorted p qs h.1)
]

listing-IsSorted : (m : Children) → IsSorted (listing m)
unfolding listing
listing-IsSorted [] = tt
listing-IsSorted ((pid, info) ∷ m) = insert_sorted-IsSorted _ (listing m) (listing-IsSorted m)

count-insert_sorted :
    (q : ManagedProcess → Bool) (p : ManagedProcess) (ps : List ManagedProcess)
    → count q (insert_sorted p ps) ≡ count q (p ∷ ps)
unfolding insert_sorted
count-insert_sorted q p [] = refl
count-insert_sorted q p (r ∷ ps) = ground (arith, count-insert_sorted q p ps)

-- The process is running, or less than 120 seconds have passed since its end.
abbrev pub is_recent : ℕ → ℕ × ChildInfo → Bool
is_recent now (pid, info) = elim info.status [
  | ProcessStatus.running ↦ true
  | ProcessStatus.exited code at ↦ ltb now (at + 120000)
]

-- The process as `apps.ps` shows it.
abbrev pub shown : ℕ × ChildInfo → ManagedProcess
shown (pid, info) = record {
  pid = pid;
  name = info.name;
  kind = info.kind;
  cmd = info.cmd;
  started_at = info.started_at;
  status = info.status;
  stdio_len = length info.stdio;
}

fresh-recent : (now pid : ℕ) (info : ChildInfo) → fresh now info.status ≡ is_recent now (pid, info)
fresh-recent now pid info =
    elim info.status
      as (λ st. fresh now st ≡ elim st as (λ x. Bool) [
        | ProcessStatus.running ↦ true
        | ProcessStatus.exited code at ↦ ltb now (at + 120000)
      ]) [ ProcessStatus.running ↦ refl | ProcessStatus.exited code at ↦ ground arith ]

count-prune_children :
    (q : ℕ × ChildInfo → Bool) (m : Children) (now : ℕ)
    → count q (prune_children m now) ≡ count (λ e. is_recent now e && q e) m
unfolding prune_children retain
count-prune_children q [] now = refl
count-prune_children q ((pid, info) ∷ m) now = elim (Bool-cases (is_recent now (pid, info))) [
  | inl e ↦ rw (fresh-recent now pid info, e) (ground (arith, count-prune_children q m now))
  | inr e ↦ rw (fresh-recent now pid info, e) (count-prune_children q m now)
]

count-listing :
    (q : ManagedProcess → Bool) (m : Children) → count q (listing m) ≡ count (λ e. q (shown e)) m
unfolding listing
count-listing q [] = refl
count-listing q ((pid, info) ∷ m) =
    count-insert_sorted q (shown (pid, info)) (listing m) ∙ ground (arith, count-listing q m)

-- For every test, as many processes of the answer pass it as processes of the table that run or have
-- ended less than EXITED_TTL_MS ago pass it as they are shown: the answer has these processes, each
-- with its pid, texts, start, status and the length of its log, and no other. They stand in the order
-- of their starts. And the table keeps these processes and no other.
pub apps_ps-recent :
    (m : Children) (now : ℕ) (q : ManagedProcess → Bool) (t : ℕ × ChildInfo → Bool)
    → (count q (apps_ps m now).0 ≡ count (λ e. is_recent now e && q (shown e)) m)
      × IsSorted (apps_ps m now).0
      × (count t (apps_ps m now).1 ≡ count (λ e. is_recent now e && t e) m)
unfolding apps_ps
apps_ps-recent m now q t = (
  count-listing q (prune_children m now) ∙ count-prune_children (λ e. q (shown e)) m now,
  listing-IsSorted (prune_children m now),
  count-prune_children t m now,
)

-- ===== src/Dock/Daemon/Refinement.antt =====
-- The daemon implements the table of sessions, whatever happens in whatever order.
use mathlib.Core.Path.{subst}
use easytidy.Prelude.{
  ℕ, suc, ◌+◌, ◌^◌, ◌%◌, ◌<◌, ◌==◌, ◌≡◌, refl, sym, ap, ◌∙◌, Bool, false, Bool-cases, inl, inr,
  Option, none, some, List, [], ◌∷◌, arith, eq-of-==,
}
use easytidy.Lists.{get_elem?, All-retain}
use easytidy.Server.{Json, Channel, remove}
use easytidy.Dock.Session.{root_stream_id, RootSession, kill, broadcast_exited}
use easytidy.Dock.Daemon.{
  ping, list, new_session, attach, close, resize, unknown, malformed, DaemonState, sending,
  at_session, lookup, rc_new, rc_attach, rc_close, handle_command, bridge_end, bridge_close,
  bridge_message, bridge_raw, reap_dead_sessions, Event, command, begin, message, raw, end_bridge,
  output, eof, reap, step,
}
use easytidy.Dock.Daemon.Table.{Table, view_of, register, forget, mark_dead, drop_dead, Numbered}
use easytidy.Dock.Daemon.Registration.{view-new, Numbered-new, view-remove, Numbered-remove}
use easytidy.Dock.Daemon.Reaping.{view-reap, broadcast-keeps}
use easytidy.Dock.Daemon.Shows.{
  sending-Shows, dying-Shows, same, at_session-Shows, bridge_begin-Shows, bridge_end-Shows,
  reader_output-Shows, absent-view, reader_end-Shows, lookup-cases, view, IsDaemon, Shows,
}

-- What an event does to the table; `next` is the id that a new session gets.
abbrev pub after : Event → ℕ → Table → Table
after (command (new_session cols rows) (some pid) sent) next t = register next t
after (command (close id) spawned sent) next t = forget id t
after (message ref token (close id) sent) next t = forget (suc ref) t
after (eof ref) next t = mark_dead (suc ref) t
after reap next t = drop_dead t
after _ next t = t

module _ (j : Json) where
  forget-absent :
      (d : DaemonState j) (id : ℕ)
      → view j d id ≡ none
      → (i : ℕ) → view j d i ≡ forget id (view j d) i
  forget-absent d id e i = elim (Bool-cases (id == i)) [
    | inl c ↦ rw c (ap (view j d) (sym (eq-of-== id i c)) ∙ e)
    | inr c ↦ rw c refl
  ]

  -- A session is taken out of the map and dies.
  forget-Shows :
      (d : DaemonState j) (ref id : ℕ) (s s' : RootSession) (chans : List (Channel j))
      → IsDaemon j d
      → get_elem? d.cells ref ≡ some s
      → s'.id ≡ s.id
      → s'.alive ≡ false
      → id ≡ suc ref
      → Shows j
          (sending j (record d { sessions = remove d.sessions id }) ref (chans, s'))
          (forget id (view j d))
  forget-Shows d ref id s s' chans n h k a e =
      let d' : DaemonState j = record d { sessions = remove d.sessions id } in
      let n' : IsDaemon j d' = Numbered-remove d.sessions d.cells d.next_id n id in
      let (m, v) = dying-Shows j d' n' ref s h chans s' k a in
      (m, λ i. v i ∙ gone i (view-remove d.sessions d.cells d.next_id n id i))
    where
      gone :
          (i : ℕ)
          → view_of (remove d.sessions id) d.cells i ≡ forget id (view j d) i
          → mark_dead (suc ref) (view_of (remove d.sessions id) d.cells) i ≡ forget id (view j d) i
      gone i w = elim (Bool-cases (suc ref == i)) [
        | inr c ↦ rw c w
        | inl c ↦
            let q : forget id (view j d) i ≡ none =
              subst (λ k. forget k (view j d) i ≡ none) (sym e) (rw c refl) in
            rw (c, w ∙ q) (sym q)
      ]

  dead-keeps :
      (chans : List (Channel j)) (s : RootSession) (sent : Bool)
      → ((broadcast_exited j chans (kill s sent)).1.id ≡ s.id)
        × ((broadcast_exited j chans (kill s sent)).1.alive ≡ false)
  unfolding kill
  dead-keeps chans s sent = broadcast-keeps j chans (kill s sent)

  rc_close-Shows :
      (d : DaemonState j) (id : ℕ) (sent : Bool)
      → IsDaemon j d
      → Shows j (rc_close j d id sent).0 (forget id (view j d))
  unfolding rc_close
  rc_close-Shows d id sent n = elim (lookup-cases j d id n) [
    | inl (e, v) ↦ rw (rc_close, e) (n, forget-absent d id v)
    | inr (ref, s, e, h, c, v) ↦
        let (a, b) = dead-keeps d.channels s sent in
        rw (rc_close, e)
          (forget-Shows d ref id s _ (broadcast_exited j d.channels (kill s sent)).0 n h a b c)
  ]

  bridge_close-Shows :
      (d : DaemonState j) (ref token : ℕ) (s : RootSession) (sent : Bool)
      → IsDaemon j d
      → get_elem? d.cells ref ≡ some s
      → Shows j (bridge_end j (bridge_close j d ref s sent) ref token) (forget (suc ref) (view j d))
  unfolding bridge_close
  bridge_close-Shows d ref token s sent n h =
      let (a, b) = dead-keeps d.channels s sent in
      let (m, v) =
        forget-Shows d ref s.id s _ (broadcast_exited j d.channels (kill s sent)).0 n h a b
          (n.ids ref s h) in
      let (m', v') = bridge_end-Shows j (bridge_close j d ref s sent) ref token m in
      (m', λ i. v' i ∙ v i ∙ ap (λ k. forget k (view j d) i) (n.ids ref s h))

  bridge_message-close :
      (d : DaemonState j) (ref token id : ℕ) (sent : Bool)
      → IsDaemon j d
      → Shows j (bridge_message j d ref token (close id) sent).0 (forget (suc ref) (view j d))
  unfolding bridge_message
  bridge_message-close d ref token id sent n = split (get_elem? d.cells ref) refl
    where
      split :
          (o : Option RootSession)
          → get_elem? d.cells ref ≡ o
          → Shows j (bridge_message j d ref token (close id) sent).0 (forget (suc ref) (view j d))
      split none e =
          rw (at_session, e) (n, forget-absent d (suc ref) (absent-view j d ref n e (suc ref) refl))
      split (some s) e = rw (at_session, e) (bridge_close-Shows d ref token s sent n e)

  bridge_message-ping :
      (d : DaemonState j) (ref token : ℕ) (sent : Bool)
      → (bridge_message j d ref token ping sent).0 ≡ d
  unfolding bridge_message
  bridge_message-ping d ref token sent = split (get_elem? d.cells ref) refl
    where
      split :
          (o : Option RootSession)
          → get_elem? d.cells ref ≡ o
          → (bridge_message j d ref token ping sent).0 ≡ d
      split none e = rw (at_session, e) refl
      split (some s) e = rw (at_session, e) refl

  rc_attach-same : (d : DaemonState j) (id : ℕ) → (rc_attach j d id).0 ≡ d
  unfolding rc_attach
  rc_attach-same d id = split (lookup j d id) refl
    where
      split : (o : Option (ℕ × RootSession)) → lookup j d id ≡ o → (rc_attach j d id).0 ≡ d
      split none e = rw (rc_attach, e) refl
      split (some (ref, s)) e = rw (rc_attach, e) refl

  rc_new-Shows :
      (d : DaemonState j) (pid : ℕ)
      → d.next_id + 1 < 2 ^ 64
      → IsDaemon j d
      → Shows j (rc_new j d (some pid)).0 (register d.next_id (view j d))
  unfolding rc_new
  rc_new-Shows d pid b n =
      let next : (d.next_id + 1) % 2 ^ 64 ≡ suc d.next_id = omega arith in
      (
        subst (Numbered _ _) (sym next) (Numbered-new d.sessions d.cells d.next_id n pid),
        λ i. view-new d.sessions d.cells d.next_id n pid i,
      )

  bridge_raw-Shows :
      (d : DaemonState j) (ref stream_id : ℕ) (bytes : List ℕ) (wrote : List ℕ → List ℕ)
      → IsDaemon j d
      → Shows j (bridge_raw j d ref stream_id bytes wrote) (view j d)
  unfolding bridge_raw
  bridge_raw-Shows d ref stream_id [] wrote n = same j d n
  bridge_raw-Shows d ref stream_id (b ∷ bs) wrote n =
      at_session-Shows j d ref _ (view j d) (λ e. same j d n)
        (λ s e. elim (Bool-cases (stream_id == root_stream_id)) [
          | inl c ↦ rw c (sending-Shows j d n ref s e d.channels _ (refl, refl))
          | inr c ↦ rw c (same j d n)
        ])

  reap-Shows :
      (d : DaemonState j) → IsDaemon j d → Shows j (reap_dead_sessions j d) (drop_dead (view j d))
  unfolding reap_dead_sessions
  reap-Shows d n = (
    record { ids = n.ids; refs = All-retain _ _ d.sessions n.refs; fresh = n.fresh },
    λ i. view-reap d.cells d.sessions i n.refs,
  )

  resize-same :
      (d : DaemonState j) (cols rows : ℕ) (spawned : Option ℕ) (sent : Bool)
      → (handle_command j d (resize cols rows) spawned sent).0 ≡ d
  unfolding handle_command
  resize-same d cols rows spawned sent = ground arith

  -- From a well-formed state with an id left to give, every event leads to a well-formed state whose table of
  -- sessions is the abstract one: a new session is registered alive under the next id, a close
  -- forgets the id, the end of a shell marks its session dead, the reaping drops the dead, and
  -- everything else, output, input, attaching, detaching and failing requests, changes nothing.
  pub step-Shows :
      (d : DaemonState j) (e : Event)
      → d.next_id + 1 < 2 ^ 64
      → IsDaemon j d
      → Shows j (step j d e) (after e d.next_id (view j d))
  unfolding step handle_command
  step-Shows d (command ping spawned sent) b n = same j d n
  step-Shows d (command list spawned sent) b n = same j d n
  step-Shows d (command (new_session cols rows) none sent) b n = unfold rc_new in same j d n
  step-Shows d (command (new_session cols rows) (some pid) sent) b n = rc_new-Shows d pid b n
  step-Shows d (command (attach cols rows id) spawned sent) b n =
      subst (λ q. Shows j q (view j d)) (sym (rc_attach-same d id)) (same j d n)
  step-Shows d (command (close id) spawned sent) b n = rc_close-Shows d id sent n
  step-Shows d (command (resize cols rows) spawned sent) b n =
      subst (λ q. Shows j q (view j d)) (sym (resize-same d cols rows spawned sent)) (same j d n)
  step-Shows d (command (unknown op) spawned sent) b n = same j d n
  step-Shows d (command malformed spawned sent) b n = same j d n
  step-Shows d (begin ref token) b n = bridge_begin-Shows j d ref token n
  step-Shows d (message ref token ping sent) b n =
      subst (λ q. Shows j q (view j d)) (sym (bridge_message-ping d ref token sent)) (same j d n)
  step-Shows d (message ref token list sent) b n = unfold bridge_message in same j d n
  step-Shows d (message ref token (new_session cols rows) sent) b n =
      unfold bridge_message in same j d n
  step-Shows d (message ref token (attach cols rows id) sent) b n =
      unfold bridge_message in same j d n
  step-Shows d (message ref token (close id) sent) b n = bridge_message-close d ref token id sent n
  step-Shows d (message ref token (resize cols rows) sent) b n = unfold bridge_message in same j d n
  step-Shows d (message ref token (unknown op) sent) b n = unfold bridge_message in same j d n
  step-Shows d (message ref token malformed sent) b n = unfold bridge_message in same j d n
  step-Shows d (raw ref stream_id bytes wrote) b n = bridge_raw-Shows d ref stream_id bytes wrote n
  step-Shows d (end_bridge ref token) b n = bridge_end-Shows j d ref token n
  step-Shows d (output ref bytes) b n = reader_output-Shows j d ref bytes n
  step-Shows d (eof ref) b n = reader_end-Shows j d ref n
  step-Shows d reap b n = reap-Shows d n

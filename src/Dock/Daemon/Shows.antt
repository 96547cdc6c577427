-- ===== src/Dock/Daemon/Shows.antt =====
-- What it means that the daemon of crates/dock/src/daemon.rs shows a table, and the events of a
-- bridge and of a session's reader.
use mathlib.Core.Path.{subst}
use easytidy.Prelude.{
  ℕ, suc, ◌==◌, ◌≡◌, refl, sym, ◌∙◌, Bool, false, Bool-cases, ◌⊎◌, inl, inr, Option, none, some,
  List, if◌then◌else◌, eq-of-==,
}
use easytidy.Lists.{get_elem?}
use easytidy.Server.{Json, Channel, get}
use easytidy.Dock.Session.{RootSession, unsubscribe, subscribe, push_output, broadcast_exited}
use easytidy.Dock.Daemon.{
  DaemonState, sending, at_session, lookup, bridge_begin, bridge_end, reader_output, reader_end,
}
use easytidy.Dock.Daemon.Table.{
  Table, view_of, alive_at, mark_dead, Numbered, entry_of, alive_at-some, view-update, view-same,
  Numbered-update,
}
use easytidy.Dock.Daemon.Reaping.{view-entry, broadcast-keeps, push-keeps}

module _ (j : Json) where
  abbrev pub view : DaemonState j → Table
  view d i = view_of d.sessions d.cells i

  abbrev pub IsDaemon : DaemonState j → Type 0
  IsDaemon d = Numbered d.sessions d.cells d.next_id

  -- `d` is well formed, and its table is `t`.
  abbrev pub Shows : DaemonState j → Table → Type 0
  Shows d t = IsDaemon d × ((i : ℕ) → view d i ≡ t i)

  module _ (d : DaemonState j) (n : IsDaemon d) (ref : ℕ) (s : RootSession)
      (h : get_elem? d.cells ref ≡ some s) where
    -- A session that changes neither its id nor whether it is alive.
    pub sending-Shows :
        (chans : List (Channel j)) (s' : RootSession)
        → (s'.id ≡ s.id) × (s'.alive ≡ s.alive)
        → Shows (sending j d ref (chans, s')) (view d)
    sending-Shows chans s' k = (
      Numbered-update d.sessions d.cells d.next_id n ref s s' h k.0,
      view-same d.sessions d.cells d.next_id n ref s s' h k.1,
    )

    -- A session that dies.
    pub dying-Shows :
        (chans : List (Channel j)) (s' : RootSession)
        → s'.id ≡ s.id
        → s'.alive ≡ false
        → Shows (sending j d ref (chans, s')) (mark_dead (suc ref) (view d))
    dying-Shows chans s' k a = (
      Numbered-update d.sessions d.cells d.next_id n ref s s' h k,
      λ i.
          subst
            (λ b. view (sending j d ref (chans, s')) i ≡ (
              if suc ref == i
              then elim (view d i) as (λ _. Option Bool) [ none ↦ none | some c ↦ some b ]
              else view d i))
            a (view-update d.sessions d.cells d.next_id n ref s s' h i),
    )

  pub same : (d : DaemonState j) → IsDaemon d → Shows d (view d)
  same d n = (n, λ i. refl)

  -- An operation of a session of the heap, by what it does where the session is there.
  pub at_session-Shows :
      (d : DaemonState j) (ref : ℕ) (f : RootSession → DaemonState j) (t : Table)
      → (get_elem? d.cells ref ≡ none → Shows d t)
      → ((s : RootSession) → get_elem? d.cells ref ≡ some s → Shows (f s) t)
      → Shows (at_session j d ref d f) t
  at_session-Shows d ref f t h k = split (get_elem? d.cells ref) refl
    where
      split :
          (o : Option RootSession) → get_elem? d.cells ref ≡ o → Shows (at_session j d ref d f) t
      split none e = rw (at_session, e) (h e)
      split (some s) e = rw (at_session, e) (k s e)

  pub bridge_begin-Shows :
      (d : DaemonState j) (ref token : ℕ) → IsDaemon d → Shows (bridge_begin j d ref token) (view d)
  unfolding bridge_begin subscribe
  bridge_begin-Shows d ref token n =
      at_session-Shows d ref _ (view d) (λ e. same d n)
        (λ s e. sending-Shows d n ref s e (subscribe j d.channels s token).0 _ (refl, refl))

  pub bridge_end-Shows :
      (d : DaemonState j) (ref token : ℕ) → IsDaemon d → Shows (bridge_end j d ref token) (view d)
  unfolding bridge_end unsubscribe
  bridge_end-Shows d ref token n =
      at_session-Shows d ref _ (view d) (λ e. same d n)
        (λ s e. sending-Shows d n ref s e d.channels _ (refl, refl))

  pub reader_output-Shows :
      (d : DaemonState j) (ref : ℕ) (bytes : List ℕ)
      → IsDaemon d
      → Shows (reader_output j d ref bytes) (view d)
  unfolding reader_output
  reader_output-Shows d ref bytes n =
      at_session-Shows d ref _ (view d) (λ e. same d n)
        (λ s e.
          sending-Shows d n ref s e (push_output j d.channels s bytes).0 _
            (push-keeps j d.channels s bytes))

  -- Nothing is registered under the id that a place without a session would have.
  pub absent-view :
      (d : DaemonState j) (ref : ℕ)
      → IsDaemon d
      → get_elem? d.cells ref ≡ none
      → (i : ℕ) → i ≡ suc ref
      → view d i ≡ none
  absent-view d ref n e i c = elim (view-entry d.cells d.sessions ref i n.refs c) [
    | inl w ↦ w
    | inr w ↦ w ∙ (rw (alive_at, e) refl)
  ]

  absent-marks :
      (d : DaemonState j) (ref : ℕ)
      → IsDaemon d
      → get_elem? d.cells ref ≡ none
      → (i : ℕ) → view d i ≡ mark_dead (suc ref) (view d) i
  absent-marks d ref n e i = elim (Bool-cases (suc ref == i)) [
    | inr c ↦ rw c refl
    | inl c ↦ rw (c, absent-view d ref n e i (sym (eq-of-== (suc ref) i c))) refl
  ]

  pub reader_end-Shows :
      (d : DaemonState j) (ref : ℕ)
      → IsDaemon d
      → Shows (reader_end j d ref) (mark_dead (suc ref) (view d))
  unfolding reader_end
  reader_end-Shows d ref n =
      at_session-Shows d ref _ (mark_dead (suc ref) (view d)) (λ e. (n, absent-marks d ref n e))
        (λ s e.
          let (a, b) = broadcast-keeps j d.channels (record s { alive = false }) in
          dying-Shows d n ref s e (broadcast_exited j d.channels (record s { alive = false })).0 _ a
            b)

  -- What `lookup` finds, by the table.
  pub lookup-cases :
      (d : DaemonState j) (id : ℕ)
      → IsDaemon d
      → ((lookup j d id ≡ none) × (view d id ≡ none))
        ⊎ ((ref : ℕ) × (s : RootSession) × (lookup j d id ≡ some (ref, s))
            × (get_elem? d.cells ref ≡ some s)
            × (id ≡ suc ref)
            × (view d id ≡ some s.alive))
  unfolding lookup
  lookup-cases d id n = split (get d.sessions id) refl
    where
      found :
          (ref : ℕ) (o : Option RootSession)
          → get d.sessions id ≡ some ref
          → get_elem? d.cells ref ≡ o
          → ((lookup j d id ≡ none) × (view d id ≡ none))
            ⊎ ((ref : ℕ) × (s : RootSession) × (lookup j d id ≡ some (ref, s))
                × (get_elem? d.cells ref ≡ some s)
                × (id ≡ suc ref)
                × (view d id ≡ some s.alive))
      found ref none k e = inl (rw (lookup, k, e) refl, rw k (rw (alive_at, e) refl))
      found ref (some s) k e = inr (
        ref,
        s,
        rw (lookup, k, e) refl,
        e,
        (entry_of d.cells d.sessions id ref n.refs k).0,
        rw k (alive_at-some d.cells ref s e),
      )

      split :
          (o : Option ℕ)
          → get d.sessions id ≡ o
          → ((lookup j d id ≡ none) × (view d id ≡ none))
            ⊎ ((ref : ℕ) × (s : RootSession) × (lookup j d id ≡ some (ref, s))
                × (get_elem? d.cells ref ≡ some s)
                × (id ≡ suc ref)
                × (view d id ≡ some s.alive))
      split none k = inl (rw (lookup, k) refl, rw k refl)
      split (some ref) k = found ref (get_elem? d.cells ref) k refl

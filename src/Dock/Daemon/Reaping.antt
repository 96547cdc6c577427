-- ===== src/Dock/Daemon/Reaping.antt =====
-- `reap_dead_sessions` of crates/dock/src/daemon.rs against the table, and what output keeps.
use easytidy.Prelude.{
  ℕ, suc, ◌==◌, ◌≡◌, refl, sym, ap, ◌∙◌, Bool, true, false, Bool-cases, ◌⊎◌, inl, inr, Option, none,
  some, List, [], ◌∷◌, arith, eq-of-==,
}
use easytidy.Lists.{All, get_elem?, retain}
use easytidy.Server.{Json, Channel, Map, get}
use easytidy.Server.Reader.{drop_tokens}
use easytidy.Dock.Session.{RootSession, push_output, broadcast_exited}
use easytidy.Dock.Daemon.{is_alive}
use easytidy.Dock.Daemon.Table.{
  view_of, alive_at, if_alive, drop_dead, IsEntry, entry_of, get_elem-length_lt, alive_at-some,
}

-- Every entry of an id has one reference.
pub view-entry :
    (cells : List RootSession) (m : Map ℕ) (ref i : ℕ)
    → All (IsEntry cells) m
    → i ≡ suc ref
    → (view_of m cells i ≡ none) ⊎ (view_of m cells i ≡ alive_at cells (some ref))
view-entry cells m ref i h e = split (get m i) refl
  where
    split :
        (o : Option ℕ)
        → get m i ≡ o
        → (view_of m cells i ≡ none) ⊎ (view_of m cells i ≡ alive_at cells (some ref))
    split none k = inl (rw k refl)
    split (some r) k =
        let same : r ≡ ref = omega (arith, (entry_of cells m i r h k).0) in inr (rw (k, same) refl)

drop_none : (o : Option Bool) → (o ≡ none) ⊎ (o ≡ some false) → if_alive o ≡ none
drop_none none h = refl
drop_none (some false) h = refl
drop_none (some true) (inl e) = cc
drop_none (some true) (inr e) = cc

module _ (cells : List RootSession) (m : Map ℕ) (k r i : ℕ) where
  view-head : (k == i) ≡ true → view_of ((k, r) ∷ m) cells i ≡ alive_at cells (some r)
  unfolding get
  view-head c = rw c refl

  view-tail : (k == i) ≡ false → view_of ((k, r) ∷ m) cells i ≡ view_of m cells i
  unfolding get
  view-tail c = rw c refl

pub view-reap :
    (cells : List RootSession) (m : Map ℕ) (i : ℕ)
    → All (IsEntry cells) m
    → view_of (retain (λ e. is_alive (get_elem? cells e.1)) m) cells i
      ≡ drop_dead (view_of m cells) i
unfolding get retain
view-reap cells [] i h = refl
view-reap cells ((k, r) ∷ m) i h =
    let (s, e) = get_elem-length_lt cells r h.0.1 in
    split s (Bool-cases s.alive) e (alive_at-some cells r s e) (view-reap cells m i h.1)
      (Bool-cases (k == i))
  where
    split :
        (s : RootSession)
        → (s.alive ≡ true) ⊎ (s.alive ≡ false)
        → get_elem? cells r ≡ some s
        → alive_at cells (some r) ≡ some s.alive
        → view_of (retain (λ e. is_alive (get_elem? cells e.1)) m) cells i
          ≡ drop_dead (view_of m cells) i
        → ((k == i) ≡ true) ⊎ ((k == i) ≡ false)
        → view_of (retain (λ e. is_alive (get_elem? cells e.1)) ((k, r) ∷ m)) cells i
          ≡ drop_dead (view_of ((k, r) ∷ m) cells) i
    split s (inl d) e v ih (inl c) =
        rw (is_alive, e, d)
          (view-head cells _ k r i c
            ∙ v
            ∙ ap some d
            ∙ sym (ap if_alive (view-head cells m k r i c ∙ v ∙ ap some d)))
    split s (inl d) e v ih (inr c) =
        rw (is_alive, e, d)
          (view-tail cells _ k r i c ∙ ih ∙ sym (ap if_alive (view-tail cells m k r i c)))
    split s (inr d) e v ih (inl c) =
        rw (is_alive, e, d)
          (ih
            ∙ drop_none (view_of m cells i)
                (elim (view-entry cells m r i h.1 (omega (arith, eq-of-== k i c, h.0.0))) [
                  | inl w ↦ inl w
                  | inr w ↦ inr (w ∙ v ∙ ap some d)
                ])
            ∙ sym (ap if_alive (view-head cells m k r i c ∙ v ∙ ap some d)))
    split s (inr d) e v ih (inr c) =
        rw (is_alive, e, d) (ih ∙ sym (ap if_alive (view-tail cells m k r i c)))

module _ (j : Json) (chans : List (Channel j)) (s : RootSession) where
  -- What a fan-out leaves of a session.
  fan_out-keeps :
      (dead : List ℕ)
      → let t : RootSession = elim dead [
        | [] ↦ s
        | d ∷ ds ↦ record s { subs = drop_tokens (d ∷ ds) s.subs }
      ] in
        (t.id ≡ s.id) × (t.alive ≡ s.alive)
  fan_out-keeps [] = (refl, refl)
  fan_out-keeps (d ∷ ds) = (refl, refl)

  pub broadcast-keeps :
      ((broadcast_exited j chans s).1.id ≡ s.id) × ((broadcast_exited j chans s).1.alive ≡ s.alive)
  unfolding broadcast_exited
  broadcast-keeps = fan_out-keeps _

module _ (j : Json) (chans : List (Channel j)) (s : RootSession) where
  pub push-keeps :
      (bytes : List ℕ)
      → ((push_output j chans s bytes).1.id ≡ s.id)
        × ((push_output j chans s bytes).1.alive ≡ s.alive)
  unfolding push_output
  push-keeps [] = (refl, refl)
  push-keeps (b ∷ bs) = fan_out-keeps j chans _ _

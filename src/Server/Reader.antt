-- ===== src/Server/Reader.antt =====
-- crates/server/src/services/pty.rs, `pty_reader_thread`: the output of a terminal, and its end. The
-- thread holds the session itself, also when the map has it no more.
use easytidy.Prelude.{ℕ, Bool, not, none, some, List, [], ◌∷◌, ◌++◌, ◌==◌, if◌then◌else◌, ltb}
use easytidy.Lists.{length, retain, any, get_elem?}
use easytidy.Text.{codes}
use easytidy.Server.{
  Json, Frame, PtySession, ServerState, ring_max, remove, send_all, with_cell, event,
}
use easytidy.Server.Pty.{deregister}

-- `ring.extend(&data)` and `while ring.len() > RING_MAX { ring.pop_front(); }`
unfoldable pub trim : ℕ → List ℕ → List ℕ
trim max [] = []
trim max (x ∷ xs) = let rest = trim max xs in if ltb max (length (x ∷ xs)) then rest else x ∷ xs

-- `subs.retain(|(tok, _)| !fail_tokens.contains(tok))`
abbrev pub drop_tokens : List ℕ → List (ℕ × ℕ) → List (ℕ × ℕ)
drop_tokens fail_tokens subs = retain (λ e. not (any (λ t. t == e.0) fail_tokens)) subs

unfoldable pub concat : List (List ℕ) → List ℕ
concat [] = []
concat (xs ∷ xss) = xs ++ concat xss

module _ (j : Json) where
  abbrev pub output_to : ServerState j → ℕ → ℕ → PtySession j → List ℕ → ServerState j
  output_to s sid ref p out =
      let (fail_tokens, chans) = send_all j s.channels p.subs (Frame.raw sid out) in
      with_cell j (record s { channels = chans }) ref
        (record p { ring = trim ring_max (p.ring ++ out); subs = drop_tokens fail_tokens p.subs })

  -- One `Ok(n)` of the read loop.
  unfoldable pub reader_output : ServerState j → ℕ → ℕ → List ℕ → ServerState j
  unfolding trim send_all
  reader_output s sid ref out = elim (get_elem? s.cells ref) [
    | none ↦ s
    | some p ↦ output_to s sid ref p out
  ]

  -- The read loop, over the chunks that it reads.
  unfoldable pub reader_outputs : ServerState j → ℕ → ℕ → List (List ℕ) → ServerState j
  unfolding reader_output
  reader_outputs s sid ref [] = s
  reader_outputs s sid ref (out ∷ outs) = reader_outputs (reader_output s sid ref out) sid ref outs

  abbrev pub exit_to : ServerState j → ℕ → ℕ → PtySession j → ℕ → Bool → ServerState j
  exit_to s sid ref p msg_id success =
      let (fail_tokens, chans) =
        send_all j s.channels p.subs
          (event j msg_id (codes "pty.exited") (j.exited_value sid success)) in
      record (with_cell j (record s { channels = chans }) ref (record p { subs = [] })) {
        sessions = remove s.sessions sid;
        default_terminal = deregister s.default_terminal sid;
      }

  -- Behind the read loop: the event goes out, the subscribers, the session and its registration go.
  -- `success` is the exit status of the child, however it was reaped.
  unfoldable pub reader_exit : ServerState j → ℕ → ℕ → ℕ → Bool → ServerState j
  unfolding send_all deregister
  reader_exit s sid ref msg_id success = elim (get_elem? s.cells ref) [
    | none ↦ s
    | some p ↦ exit_to s sid ref p msg_id success
  ]

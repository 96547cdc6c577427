-- ===== src/Server/Lifetime.antt =====
-- The default terminal: what is registered is a live, persistent session.
use easytidy.Prelude.{
  ℕ, ◌+◌, ◌^◌, ◌<◌, ◌≡◌, ◌≢◌, refl, sym, ap, ◌∙◌, Bool, true, false, Option, none, some, List, [],
  ◌∷◌, ◌++◌, ◌==◌, arith, if◌then◌else◌, Bool-cases, inl, inr, ◌⊎◌, eq-of-==,
}
use easytidy.Lists.{length, get_elem?, retain, find, get_elem-append, get_elem-length}
use easytidy.Text.{Text, text_eq}
use easytidy.Text.Split.{text_eq_refl}
use easytidy.Server.{
  Json, PtySession, ServerState, Map, get, insert, remove, update, session_of, bump_u32,
  get_elem-update_same, get_elem-update_other,
}
use easytidy.Server.Pty.{attach_key, deregister, remove_text}

deregister_hit : (k : Text) (d sid : ℕ) → (d == sid) ≡ true → deregister ((k, d) ∷ []) sid ≡ []
unfolding deregister find retain
deregister_hit k d sid e = ground (arith, text_eq_refl k)

deregister_miss :
    (k : Text) (d sid : ℕ) → (d == sid) ≡ false → deregister ((k, d) ∷ []) sid ≡ (k, d) ∷ []
unfolding deregister find
deregister_miss k d sid e = ground arith

module _ (j : Json) where
  -- Which cells hold a persistent session.
  abbrev pub flag_of : Option (PtySession j) → Bool
  flag_of none = false
  flag_of (some p) = p.persistent

  abbrev pub live_of : List (PtySession j) → Option ℕ → Bool
  live_of cells none = false
  live_of cells (some ref) = flag_of (get_elem? cells ref)

  abbrev pub live_in : Map ℕ → List (PtySession j) → ℕ → Bool
  live_in sessions cells sid = live_of cells (get sessions sid)

  -- A registered default terminal: one entry, whose session is in the map, persistent, and older than
  -- the next stream id.
  unfoldable pub Registered : List (Text × ℕ) → Map ℕ → List (PtySession j) → ℕ → Type 0
  Registered [] sessions cells next = Unit {0}
  Registered ((k, sid) ∷ []) sessions cells next =
      (k ≡ attach_key) × (live_in sessions cells sid ≡ true) × (sid < next)
  Registered (e ∷ e' ∷ m) sessions cells next = ⊥

  abbrev pub DefaultIsLive : ServerState j → Type 0
  DefaultIsLive s = Registered s.default_terminal s.sessions s.cells s.next_stream_id

  -- A change under which the flags of the other sessions stay.
  pub Registered-change :
      (m : List (Text × ℕ)) (ss ss' : Map ℕ) (cs cs' : List (PtySession j)) (n n' : ℕ)
      → ((sid : ℕ) → live_in ss cs sid ≡ true → sid < n → (live_in ss' cs' sid ≡ true) × (sid < n'))
      → Registered m ss cs n
      → Registered m ss' cs' n'
  unfolding Registered
  Registered-change [] ss ss' cs cs' n n' f h = tt
  Registered-change ((k, sid) ∷ []) ss ss' cs cs' n n' f h =
      let (live, old) = f sid h.1 h.2 in (h.0, live, old)
  Registered-change (e ∷ e' ∷ m) ss ss' cs cs' n n' f h = h

  flag-update :
      (cs : List (PtySession j)) (ref r : ℕ) (p p' : PtySession j)
      → get_elem? cs ref ≡ some p
      → p'.persistent ≡ p.persistent
      → flag_of (get_elem? (update cs ref p') r) ≡ flag_of (get_elem? cs r)
  flag-update cs ref r p p' h e = elim (Bool-cases (ref == r)) [
    | inl same ↦
        let q = eq-of-== ref r same in
        ap (λ k. flag_of (get_elem? (update cs ref p') k)) (sym q)
        ∙ ap flag_of (get_elem-update_same cs ref p' p h)
        ∙ e
        ∙ ap flag_of (sym h)
        ∙ ap (λ k. flag_of (get_elem? cs k)) q
    | inr other ↦ ap flag_of (get_elem-update_other cs ref r p' (λ q. ground arith))
  ]

  live-update :
      (cs : List (PtySession j)) (ref : ℕ) (p p' : PtySession j) (o : Option ℕ)
      → get_elem? cs ref ≡ some p
      → p'.persistent ≡ p.persistent
      → live_of (update cs ref p') o ≡ live_of cs o
  live-update cs ref p p' none h e = refl
  live-update cs ref p p' (some r) h e = flag-update cs ref r p p' h e

  pub Registered-update :
      (m : List (Text × ℕ)) (ss : Map ℕ) (cs : List (PtySession j)) (n ref : ℕ)
      (p p' : PtySession j)
      → get_elem? cs ref ≡ some p
      → p'.persistent ≡ p.persistent
      → Registered m ss cs n
      → Registered m ss (update cs ref p') n
  Registered-update m ss cs n ref p p' h e =
      Registered-change m ss ss cs (update cs ref p') n n
        (λ sid l b. (live-update cs ref p p' (get ss sid) h e ∙ l, b))

  pub get-remove : (ss : Map ℕ) (sid k : ℕ) → sid ≢ k → get (remove ss sid) k ≡ get ss k
  unfolding get retain
  get-remove [] sid k n = refl
  get-remove ((a, r) ∷ ss) sid k n = ground (arith, get-remove ss sid k n)

  -- The registration of a stream goes with its session.
  pub Registered-close :
      (m : List (Text × ℕ)) (ss : Map ℕ) (cs : List (PtySession j)) (n sid : ℕ)
      → Registered m ss cs n
      → Registered (deregister m sid) (remove ss sid) cs n
  unfolding Registered deregister find retain
  Registered-close [] ss cs n sid h = tt
  Registered-close ((k, d) ∷ []) ss cs n sid h = elim (Bool-cases (d == sid)) [
    | inl e ↦ rw (deregister_hit k d sid e) tt
    | inr e ↦
        rw (deregister_miss k d sid e)
          (h.0, ap (live_of cs) (get-remove ss sid d (λ q. ground arith)) ∙ h.1, h.2)
  ]
  Registered-close (e ∷ e' ∷ m) ss cs n sid h = absurd h

  pub Registered-deregister :
      (m : List (Text × ℕ)) (ss : Map ℕ) (cs : List (PtySession j)) (n sid : ℕ)
      → Registered m ss cs n
      → Registered (deregister m sid) ss cs n
  unfolding Registered deregister find
  Registered-deregister [] ss cs n sid h = tt
  Registered-deregister ((k, d) ∷ []) ss cs n sid h = elim (Bool-cases (d == sid)) [
    | inl e ↦ rw (deregister_hit k d sid e) tt
    | inr e ↦ rw (deregister_miss k d sid e) h
  ]
  Registered-deregister (e ∷ e' ∷ m) ss cs n sid h = absurd h

  remove-Registered :
      (m : List (Text × ℕ)) (ss : Map ℕ) (cs : List (PtySession j)) (n : ℕ)
      → Registered m ss cs n
      → remove_text m attach_key ≡ []
  unfolding Registered retain text_eq
  remove-Registered [] ss cs n h = refl
  remove-Registered ((k, d) ∷ []) ss cs n h = rw h.0 refl
  remove-Registered (e ∷ e' ∷ m) ss cs n h = absurd h

  flag-append :
      (cs : List (PtySession j)) (new : PtySession j) (o : Option ℕ)
      → live_of cs o ≡ true
      → live_of (cs ++ (new ∷ [])) o ≡ true
  flag-append cs new none h = h
  flag-append cs new (some r) h = split (get_elem? cs r) refl h
    where
      split :
          (o : Option (PtySession j))
          → get_elem? cs r ≡ o
          → flag_of o ≡ true
          → flag_of (get_elem? (cs ++ (new ∷ [])) r) ≡ true
      split none e k = cc
      split (some p) e k = ap flag_of (get_elem-append cs (new ∷ []) r {x = p} e) ∙ k

  get-insert : (ss : Map ℕ) (sid r k : ℕ) → sid ≢ k → get (insert ss sid r) k ≡ get ss k
  unfolding get
  get-insert ss sid r k n = ground (arith, get-remove ss sid k n)

  get-insert_same : (ss : Map ℕ) (sid r : ℕ) → get (insert ss sid r) sid ≡ some r
  unfolding get
  get-insert_same ss sid r = ground arith

  -- A new session leaves an older default terminal as it is, or takes its place.
  pub create-Registered :
      (b : Bool) (m : List (Text × ℕ)) (ss : Map ℕ) (cs : List (PtySession j)) (n : ℕ)
      (new : PtySession j)
      → new.persistent ≡ true ⊎ b ≡ false
      → n + 1 < 2 ^ 32
      → Registered m ss cs n
      → Registered
          (if b then ((attach_key, n) ∷ remove_text m attach_key) else m)
          (insert ss n (length cs))
          (cs ++ (new ∷ []))
          (bump_u32 n)
  unfolding Registered
  create-Registered true m ss cs n new (inl e) room h = rw (remove-Registered m ss cs n h) (
    refl,
    ap (live_of (cs ++ (new ∷ []))) (get-insert_same ss n (length cs))
        ∙ ap flag_of (get_elem-length cs new)
        ∙ e,
    omega arith,
  )
  create-Registered true m ss cs n new (inr e) room h = cc
  create-Registered false m ss cs n new e room h =
      Registered-change m ss (insert ss n (length cs)) cs (cs ++ (new ∷ [])) n (bump_u32 n)
        (λ d l b. (
          ap (live_of (cs ++ (new ∷ []))) (get-insert ss n (length cs) d (λ q. omega (arith, q, b)))
              ∙ flag-append cs new (get ss d) l,
          omega arith,
        ))
        h

  pub session_of-cell :
      (s : ServerState j) (sid ref : ℕ) (p : PtySession j)
      → session_of j s sid ≡ some (ref, p)
      → (get_elem? s.cells ref ≡ some p) × (get s.sessions sid ≡ some ref)
  unfolding session_of
  session_of-cell s sid ref p h = ground arith

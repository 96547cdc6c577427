-- ===== src/Server/Sending.antt =====
-- What a broadcast puts into the channels, and which subscribers it takes off.
use easytidy.Prelude.{
  ℕ, ◌≡◌, ◌≢◌, refl, sym, ap, ◌∙◌, Bool, true, false, not, ◌&&◌, Option, none, some, List, [], ◌∷◌,
  ◌++◌, ◌==◌, arith, append_assoc, append-nil, if◌then◌else◌, Bool-cases, inl, inr, eq-of-==,
}
use easytidy.Lists.{get_elem?, any, retain, retain_ext}
use easytidy.Server.{
  Json, Frame, Channel, PtySession, ServerState, send, send_all, update, get_elem-update_same,
  get_elem-update_other,
}
use easytidy.Server.Reader.{reader_output, output_to}

-- As many copies as there are subscriptions of the channel.
unfoldable pub copies {ℓ} : {F : Type ℓ} → List (ℕ × ℕ) → ℕ → F → List F
copies [] c f = []
copies (e ∷ subs) c f = let rest = copies subs c f in if e.1 == c then f ∷ rest else rest

module _ (j : Json) where
  -- The channel exists, and its receiver lives.
  unfoldable pub is_open : List (Channel j) → ℕ → Bool
  is_open chans c = elim (get_elem? chans c) [ none ↦ false | some ch ↦ ch.open_receiver ]

  send-ok :
      (chans : List (Channel j)) (c : ℕ) (f : Frame j) → (send j chans c f).0 ≡ is_open chans c
  unfolding send is_open
  send-ok chans c f = ground arith

  send-is_open :
      (chans : List (Channel j)) (c d : ℕ) (f : Frame j)
      → is_open (send j chans c f).1 d ≡ is_open chans d
  unfolding send is_open
  send-is_open chans c d f = split (get_elem? chans c) refl
    where
      split :
          (o : Option (Channel j))
          → get_elem? chans c ≡ o
          → is_open (send j chans c f).1 d ≡ is_open chans d
      split none e = ground arith
      split (some ch) e = elim (Bool-cases (c == d)) [
        | inl same ↦
            let q = eq-of-== c d same in
            ground (
              arith,
              get_elem-update_same chans c (record ch { queue = ch.queue ++ (f ∷ []) }) ch e,
            )
        | inr other ↦
            ground
              (arith, get_elem-update_other chans c d (record ch { queue = ch.queue ++ (f ∷ []) }))
      ]

  -- The channel with the frames sent into it, if its receiver lives.
  abbrev pub delivered : Channel j → List (Frame j) → Channel j
  delivered ch fs = record ch { queue = ch.queue ++ (if ch.open_receiver then fs else []) }

  given-nil : (b : Bool) (q : List (Frame j)) → q ++ (if b then [] else []) ≡ q
  given-nil true q = append-nil q
  given-nil false q = append-nil q

  pub delivered-nil : (ch : Channel j) → delivered ch [] ≡ ch
  delivered-nil ch = ap (λ q. record ch { queue = q }) (given-nil ch.open_receiver ch.queue)

  given-given :
      (b : Bool) (q fs gs : List (Frame j))
      → (q ++ (if b then fs else [])) ++ (if b then gs else [])
        ≡ q ++ (if b then (fs ++ gs) else [])
  given-given true q fs gs = append_assoc q fs gs
  given-given false q fs gs = append-nil (q ++ [])

  delivered-delivered :
      (ch : Channel j) (fs gs : List (Frame j))
      → delivered (delivered ch fs) gs ≡ delivered ch (fs ++ gs)
  delivered-delivered ch fs gs =
      ap (λ q. record ch { queue = q }) (given-given ch.open_receiver ch.queue fs gs)

  send_one :
      (chans : List (Channel j)) (c : ℕ) (f : Frame j) (ch : Channel j) (b : Bool)
      → ch.open_receiver ≡ b
      → get_elem? chans c ≡ some ch
      → get_elem?
          (if◌then◌else◌ {A = Bool × List (Channel j)} b
            (true, update chans c (record ch { queue = ch.queue ++ (f ∷ []) }))
            (false, chans)).1
          c
        ≡ some (record ch { queue = ch.queue ++ (if b then f ∷ [] else []) })
  send_one chans c f ch true e h = get_elem-update_same chans c _ ch h
  send_one chans c f ch false e h =
      h ∙ ap (λ q. some (record ch { queue = q })) (sym (append-nil ch.queue))

  send_hit :
      (chans : List (Channel j)) (c : ℕ) (f : Frame j) (ch : Channel j)
      → get_elem? chans c ≡ some ch
      → get_elem? (send j chans c f).1 c ≡ some (delivered ch (f ∷ []))
  unfolding send
  send_hit chans c f ch h = rw (send, h) (send_one chans c f ch ch.open_receiver refl h)

  send_miss :
      (chans : List (Channel j)) (c d : ℕ) (f : Frame j)
      → c ≢ d
      → get_elem? (send j chans c f).1 d ≡ get_elem? chans d
  unfolding send
  send_miss chans c d f n = split (get_elem? chans c) refl
    where
      split :
          (o : Option (Channel j))
          → get_elem? chans c ≡ o
          → get_elem? (send j chans c f).1 d ≡ get_elem? chans d
      split none e = ground arith
      split (some ch) e =
          ground
            (arith, get_elem-update_other chans c d (record ch { queue = ch.queue ++ (f ∷ []) }))

  -- A broadcast puts one copy for each subscription into each channel with a living receiver, and leaves
  -- every other channel alone.
  pub send_all-copies :
      (subs : List (ℕ × ℕ)) (chans : List (Channel j)) (d : ℕ) (f : Frame j) (ch : Channel j)
      → get_elem? chans d ≡ some ch
      → get_elem? (send_all j chans subs f).1 d ≡ some (delivered ch (copies subs d f))
  unfolding send_all copies
  send_all-copies [] chans d f ch h = h ∙ ap (λ x. some x) (sym (delivered-nil ch))
  send_all-copies ((tok, c) ∷ subs) chans d f ch h = elim (Bool-cases (c == d)) [
    | inl e ↦
        let q = eq-of-== c d e in
        let here = send_hit chans d f ch h in
        rw e (
          ap (λ k. get_elem? (send_all j (send j chans k f).1 subs f).1 d) q
          ∙ send_all-copies subs (send j chans d f).1 d f _ here
          ∙ ap (λ x. some x) (delivered-delivered ch (f ∷ []) (copies subs d f)))
    | inr e ↦ rw e (
        send_all-copies subs (send j chans c f).1 d f ch
          (send_miss chans c d f (λ q. ground arith) ∙ h))
  ]

  -- The subscription's channel refuses.
  abbrev pub refuses : List (Channel j) → ℕ → ℕ × ℕ → Bool
  refuses chans t e = e.0 == t && not (is_open chans e.1)

  any-refuses :
      (subs : List (ℕ × ℕ)) (chans : List (Channel j)) (c t : ℕ) (f : Frame j)
      → any (refuses (send j chans c f).1 t) subs ≡ any (refuses chans t) subs
  unfolding any
  any-refuses [] chans c t f = refl
  any-refuses ((tok, d) ∷ subs) chans c t f =
      rw (send-is_open chans c d f, any-refuses subs chans c t f) refl

  -- The tokens that a broadcast collects are those with a subscription that refuses.
  pub send_all-refuses :
      (subs : List (ℕ × ℕ)) (chans : List (Channel j)) (t : ℕ) (f : Frame j)
      → any (λ u. u == t) (send_all j chans subs f).0 ≡ any (refuses chans t) subs
  unfolding send_all any
  send_all-refuses [] chans t f = refl
  send_all-refuses ((tok, c) ∷ subs) chans t f = ground (
    arith,
    send-ok chans c f,
    send_all-refuses subs (send j chans c f).1 t f,
    any-refuses subs chans c t f,
  )

  reader_output_at :
      (s : ServerState j) (sid ref : ℕ) (out : List ℕ) (p : PtySession j)
      → get_elem? s.cells ref ≡ some p
      → reader_output j s sid ref out ≡ output_to j s sid ref p out
  unfolding reader_output
  reader_output_at s sid ref out p h = rw (reader_output, h) refl

  -- A terminal's output reaches every subscription whose channel has a living receiver, once for each, and
  -- the subscribers that stay are those of tokens with no subscription that refused.
  pub reader_output-broadcast :
      (s : ServerState j) (sid ref d : ℕ) (out : List ℕ) (p : PtySession j) (ch : Channel j)
      → get_elem? s.cells ref ≡ some p
      → get_elem? s.channels d ≡ some ch
      → (get_elem? (reader_output j s sid ref out).channels d
          ≡ some (delivered ch (copies p.subs d (Frame.raw sid out))))
        × ((p' : PtySession j) × (get_elem? (reader_output j s sid ref out).cells ref ≡ some p')
            × (p'.subs ≡ retain (λ e. not (any (refuses s.channels e.0) p.subs)) p.subs))
  reader_output-broadcast s sid ref d out p ch h c = rw (reader_output_at s sid ref out p h) (
    send_all-copies p.subs s.channels d (Frame.raw sid out) ch c,
    (
      _,
      get_elem-update_same s.cells ref _ p h,
      retain_ext _ _ p.subs
          (λ e. ap not (send_all-refuses p.subs s.channels e.0 (Frame.raw sid out))),
    ),
  )

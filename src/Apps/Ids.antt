-- ===== src/Apps/Ids.antt =====
-- Lists of applications by their ids.
use mathlib.Core.Path.{subst}
use easytidy.Prelude.{
  ◌≡◌, refl, sym, ◌∙◌, arith, true, false, not, ◌&&◌, ◌||◌, List, [], ◌∷◌, ◌++◌, Bool-cases, inl,
  inr, map,
}
use easytidy.Lists.{any, any-append, any-retain, retain}
use easytidy.Text.{Text, text_eq}
use easytidy.Text.Split.{text_eq_iff, text_eq_refl}
use easytidy.Apps.{PtConfiguredApp, has_id, change_first, upsert, renamed, if_id}

abbrev pub DistinctIds : List PtConfiguredApp → Type 0
DistinctIds [] = Unit {0}
DistinctIds (a ∷ apps) = (any (has_id a.id) apps ≡ false) × DistinctIds apps

-- Without the applications of an id.
abbrev pub without : Text → List PtConfiguredApp → List PtConfiguredApp
without id apps = retain (λ a. not (has_id id a)) apps

pub same_id : (a : PtConfiguredApp) (id : Text) → has_id id a ≡ true → a.id ≡ id
same_id a id h = (text_eq_iff a.id id).0 h

pub other_id : (a b : Text) → text_eq a b ≡ false → text_eq b a ≡ false
other_id a b h = ground (arith, h, text_eq_iff a b, text_eq_iff b a)

pub DistinctIds-without :
    (id : Text) (apps : List PtConfiguredApp) → DistinctIds apps → DistinctIds (without id apps)
unfolding retain
DistinctIds-without id [] h = tt
DistinctIds-without id (a ∷ apps) h = elim (Bool-cases (has_id id a)) [
  | inl e ↦ rw e (DistinctIds-without id apps h.1)
  | inr e ↦
      rw e (
        any-retain (has_id a.id) (λ b. not (has_id id b)) apps h.0,
        DistinctIds-without id apps h.1,
      )
]

pub any-without :
    (id j : Text) (apps : List PtConfiguredApp)
    → any (has_id j) (without id apps) ≡ (not (text_eq id j) && any (has_id j) apps)
unfolding any retain
any-without id j [] = ground arith
any-without id j (a ∷ apps) =
    ground (arith, any-without id j apps, text_eq_iff a.id id, text_eq_iff a.id j, text_eq_iff id j)

-- The entry of the id keeps it.
module _ (id : Text) (f : PtConfiguredApp → PtConfiguredApp)
    (k : (a : PtConfiguredApp) → has_id id a ≡ true → (f a).id ≡ a.id) where
  pub any-change_first :
      (j : Text) (apps : List PtConfiguredApp)
      → any (has_id j) (change_first id f apps) ≡ any (has_id j) apps
  unfolding any change_first
  any-change_first j [] = refl
  any-change_first j (a ∷ apps) = elim (Bool-cases (has_id id a)) [
    | inl e ↦ rw (e, k a e) refl
    | inr e ↦ rw (e, any-change_first j apps) refl
  ]

  pub DistinctIds-change_first :
      (apps : List PtConfiguredApp) → DistinctIds apps → DistinctIds (change_first id f apps)
  unfolding change_first
  DistinctIds-change_first [] h = tt
  DistinctIds-change_first (a ∷ apps) h = elim (Bool-cases (has_id id a)) [
    | inl e ↦ rw (e, k a e) h
    | inr e ↦ rw (e, any-change_first a.id apps) (h.0, DistinctIds-change_first apps h.1)
  ]

pub DistinctIds-last :
    (apps : List PtConfiguredApp) (app : PtConfiguredApp)
    → any (has_id app.id) apps ≡ false
    → DistinctIds apps
    → DistinctIds (apps ++ (app ∷ []))
unfolding any
DistinctIds-last [] app n h = (refl, tt)
DistinctIds-last (a ∷ apps) app n h = (
  ground (
    arith,
    h.0,
    any-append (has_id a.id) apps (app ∷ []),
    text_eq_iff a.id app.id,
    text_eq_iff app.id a.id,
  ),
  DistinctIds-last apps app (ground arith) h.1,
)

module _ (app : PtConfiguredApp) where
  replaces : (a : PtConfiguredApp) → has_id app.id a ≡ true → app.id ≡ a.id
  replaces a h = sym (same_id a app.id h)

  pub any-upsert :
      (j : Text) (apps : List PtConfiguredApp)
      → any (has_id j) (upsert app.id app apps) ≡ (any (has_id j) apps || text_eq app.id j)
  unfolding upsert any
  any-upsert j apps = elim (Bool-cases (any (has_id app.id) apps)) [
    | inr e ↦ rw e (any-append (has_id j) apps (app ∷ []) ∙ ground arith)
    | inl e ↦
        rw (e, any-change_first app.id (λ a. app) replaces j apps)
          (elim (Bool-cases (text_eq app.id j)) [
            | inr q ↦ rw q (ground arith)
            | inl q ↦
                let here : any (has_id j) apps ≡ true =
                  subst (λ t. any (has_id t) apps ≡ true) ((text_eq_iff app.id j).0 q) e in
                rw (q, here) refl
          ])
  ]

  pub DistinctIds-upsert :
      (apps : List PtConfiguredApp) → DistinctIds apps → DistinctIds (upsert app.id app apps)
  unfolding upsert
  DistinctIds-upsert apps h = elim (Bool-cases (any (has_id app.id) apps)) [
    | inl e ↦ rw e (DistinctIds-change_first app.id (λ a. app) replaces apps h)
    | inr e ↦ rw e (DistinctIds-last apps app e h)
  ]

-- A new id for one of the applications.
module _ (id new_id name cmd : Text) where
  pub any-rename :
      (j : Text) (apps : List PtConfiguredApp)
      → text_eq new_id j ≡ false
      → any (has_id j) apps ≡ false
      → any (has_id j) (change_first id (renamed new_id name cmd) apps) ≡ false
  unfolding any change_first
  any-rename j [] n h = refl
  any-rename j (a ∷ apps) n h = ground (arith, any-rename j apps n)

  -- Another application stays.
  pub any-rename_other :
      (j : Text) (apps : List PtConfiguredApp)
      → text_eq id j ≡ false
      → any (has_id j) apps ≡ true
      → any (has_id j) (change_first id (renamed new_id name cmd) apps) ≡ true
  unfolding any change_first
  any-rename_other j [] n h = h
  any-rename_other j (a ∷ apps) n h =
      ground (
        arith,
        any-rename_other j apps n,
        text_eq_iff a.id id,
        text_eq_iff a.id j,
        text_eq_iff id j,
      )

  pub any-rename_new :
      (apps : List PtConfiguredApp)
      → any (has_id id) apps ≡ true
      → any (has_id new_id) (change_first id (renamed new_id name cmd) apps) ≡ true
  unfolding any change_first
  any-rename_new [] h = h
  any-rename_new (a ∷ apps) h = ground (arith, any-rename_new apps, text_eq_refl new_id)

  pub DistinctIds-rename :
      (apps : List PtConfiguredApp)
      → any (has_id new_id) apps ≡ false
      → DistinctIds apps
      → DistinctIds (change_first id (renamed new_id name cmd) apps)
  unfolding any change_first
  DistinctIds-rename [] n h = tt
  DistinctIds-rename (a ∷ apps) n h = elim (Bool-cases (has_id id a)) [
    | inl e ↦ rw e ((ground arith), h.1)
    | inr e ↦ rw e (
      any-rename a.id apps (other_id a.id new_id (ground arith)) h.0,
      DistinctIds-rename apps (ground arith) h.1,
    )
  ]

  pub any-rename_all :
      (j : Text) (apps : List PtConfiguredApp)
      → text_eq new_id j ≡ false
      → any (has_id j) apps ≡ false
      → any (has_id j) (map (if_id id (renamed new_id name cmd)) apps) ≡ false
  unfolding any
  any-rename_all j [] n h = refl
  any-rename_all j (a ∷ apps) n h = ground (arith, any-rename_all j apps n)

  any-rename_absent :
      (apps : List PtConfiguredApp)
      → any (has_id id) apps ≡ false
      → any (has_id new_id) apps ≡ false
      → any (has_id new_id) (map (if_id id (renamed new_id name cmd)) apps) ≡ false
  unfolding any
  any-rename_absent [] m n = refl
  any-rename_absent (a ∷ apps) m n = ground (arith, any-rename_absent apps)

  -- Without another application of the new id, and with one of the old.
  pub DistinctIds-rename_all :
      (apps : List PtConfiguredApp)
      → any (has_id new_id) apps ≡ false
      → DistinctIds apps
      → DistinctIds (map (if_id id (renamed new_id name cmd)) apps)
  unfolding any
  DistinctIds-rename_all [] n h = tt
  DistinctIds-rename_all (a ∷ apps) n h = elim (Bool-cases (has_id id a)) [
    | inl e ↦
        let gone : any (has_id id) apps ≡ false =
          subst (λ t. any (has_id t) apps ≡ false) (same_id a id e) h.0 in
        rw e (
          any-rename_absent apps gone (ground arith),
          DistinctIds-rename_all apps (ground arith) h.1,
        )
    | inr e ↦ rw e (
      any-rename_all a.id apps (other_id a.id new_id (ground arith)) h.0,
      DistinctIds-rename_all apps (ground arith) h.1,
    )
  ]

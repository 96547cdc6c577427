-- ===== src/Apps/Consistent/Edits.antt =====
-- The commands of the window that change the configured applications, and the consistency of the configuration.
use mathlib.Core.Path.{subst}
use easytidy.Prelude.{
  ◌≡◌, refl, sym, ◌∙◌, arith, Bool, true, false, not, ◌||◌, Option, List, [], ◌∷◌, Bool-cases, inl,
  inr, map,
}
use easytidy.Lists.{All, All-imp, any, any-append, retain}
use easytidy.Text.{Text, text_eq, is_empty, strip_prefix}
use easytidy.Text.White.{trim}
use easytidy.Text.Split.{text_eq_iff}
use easytidy.Apps.{
  PtConfiguredApp, ContainerPtConfig, has_id, is_custom, custom_id, change_first, renamed, if_id,
  auto_start_entry, set_auto_start, add_custom, change_custom, update_custom, set_custom_icon,
  remove_app,
}
use easytidy.Apps.Ids.{
  without, same_id, other_id, DistinctIds-without, any-without, DistinctIds-last, any-upsert,
  DistinctIds-upsert, any-rename_other, any-rename_new, DistinctIds-rename, DistinctIds-rename_all,
}
use easytidy.Apps.Consistent.{Configured, IsConsistent, OnSaved, grown, changed}

-- An application of the user's own stays when a scanned one goes.
Configured-without :
    (id : Text) (apps : List PtConfiguredApp)
    → is_custom id ≡ false
    → (p : PtConfiguredApp) → Configured apps p
    → Configured (without id apps) p
Configured-without id apps n p h = elim (Bool-cases (is_custom p.id)) [
  | inr e ↦ rw e refl
  | inl e ↦ elim (Bool-cases (text_eq id p.id)) [
    | inl q ↦
        let own : is_custom id ≡ true =
          subst (λ t. is_custom t ≡ true) (sym ((text_eq_iff id p.id).0 q)) e in
        ground arith
    | inr q ↦ rw (e, any-without id p.id apps, q) (rw e at h)
  ]
]

-- What is left of both lists agrees.
All-without_both :
    (id : Text) (apps ps : List PtConfiguredApp)
    → All (Configured apps) ps
    → All (Configured (without id apps)) (without id ps)
unfolding retain
All-without_both id apps [] h = tt
All-without_both id apps (p ∷ ps) h = elim (Bool-cases (has_id id p)) [
  | inl e ↦ rw e (All-without_both id apps ps h.1)
  | inr e ↦ rw e (
    ground (arith, h.0, any-without id p.id apps, text_eq_iff p.id id, text_eq_iff id p.id),
    All-without_both id apps ps h.1,
  )
]

pub custom_id-custom : (name : Text) → is_custom (custom_id name) ≡ true
unfolding strip_prefix
custom_id-custom name = refl

module _ (cfg : ContainerPtConfig) (c : IsConsistent cfg) where
  pub set_auto_start-IsConsistent :
      (id name cmd : Text) (enabled : Bool) → OnSaved (set_auto_start id name cmd enabled cfg)
  unfolding set_auto_start auto_start_entry
  set_auto_start-IsConsistent id name cmd true =
      grown cfg c _ (DistinctIds-upsert _ cfg.apps c.apps)
        (λ j h. any-upsert _ j cfg.apps ∙ rw h refl)
  set_auto_start-IsConsistent id name cmd false = elim (Bool-cases (any (has_id id) cfg.apps)) [
    | inr e ↦ rw e c
    | inl e ↦ elim (Bool-cases (is_custom id)) [
      | inl q ↦ rw (e, q) (changed cfg c id (λ a. record a { auto_start = false }) (λ a. refl))
      | inr q ↦
          rw (e, q)
            (record {
              apps = DistinctIds-without id cfg.apps c.apps;
              pinned = c.pinned;
              configured = All-imp (Configured-without id cfg.apps q) cfg.pinned c.configured;
            })
    ]
  ]

  pub add_custom-IsConsistent : (name cmd : Text) → OnSaved (add_custom name cmd cfg)
  unfolding add_custom
  add_custom-IsConsistent name cmd =
      elim (Bool-cases (is_empty (trim name) || is_empty (trim cmd))) [
        | inl e ↦ rw e tt
        | inr e ↦ elim (Bool-cases (any (has_id (custom_id name)) cfg.apps)) [
          | inl q ↦ rw (e, q) tt
          | inr q ↦
              rw (e, q)
                (grown cfg c _ (DistinctIds-last cfg.apps _ q c.apps)
                  (λ j h. any-append (has_id j) cfg.apps _ ∙ rw h refl))
        ]
      ]

  pub set_custom_icon-IsConsistent :
      (id : Text) (path : Option Text) → OnSaved (set_custom_icon id path cfg)
  unfolding set_custom_icon
  set_custom_icon-IsConsistent id path = elim (Bool-cases (any (has_id id) cfg.apps)) [
    | inr e ↦ rw e tt
    | inl e ↦ rw e (changed cfg c id (λ a. record a { icon = path }) (λ a. refl))
  ]

  pub remove_app-IsConsistent : (id : Text) → OnSaved (remove_app id cfg)
  unfolding remove_app
  remove_app-IsConsistent id = record {
    apps = DistinctIds-without id cfg.apps c.apps;
    pinned = DistinctIds-without id cfg.pinned c.pinned;
    configured = All-without_both id cfg.apps cfg.pinned c.configured;
  }

  -- The pinned applications under the new id.
  Configured-renamed :
      (id new_id name cmd : Text) (ps : List PtConfiguredApp)
      → any (has_id id) cfg.apps ≡ true
      → All (Configured cfg.apps) ps
      → All
          (Configured (change_first id (renamed new_id name cmd) cfg.apps))
          (map (if_id id (renamed new_id name cmd)) ps)
  Configured-renamed id new_id name cmd [] h k = tt
  Configured-renamed id new_id name cmd (p ∷ ps) h k = elim (Bool-cases (has_id id p)) [
    | inl e ↦ rw e (
      rw (any-rename_new id new_id name cmd cfg.apps h) (ground arith),
      Configured-renamed id new_id name cmd ps h k.1,
    )
    | inr e ↦ rw e (
      elim (Bool-cases (is_custom p.id)) [
        | inr n ↦ rw n refl
        | inl n ↦
            rw
              (
                n,
                any-rename_other id new_id name cmd p.id cfg.apps (other_id p.id id e)
                    (rw n at k.0),
              )
              refl
      ],
      Configured-renamed id new_id name cmd ps h k.1,
    )
  ]

  -- No pinned application has the new id of one of the user's own.
  pub new_id-unpinned :
      (new_id : Text) (ps : List PtConfiguredApp)
      → is_custom new_id ≡ true
      → any (has_id new_id) cfg.apps ≡ false
      → All (Configured cfg.apps) ps
      → any (has_id new_id) ps ≡ false
  unfolding any
  new_id-unpinned new_id [] n a h = refl
  new_id-unpinned new_id (p ∷ ps) n a h = elim (Bool-cases (has_id new_id p)) [
    | inr e ↦ rw (e, new_id-unpinned new_id ps n a h.1) refl
    | inl e ↦
        let own : (not (is_custom new_id) || any (has_id new_id) cfg.apps) ≡ true =
          subst (λ t. (not (is_custom t) || any (has_id t) cfg.apps) ≡ true) (same_id p new_id e)
            h.0 in
        ground arith
  ]

  change_custom-IsConsistent :
      (id new_id name cmd : Text)
      → is_custom new_id ≡ true
      → OnSaved (change_custom id new_id name cmd cfg)
  unfolding change_custom
  change_custom-IsConsistent id new_id name cmd n = elim (Bool-cases (any (has_id id) cfg.apps)) [
    | inr e ↦ rw e tt
    | inl e ↦ elim (Bool-cases (text_eq new_id id)) [
      | inl q ↦ rw (e, q) (changed cfg c id (λ a. record a { cmd = cmd }) (λ a. refl))
      | inr q ↦ elim (Bool-cases (any (has_id new_id) cfg.apps)) [
        | inl m ↦ rw (e, q, m) tt
        | inr m ↦
            rw (e, q, m)
              (record {
                apps = DistinctIds-rename id new_id name cmd cfg.apps m c.apps;
                pinned =
                    DistinctIds-rename_all id new_id name cmd cfg.pinned
                      (new_id-unpinned new_id cfg.pinned n m c.configured) c.pinned;
                configured = Configured-renamed id new_id name cmd cfg.pinned e c.configured;
              })
      ]
    ]
  ]

  pub update_custom-IsConsistent : (id name cmd : Text) → OnSaved (update_custom id name cmd cfg)
  unfolding update_custom
  update_custom-IsConsistent id name cmd = elim (Bool-cases (is_custom id)) [
    | inr e ↦ rw e tt
    | inl e ↦ elim (Bool-cases (is_empty (trim name) || is_empty (trim cmd))) [
      | inl q ↦ rw (e, q) tt
      | inr q ↦
          rw (e, q)
            (change_custom-IsConsistent id (custom_id (trim name)) (trim name) (trim cmd)
              (custom_id-custom (trim name)))
    ]
  ]

-- ===== src/Apps/AutoStart.antt =====
-- Which applications start with the container.
use mathlib.Core.Path.{subst}
use easytidy.Prelude.{
  ◌≡◌, refl, ap, ◌∙◌, arith, Bool, true, false, not, ◌&&◌, ◌||◌, List, [], ◌∷◌, ◌++◌, Bool-cases,
  inl, inr, if◌then◌else◌,
}
use easytidy.Lists.{any, retain}
use easytidy.Text.{Text, text_eq}
use easytidy.Text.Split.{text_eq_iff}
use easytidy.Apps.{
  PtConfiguredApp, ContainerPtConfig, File, read_container_config, handle_passthrough_set, has_id,
  is_custom, change_first, upsert, auto_start_entry, Answer, saved, refused, set_auto_start, run,
  auto, write_back, command, launch_auto_start,
}
use easytidy.Apps.Ids.{DistinctIds, without, same_id}

-- Whether an application of the list with the id starts.
abbrev starting : Text → List PtConfiguredApp → Bool
starting j apps = any (has_id j) (retain (λ a. a.auto_start) apps)

starting-none :
    (j : Text) (apps : List PtConfiguredApp) → any (has_id j) apps ≡ false → starting j apps ≡ false
unfolding any retain
starting-none j [] h = refl
starting-none j (a ∷ apps) h = ground (arith, starting-none j apps)

starting-append :
    (j : Text) (as_ bs : List PtConfiguredApp)
    → starting j (as_ ++ bs) ≡ (starting j as_ || starting j bs)
unfolding any retain
starting-append j [] bs = refl
starting-append j (a ∷ as_) bs = ground (arith, starting-append j as_ bs)

starting-without :
    (id j : Text) (apps : List PtConfiguredApp)
    → starting j (without id apps) ≡ (not (text_eq id j) && starting j apps)
unfolding any retain
starting-without id j [] = ground arith
starting-without id j (a ∷ apps) =
    ground
      (arith, starting-without id j apps, text_eq_iff a.id id, text_eq_iff a.id j, text_eq_iff id j)

starting-no_id :
    (id j : Text) (apps : List PtConfiguredApp)
    → any (has_id id) apps ≡ false
    → text_eq id j ≡ true
    → starting j apps ≡ false
starting-no_id id j apps n q =
    starting-none j apps (subst (λ t. any (has_id t) apps ≡ false) ((text_eq_iff id j).0 q) n)

-- In place of the one application of the id.
starting-replaced :
    (id j : Text) (on : Bool) (b a : PtConfiguredApp) (apps : List PtConfiguredApp)
    → a.id ≡ id
    → (b.id ≡ id) × (b.auto_start ≡ on)
    → any (has_id id) apps ≡ false
    → starting j (b ∷ apps) ≡ (if text_eq id j then on else starting j (a ∷ apps))
unfolding any retain
starting-replaced id j on b a apps e k n = ground (arith, e, k.0, k.1, starting-no_id id j apps n)

-- Before an application of another id.
starting-kept :
    (id j : Text) (on : Bool) (a : PtConfiguredApp) (cs apps : List PtConfiguredApp)
    → has_id id a ≡ false
    → starting j cs ≡ (if text_eq id j then on else starting j apps)
    → starting j (a ∷ cs) ≡ (if text_eq id j then on else starting j (a ∷ apps))
unfolding any retain
starting-kept id j on a cs apps e h =
    ground (arith, e, h, text_eq_iff a.id id, text_eq_iff a.id j, text_eq_iff id j)

-- The first entry of the id is the only one.
starting-change_first :
    (id j : Text) (f : PtConfiguredApp → PtConfiguredApp) (on : Bool) (apps : List PtConfiguredApp)
    → ((a : PtConfiguredApp) → has_id id a ≡ true → ((f a).id ≡ id) × ((f a).auto_start ≡ on))
    → DistinctIds apps
    → any (has_id id) apps ≡ true
    → starting j (change_first id f apps) ≡ (if text_eq id j then on else starting j apps)
unfolding any retain change_first
starting-change_first id j f on [] k d h = ground (arith, h)
starting-change_first id j f on (a ∷ apps) k d h = elim (Bool-cases (has_id id a)) [
  | inl e ↦ rw e (
      starting-replaced id j on (f a) a apps (same_id a id e) (k a e)
        (subst (λ t. any (has_id t) apps ≡ false) (same_id a id e) d.0))
  | inr e ↦ rw e (
      starting-kept id j on a (change_first id f apps) apps e
        (starting-change_first id j f on apps k d.1 (rw e at h)))
]

starting-upsert :
    (id j : Text) (app : PtConfiguredApp) (on : Bool) (apps : List PtConfiguredApp)
    → (app.id ≡ id) × (app.auto_start ≡ on)
    → DistinctIds apps
    → starting j (upsert id app apps) ≡ (if text_eq id j then on else starting j apps)
unfolding upsert any retain
starting-upsert id j app on apps k d = elim (Bool-cases (any (has_id id) apps)) [
  | inl e ↦ rw e (starting-change_first id j (λ a. app) on apps (λ a h. k) d e)
  | inr e ↦
      rw (e, starting-append j apps (app ∷ []))
        (ground (arith, k.0, k.1, starting-no_id id j apps e))
]

abbrev apps_of : Answer → List PtConfiguredApp → List PtConfiguredApp
apps_of (saved cfg) apps = cfg.apps
apps_of (refused r) apps = apps

set_auto_start-starting :
    (cfg : ContainerPtConfig) (id name cmd : Text) (enabled : Bool) (j : Text)
    → DistinctIds cfg.apps
    → starting j (apps_of (set_auto_start id name cmd enabled cfg) cfg.apps)
      ≡ (if text_eq id j then enabled else starting j cfg.apps)
unfolding set_auto_start auto_start_entry
set_auto_start-starting cfg id name cmd true j d =
    starting-upsert id j _ true cfg.apps (refl, refl) d
set_auto_start-starting cfg id name cmd false j d = elim (Bool-cases (any (has_id id) cfg.apps)) [
  | inr e ↦ rw e (ground (arith, starting-no_id id j cfg.apps e))
  | inl e ↦ elim (Bool-cases (is_custom id)) [
    | inl q ↦
        rw (e, q)
          (starting-change_first id j (λ a. record a { auto_start = false }) false cfg.apps
            (λ a h. (same_id a id h, refl)) d e)
    | inr q ↦ rw (e, q, starting-without id j cfg.apps) (ground arith)
  ]
]

written-apps :
    (a : Answer) (file : File)
    → (read_container_config (write_back a file)).apps ≡ apps_of a (read_container_config file).apps
unfolding read_container_config handle_passthrough_set
written-apps (saved cfg) file = refl
written-apps (refused r) file = refl

-- After a command has turned the automatic start of an application on or off, the applications that
-- start with the container are those that did before, but that the application itself does if and
-- only if it was turned on; no two applications of the configuration had the same id.
pub launch_auto_start-toggled :
    (file : File) (id name cmd : Text) (enabled : Bool) (j : Text)
    → DistinctIds (read_container_config file).apps
    → any (has_id j) (launch_auto_start (command (auto id name cmd enabled) file))
      ≡ (if text_eq id j then enabled else any (has_id j) (launch_auto_start file))
unfolding command run launch_auto_start handle_passthrough_set
launch_auto_start-toggled file id name cmd enabled j d =
    ap (starting j)
      (written-apps (set_auto_start id name cmd enabled (read_container_config file)) file)
    ∙ set_auto_start-starting (read_container_config file) id name cmd enabled j d

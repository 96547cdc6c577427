-- ===== src/Apps/Consistent.antt =====
-- What every command keeps of the configuration.
pub mod Edits
pub mod Commands
use mathlib.Core.Path.{subst}
use easytidy.Prelude.{
  ◌≡◌, refl, sym, ap, ◌∙◌, arith, Bool, true, false, not, ◌&&◌, ◌||◌, Option, none, some, List, [],
  ◌∷◌, ◌++◌, Bool-cases, inl, inr, if◌then◌else◌, map,
}
use easytidy.Lists.{All, All-imp, All-retain, All-append, any, any-append, retain}
use easytidy.Text.{Text, text_eq, is_empty}
use easytidy.Text.White.{trim}
use easytidy.Text.Split.{text_eq_iff, text_eq_refl}
use easytidy.Apps.{
  PtConfiguredApp, ContainerPtConfig, File, read_container_config, handle_passthrough_set, has_id,
  is_custom, custom_id, change_first, upsert, renamed, if_id, auto_start_entry, Answer, saved,
  refused, set_pinned, set_auto_start, add_custom, change_custom, update_custom, set_custom_icon,
  remove_app, Command, pin, auto, add, update, icon, remove, run, write_back, command,
}
use easytidy.Apps.Ids.{
  DistinctIds, without, same_id, DistinctIds-without, any-without, any-change_first,
  DistinctIds-change_first, DistinctIds-last, any-upsert, DistinctIds-upsert, any-rename_other,
  any-rename_new, DistinctIds-rename, DistinctIds-rename_all,
}

-- A pinned application of the user's own is one of the applications.
abbrev pub Configured : List PtConfiguredApp → PtConfiguredApp → Type 0
Configured apps p = (not (is_custom p.id) || any (has_id p.id) apps) ≡ true

pub record IsConsistent (cfg : ContainerPtConfig) : Type 0 where
  pub apps : DistinctIds cfg.apps
  pub pinned : DistinctIds cfg.pinned
  pub configured : All (Configured cfg.apps) cfg.pinned

-- The window pins applications that there are.
abbrev pub PinsKnown : ContainerPtConfig → Command → Type 0
PinsKnown cfg (pin id name cmd path on) = (not (is_custom id) || any (has_id id) cfg.apps) ≡ true
PinsKnown cfg _ = Unit {0}

abbrev OnSaved : Answer → Type 0
OnSaved (saved cfg) = IsConsistent cfg
OnSaved (refused r) = Unit {0}

-- More applications.
pub Configured-more :
    (apps apps' : List PtConfiguredApp)
    → ((j : Text) → any (has_id j) apps ≡ true → any (has_id j) apps' ≡ true)
    → (p : PtConfiguredApp) → Configured apps p
    → Configured apps' p
Configured-more apps apps' f p h = elim (Bool-cases (is_custom p.id)) [
  | inr e ↦ rw e refl
  | inl e ↦ rw (e, f p.id (rw e at h)) refl
]

All-change_first :
    (P : PtConfiguredApp → Type 0) (id : Text) (app : PtConfiguredApp) (apps : List PtConfiguredApp)
    → P app
    → All P apps
    → All P (change_first id (λ a. app) apps)
unfolding change_first
All-change_first P id app [] k h = tt
All-change_first P id app (a ∷ apps) k h = elim (Bool-cases (has_id id a)) [
  | inl e ↦ rw e (k, h.1)
  | inr e ↦ rw e (h.0, All-change_first P id app apps k h.1)
]

pub All-upsert :
    (P : PtConfiguredApp → Type 0) (id : Text) (app : PtConfiguredApp) (apps : List PtConfiguredApp)
    → P app
    → All P apps
    → All P (upsert id app apps)
unfolding upsert
All-upsert P id app apps k h = elim (Bool-cases (any (has_id id) apps)) [
  | inl e ↦ rw e (All-change_first P id app apps k h)
  | inr e ↦ rw e (All-append P apps (app ∷ []) h (k, tt))
]

module _ (cfg : ContainerPtConfig) (c : IsConsistent cfg) where
  -- A change of the applications that loses no id.
  pub grown :
      (apps : List PtConfiguredApp)
      → DistinctIds apps
      → ((j : Text) → any (has_id j) cfg.apps ≡ true → any (has_id j) apps ≡ true)
      → IsConsistent (record cfg { apps = apps })
  grown apps d f = record {
    apps = d;
    pinned = c.pinned;
    configured = All-imp (Configured-more cfg.apps apps f) cfg.pinned c.configured;
  }

  pub changed :
      (id : Text) (f : PtConfiguredApp → PtConfiguredApp)
      → ((a : PtConfiguredApp) → (f a).id ≡ a.id)
      → IsConsistent (record cfg { apps = change_first id f cfg.apps })
  changed id f k =
      grown (change_first id f cfg.apps)
        (DistinctIds-change_first id f (λ a e. k a) cfg.apps c.apps)
        (λ j h. any-change_first id f (λ a e. k a) j cfg.apps ∙ h)

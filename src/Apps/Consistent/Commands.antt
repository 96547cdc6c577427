-- ===== src/Apps/Consistent/Commands.antt =====
-- Every command of the window and the consistency of the configuration.
use easytidy.Prelude.{◌≡◌, refl, arith, Bool, true, false, not, ◌&&◌, ◌||◌, Option, List}
use easytidy.Lists.{All, All-imp, All-retain, any}
use easytidy.Text.{Text, text_eq}
use easytidy.Text.Split.{text_eq_refl}
use easytidy.Apps.{
  PtConfiguredApp, ContainerPtConfig, File, read_container_config, handle_passthrough_set, has_id,
  is_custom, Answer, saved, refused, set_pinned, Command, pin, auto, add, update, icon, remove, run,
  write_back, command,
}
use easytidy.Apps.Ids.{DistinctIds, DistinctIds-without, DistinctIds-upsert}
use easytidy.Apps.Consistent.{Configured, IsConsistent, OnSaved, All-upsert}
use easytidy.Apps.Consistent.Edits.{
  set_auto_start-IsConsistent, add_custom-IsConsistent, set_custom_icon-IsConsistent,
  remove_app-IsConsistent, update_custom-IsConsistent,
}

-- The command pins an application of the id.
abbrev pub pins : Command → Text → Bool
pins (pin id name cmd path on) j = on && text_eq id j
pins _ j = false

-- As consistent as the configuration after a command, which need not know what it pins.
pub record Kept (k : Command) (cfg : ContainerPtConfig) : Type 0 where
  pub apps : DistinctIds cfg.apps
  pub pinned : DistinctIds cfg.pinned
  pub configured :
      All
        (λ p. (pins k p.id || (not (is_custom p.id) || any (has_id p.id) cfg.apps)) ≡ true)
        cfg.pinned

abbrev KeptBy : Command → Answer → Type 0
KeptBy k (saved cfg) = Kept k cfg
KeptBy k (refused r) = Unit {0}

Configured-Kept :
    (k : Command) (apps : List PtConfiguredApp) (p : PtConfiguredApp)
    → Configured apps p
    → (pins k p.id || (not (is_custom p.id) || any (has_id p.id) apps)) ≡ true
Configured-Kept k apps p h = ground (arith, h)

IsConsistent-Kept : (k : Command) (cfg : ContainerPtConfig) → IsConsistent cfg → Kept k cfg
IsConsistent-Kept k cfg c = record {
  apps = c.apps;
  pinned = c.pinned;
  configured = All-imp (Configured-Kept k cfg.apps) cfg.pinned c.configured;
}

OnSaved-KeptBy : (k : Command) (a : Answer) → OnSaved a → KeptBy k a
OnSaved-KeptBy k (saved cfg) c = IsConsistent-Kept k cfg c
OnSaved-KeptBy k (refused r) c = tt

module _ (cfg : ContainerPtConfig) (c : IsConsistent cfg) where
  pin-Kept :
      (id name cmd : Text) (path : Option Text) (on : Bool)
      → KeptBy (pin id name cmd path on) (set_pinned id name cmd path on cfg)
  unfolding set_pinned
  pin-Kept id name cmd path true = record {
    apps = c.apps;
    pinned = DistinctIds-upsert _ cfg.pinned c.pinned;
    configured =
        All-upsert
          (λ p. (text_eq id p.id || (not (is_custom p.id) || any (has_id p.id) cfg.apps)) ≡ true) id
          _ cfg.pinned (rw (text_eq_refl id) refl)
          (All-imp (Configured-Kept (pin id name cmd path true) cfg.apps) cfg.pinned c.configured);
  }
  pin-Kept id name cmd path false = record {
    apps = c.apps;
    pinned = DistinctIds-without id cfg.pinned c.pinned;
    configured =
        All-imp (Configured-Kept (pin id name cmd path false) cfg.apps) _
          (All-retain (Configured cfg.apps) _ cfg.pinned c.configured);
  }

  run-Kept : (k : Command) → KeptBy k (run k cfg)
  unfolding run
  run-Kept (pin id name cmd path on) = pin-Kept id name cmd path on
  run-Kept (auto id name cmd enabled) =
      OnSaved-KeptBy (auto id name cmd enabled) _
        (set_auto_start-IsConsistent cfg c id name cmd enabled)
  run-Kept (add name cmd) = OnSaved-KeptBy (add name cmd) _ (add_custom-IsConsistent cfg c name cmd)
  run-Kept (update id name cmd) =
      OnSaved-KeptBy (update id name cmd) _ (update_custom-IsConsistent cfg c id name cmd)
  run-Kept (icon id path) =
      OnSaved-KeptBy (icon id path) _ (set_custom_icon-IsConsistent cfg c id path)
  run-Kept (remove id) = OnSaved-KeptBy (remove id) _ (remove_app-IsConsistent cfg c id)

written-Kept :
    (k : Command) (a : Answer) (file : File)
    → KeptBy k a
    → IsConsistent (read_container_config file)
    → Kept k (read_container_config (write_back a file))
unfolding read_container_config handle_passthrough_set
written-Kept k (saved cfg) file h c = h
written-Kept k (refused r) file h c = IsConsistent-Kept k _ c

-- From a configuration in which no two of the applications and no two of the pinned ones have the
-- same id, and every pinned application with an id of the user's own is one of the applications,
-- each command leads to a file, also where it answers an error, in which the ids differ again and
-- every pinned application with an id of the user's own is one of the applications, but for the id
-- that the command itself pins, which the code does not look up.
pub command-IsConsistent :
    (k : Command) (file : File)
    → IsConsistent (read_container_config file)
    → Kept k (read_container_config (command k file))
unfolding command
command-IsConsistent k file c =
    written-Kept k (run k (read_container_config file)) file
      (run-Kept (read_container_config file) c k) c

-- ===== src/Apps/Stale.antt =====
-- What a pinned application of the user's own runs after an update of it.
use easytidy.Prelude.{
  ◌≡◌, refl, ap, ◌∙◌, arith, true, false, not, ◌||◌, Option, none, some, List, [], ◌∷◌, Bool-cases,
  inl, inr, if◌then◌else◌, map,
}
use easytidy.Lists.{any, find}
use easytidy.Text.{Text, text_eq, is_empty}
use easytidy.Text.White.{trim}
use easytidy.Text.Split.{text_eq_iff, text_eq_refl}
use easytidy.Apps.{
  PtConfiguredApp, ContainerPtConfig, File, read_container_config, handle_passthrough_set, has_id,
  is_custom, custom_id, change_first, renamed, if_id, Answer, saved, refused, change_custom,
  update_custom, run, update, write_back, command, passthrough_launch,
}
use easytidy.Apps.Consistent.{IsConsistent}
use easytidy.Apps.Consistent.Edits.{new_id-unpinned, custom_id-custom}

abbrev pub command_of : Option PtConfiguredApp → Option Text
command_of none = none
command_of (some a) = some a.cmd

module _ (id new_id name cmd : Text) where
  first-renamed :
      (apps : List PtConfiguredApp)
      → any (has_id id) apps ≡ true
      → any (has_id new_id) apps ≡ false
      → command_of (find (has_id new_id) (change_first id (renamed new_id name cmd) apps))
        ≡ some cmd
  unfolding any find change_first
  first-renamed [] h n = ground (arith, h)
  first-renamed (a ∷ apps) h n = ground (arith, first-renamed apps, text_eq_refl new_id)

  all-renamed :
      (apps : List PtConfiguredApp)
      → any (has_id new_id) apps ≡ false
      → command_of (find (has_id new_id) (map (if_id id (renamed new_id name cmd)) apps))
        ≡ (if any (has_id id) apps then some cmd else none)
  unfolding any find
  all-renamed [] n = refl
  all-renamed (a ∷ apps) n = ground (arith, all-renamed apps, text_eq_refl new_id)

first-changed :
    (id cmd : Text) (apps : List PtConfiguredApp)
    → any (has_id id) apps ≡ true
    → command_of (find (has_id id) (change_first id (λ a. record a { cmd = cmd }) apps)) ≡ some cmd
unfolding any find change_first
first-changed id cmd [] h = ground (arith, h)
first-changed id cmd (a ∷ apps) h = ground (arith, first-changed id cmd apps)

launch-of :
    (id : Text) (file : File)
    → passthrough_launch id file ≡ command_of (find (has_id id) (read_container_config file).pinned)
unfolding passthrough_launch
launch-of id file =
    elim (find (has_id id) (read_container_config file).pinned)
      as (λ o. elim o as (λ x. Option Text) [ none ↦ none | some a ↦ some a.cmd ] ≡ command_of o) [
        | none ↦ refl
        | some a ↦ refl
      ]

-- The commands of an application under an id: that of the list and that of the pinned ones.
abbrev commands : Text → ContainerPtConfig → Option Text × Option Text
commands id cfg = (command_of (find (has_id id) cfg.apps), command_of (find (has_id id) cfg.pinned))

abbrev commands_after : Text → Answer → ContainerPtConfig → Option Text × Option Text
commands_after id (saved cfg) old = commands id cfg
commands_after id (refused r) old = commands id old

change_custom-commands :
    (cfg : ContainerPtConfig) (id new_id name cmd : Text)
    → IsConsistent cfg
    → is_custom new_id ≡ true
    → any (has_id id) cfg.apps ≡ true
    → (text_eq new_id id || not (any (has_id new_id) cfg.apps)) ≡ true
    → commands_after new_id (change_custom id new_id name cmd cfg) cfg ≡ (
      some cmd,
      if text_eq new_id id
          then command_of (find (has_id id) cfg.pinned)
          else if any (has_id id) cfg.pinned
          then some cmd
          else none,
    )
unfolding change_custom
change_custom-commands cfg id new_id name cmd c n h f = elim (Bool-cases (text_eq new_id id)) [
  | inl q ↦ rw (h, q, (text_eq_iff new_id id).0 q, first-changed id cmd cfg.apps h) refl
  | inr q ↦
      let fresh : any (has_id new_id) cfg.apps ≡ false = ground arith in
      rw
        (
          h,
          q,
          fresh,
          first-renamed id new_id name cmd cfg.apps h fresh,
          all-renamed id new_id name cmd cfg.pinned
              (new_id-unpinned cfg c new_id cfg.pinned n fresh c.configured),
        )
        refl
]

update_custom-commands :
    (cfg : ContainerPtConfig) (id name cmd : Text)
    → IsConsistent cfg
    → is_custom id ≡ true
    → (is_empty (trim name) || is_empty (trim cmd)) ≡ false
    → any (has_id id) cfg.apps ≡ true
    → (text_eq (custom_id (trim name)) id || not (any (has_id (custom_id (trim name))) cfg.apps))
      ≡ true
    → commands_after (custom_id (trim name)) (update_custom id name cmd cfg) cfg ≡ (
      some (trim cmd),
      if text_eq (custom_id (trim name)) id
          then command_of (find (has_id id) cfg.pinned)
          else if any (has_id id) cfg.pinned
          then some (trim cmd)
          else none,
    )
unfolding update_custom
update_custom-commands cfg id name cmd c n e h f =
    rw (n, e)
      (change_custom-commands cfg id (custom_id (trim name)) (trim name) (trim cmd) c
        (custom_id-custom (trim name)) h f)

written-commands :
    (id : Text) (a : Answer) (file : File)
    → commands id (read_container_config (write_back a file))
      ≡ commands_after id a (read_container_config file)
unfolding read_container_config handle_passthrough_set
written-commands id (saved cfg) file = refl
written-commands id (refused r) file = refl

-- An update of an application of the user's own, that there is in a consistent configuration, with a
-- name and a command that are not empty and a name that no other one has, gives the application the
-- trimmed command under the id of the trimmed name; the pinned application of that id is launched
-- with the command it was pinned with where the name is the old one, and with the new command where
-- the name is new and the application was pinned under the old one.
pub update_custom-launch :
    (file : File) (id name cmd : Text)
    → IsConsistent (read_container_config file)
    → is_custom id ≡ true
    → (is_empty (trim name) || is_empty (trim cmd)) ≡ false
    → any (has_id id) (read_container_config file).apps ≡ true
    → (text_eq (custom_id (trim name)) id
        || not (any (has_id (custom_id (trim name))) (read_container_config file).apps))
      ≡ true
    → (command_of (
          find
            (has_id (custom_id (trim name)))
            (read_container_config (command (update id name cmd) file)).apps)
        ≡ some (trim cmd))
      × (passthrough_launch (custom_id (trim name)) (command (update id name cmd) file) ≡ (
          if text_eq (custom_id (trim name)) id
          then passthrough_launch id file
          else if any (has_id id) (read_container_config file).pinned
          then some (trim cmd)
          else none))
unfolding command run
update_custom-launch file id name cmd c n e h f =
    let both =
      written-commands (custom_id (trim name))
        (update_custom id name cmd (read_container_config file)) file
      ∙ update_custom-commands (read_container_config file) id name cmd c n e h f in
    (ap (λ t. t.0) both, launch-of _ _ ∙ ap (λ t. t.1) both ∙ rw (launch-of id file) refl)

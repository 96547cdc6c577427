-- ===== src/Podman/Mounts.antt =====
-- crates/core/src/podman/mod.rs, `dedup_mounts` and `validate_mount`.
use mathlib.Core.Path.{subst}
use easytidy.Prelude.{
  ◌≡◌, refl, sym, ◌∙◌, arith, Bool, true, false, ◌||◌, Bool-cases, inl, inr, Option, none, some,
  List, [], ◌∷◌, ◌++◌, if◌then◌else◌,
}
use easytidy.Lists.{any, find, any-append, find-append, find-last}
use easytidy.Text.Split.{text_eq_iff, text_eq_refl}
use easytidy.Text.{Text, is_empty, text_eq}
use easytidy.PathVars.{MountConfig}

unfoldable pub reverse : List MountConfig → List MountConfig
reverse [] = []
reverse (m ∷ ms) = reverse ms ++ (m ∷ [])

-- The mount has no target, or one that was seen.
abbrev pub skipped : List Text → MountConfig → Bool
skipped seen m = is_empty m.container_path || any (text_eq m.container_path) seen

-- The `retain` over the reversed list, with the paths seen so far.
unfoldable pub first_of_each : List Text → List MountConfig → List MountConfig
unfolding any
first_of_each seen [] = []
first_of_each seen (m ∷ ms) = elim (skipped seen m) [
  | true ↦ first_of_each seen ms
  | false ↦ m ∷ first_of_each (m.container_path ∷ seen) ms
]

unfoldable pub dedup_mounts : List MountConfig → List MountConfig
unfolding reverse first_of_each
dedup_mounts mounts = reverse (first_of_each [] (reverse mounts))

-- `found path` says whether there is a file or folder on the host.
pub data MountError : Type 0 where
  no_host_path no_container_path not_there : MountError

unfoldable pub validate_mount : (Text → Bool) → MountConfig → Option MountError
validate_mount found m =
    if is_empty m.host_path
    then some no_host_path
    else if is_empty m.container_path
    then some no_container_path
    else if found m.host_path
    then none
    else some not_there

-- The mount whose target is the path.
abbrev pub targets : Text → MountConfig → Bool
targets path m = text_eq m.container_path path

-- No two mounts have one target.
abbrev pub Distinct : List MountConfig → Type 0
Distinct [] = Unit {0}
Distinct (m ∷ ms) = (any (targets m.container_path) ms ≡ false) × Distinct ms

targets-path : (path : Text) (m : MountConfig) → targets path m ≡ true → m.container_path ≡ path
targets-path path m h = (text_eq_iff m.container_path path).0 h

targets_sym :
    (m n : MountConfig) → targets m.container_path n ≡ false → targets n.container_path m ≡ false
targets_sym m n h = ground (
  arith,
  text_eq_iff n.container_path m.container_path,
  text_eq_iff m.container_path n.container_path,
)

module _ (seen : List Text) (m : MountConfig) (ms : List MountConfig) where
  first_of_each_skip : skipped seen m ≡ true → first_of_each seen (m ∷ ms) ≡ first_of_each seen ms
  unfolding first_of_each
  first_of_each_skip e = rw (first_of_each, e) refl

  first_of_each_keep :
      skipped seen m ≡ false
      → first_of_each seen (m ∷ ms) ≡ m ∷ first_of_each (m.container_path ∷ seen) ms
  unfolding first_of_each
  first_of_each_keep e = rw (first_of_each, e) refl

-- A mount that is kept has another target than those seen.
kept-fresh :
    (path : Text) (seen : List Text) (m : MountConfig)
    → any (text_eq path) seen ≡ true
    → skipped seen m ≡ false
    → targets path m ≡ false
kept-fresh path seen m h e = elim (Bool-cases (targets path m)) [
  | inr d ↦ d
  | inl d ↦
      let seen_too : any (text_eq m.container_path) seen ≡ true =
        subst (λ t. any (text_eq t) seen ≡ true) (sym (targets-path path m d)) h in
      ground (arith, seen_too)
]

-- A path that was seen is no target of what is kept.
first_of_each-seen :
    (path : Text) (seen : List Text) (ms : List MountConfig)
    → any (text_eq path) seen ≡ true
    → any (targets path) (first_of_each seen ms) ≡ false
unfolding any
first_of_each-seen path seen [] h = unfold first_of_each in refl
first_of_each-seen path seen (m ∷ ms) h = elim (Bool-cases (skipped seen m)) [
  | inl e ↦ rw (first_of_each_skip seen m ms e) (first_of_each-seen path seen ms h)
  | inr e ↦
      rw (first_of_each_keep seen m ms e, kept-fresh path seen m h e)
        (first_of_each-seen path (m.container_path ∷ seen) ms (ground arith))
]

first_of_each-Distinct :
    (seen : List Text) (ms : List MountConfig) → Distinct (first_of_each seen ms)
unfolding any
first_of_each-Distinct seen [] = unfold first_of_each in tt
first_of_each-Distinct seen (m ∷ ms) = elim (Bool-cases (skipped seen m)) [
  | inl e ↦ rw (first_of_each_skip seen m ms e) (first_of_each-Distinct seen ms)
  | inr e ↦ rw (first_of_each_keep seen m ms e) (
    first_of_each-seen m.container_path (m.container_path ∷ seen) ms
        (rw (any, text_eq_refl m.container_path) refl),
    first_of_each-Distinct (m.container_path ∷ seen) ms,
  )
]

-- A mount that is skipped has another target than a path that is neither empty nor seen.
skipped-other :
    (path : Text) (seen : List Text) (m : MountConfig)
    → is_empty path ≡ false
    → any (text_eq path) seen ≡ false
    → skipped seen m ≡ true
    → targets path m ≡ false
skipped-other path seen m h k e = elim (Bool-cases (targets path m)) [
  | inr d ↦ d
  | inl d ↦
      cc (subst (λ t. (is_empty t || any (text_eq t) seen) ≡ true) (targets-path path m d) e, h, k)
]

first_of_each-find :
    (path : Text) (seen : List Text) (ms : List MountConfig)
    → is_empty path ≡ false
    → any (text_eq path) seen ≡ false
    → find (targets path) (first_of_each seen ms) ≡ find (targets path) ms
unfolding find any
first_of_each-find path seen [] h k = unfold first_of_each in refl
first_of_each-find path seen (m ∷ ms) h k = elim (Bool-cases (skipped seen m)) [
  | inl e ↦
      rw (first_of_each_skip seen m ms e, skipped-other path seen m h k e)
        (first_of_each-find path seen ms h k)
  | inr e ↦ elim (Bool-cases (targets path m)) [
    | inl d ↦ rw (first_of_each_keep seen m ms e, d) refl
    | inr d ↦
        rw (first_of_each_keep seen m ms e, d)
          (first_of_each-find path (m.container_path ∷ seen) ms h
            (ground (arith, text_eq_iff path m.container_path, text_eq_iff m.container_path path)))
  ]
]

any-reverse : (p : MountConfig → Bool) (ms : List MountConfig) → any p (reverse ms) ≡ any p ms
unfolding reverse any
any-reverse p [] = refl
any-reverse p (m ∷ ms) = ground (arith, any-append p (reverse ms) (m ∷ []), any-reverse p ms)

find-reverse :
    (path : Text) (ms : List MountConfig)
    → Distinct ms
    → find (targets path) (reverse ms) ≡ find (targets path) ms
unfolding reverse find
find-reverse path [] h = refl
find-reverse path (m ∷ ms) h = elim (Bool-cases (targets path m)) [
  | inl d ↦
      let none_else : any (targets path) (reverse ms) ≡ false =
        any-reverse (targets path) ms
        ∙ subst (λ t. any (targets t) ms ≡ false) (targets-path path m d) h.0 in
      rw d (find-last (targets path) (reverse ms) m none_else d)
  | inr d ↦
      rw d
        (ground (arith, find-append (targets path) (reverse ms) (m ∷ []), find-reverse path ms h.1))
]

pub Distinct-last :
    (ms : List MountConfig) (m : MountConfig)
    → Distinct ms
    → any (targets m.container_path) ms ≡ false
    → Distinct (ms ++ (m ∷ []))
unfolding any
Distinct-last [] m h k = (refl, tt)
Distinct-last (n ∷ ms) m h k = (
  ground (arith, any-append (targets n.container_path) ms (m ∷ []), targets_sym m n),
  Distinct-last ms m h.1 (ground arith),
)

Distinct-reverse : (ms : List MountConfig) → Distinct ms → Distinct (reverse ms)
unfolding reverse
Distinct-reverse [] h = tt
Distinct-reverse (m ∷ ms) h =
    Distinct-last (reverse ms) m (Distinct-reverse ms h.1)
      (any-reverse (targets m.container_path) ms ∙ h.0)

-- The mounts of a container have different targets. Each target that is not empty has the mount
-- that was the last with this target before, and no target is added.
pub dedup_mounts-Distinct :
    (mounts : List MountConfig) (path : Text)
    → is_empty path ≡ false
    → Distinct (dedup_mounts mounts)
      × (find (targets path) (dedup_mounts mounts) ≡ find (targets path) (reverse mounts))
unfolding dedup_mounts
dedup_mounts-Distinct mounts path h =
    let kept = first_of_each [] (reverse mounts) in
    let distinct : Distinct kept = first_of_each-Distinct [] (reverse mounts) in
    (
      Distinct-reverse kept distinct,
      find-reverse path kept distinct
          ∙ first_of_each-find path [] (reverse mounts) h (unfold any in refl),
    )

-- ===== src/Desktop/ResourceDirs/Portable.antt =====
-- The portable name of a folder expands to the folder, and no folder is the home directory itself.
use mathlib.Core.Path.{subst}
use easytidy.Prelude.{
  ℕ, ◌≡◌, refl, sym, ◌∙◌, Bool, true, false, ◌||◌, ◌==◌, Bool-cases, ◌⊎◌, inl, inr, Option, none,
  some, List, [], ◌∷◌, ◌++◌, arith, map, append-nil,
}
use easytidy.Lists.{All}
use easytidy.Text.{Text, codes, Free, is_empty, text_eq, strip_prefix, trim_end_char}
use easytidy.Text.Split.{strip_prefix-some, Free-append, text_eq_iff}
use easytidy.PathVars.{PathVars, HostUser, host_path_vars, ok, expand_path}
use easytidy.PathVars.Templates.{IsUnknown, literal, home, expand_path-segments}
use easytidy.Desktop.ResourceDirs.{
  XdgUserDir, begins, ends_in, path_join, home_expr, is_bare_home, resolve_host_resource_dir,
  resource_dirs, resource_dir, host_user_resource_dirs,
}

Free-behind : (c : ℕ) (a b : Text) → Free c (a ++ b) → Free c b
Free-behind c [] b h = h
Free-behind c (x ∷ a) b h = Free-behind c a b h.1

X-IsUnknown : IsUnknown (codes "X")
X-IsUnknown = (λ e. ground arith, λ e. ground arith, λ e. ground arith, λ e. ground arith)

-- A path without `$` expands to itself.
expand-plain : (pv : PathVars) (t : Text) → Free b'$' t → expand_path t pv ≡ ok t
expand-plain pv t h =
    (rw append-nil at
      (expand_path-segments pv (literal t ∷ []) (codes "X") [] (h, tt) (omega arith) X-IsUnknown)).0

expand-home :
    (pv : PathVars) (t : Text)
    → Free b'$' t
    → expand_path (codes "${HOME}" ++ t) pv ≡ ok (pv.home ++ t)
expand-home pv t h =
    (rw append-nil at (
      expand_path-segments pv (home ∷ literal t ∷ []) (codes "X") [] (h, tt) (omega arith)
        X-IsUnknown)).0

-- The home directory without slashes at its end is its own norm.
trim_end_char-none : (c : ℕ) (t : Text) → ends_in c t ≡ false → trim_end_char c t ≡ t
unfolding trim_end_char
trim_end_char-none c [] h = refl
trim_end_char-none c (x ∷ []) h = ground arith
trim_end_char-none c (x ∷ (y ∷ t)) h = ground (arith, trim_end_char-none c (y ∷ t) h)

ends_in-append : (c x : ℕ) (a t : Text) → ends_in c (a ++ (x ∷ t)) ≡ ends_in c (x ∷ t)
ends_in-append c x [] t = refl
ends_in-append c x (y ∷ []) t = refl
ends_in-append c x (y ∷ (z ∷ a)) t = ends_in-append c x (z ∷ a) t

longer-ne : (a t : Text) (x : ℕ) → text_eq (a ++ (x ∷ t)) a ≡ false
unfolding text_eq
longer-ne [] t x = refl
longer-ne (y ∷ a) t x = ground (arith, longer-ne a t x)

-- The name of a folder: not empty, with a slash at neither end, and without `$`.
abbrev IsFolder : Text → Type 0
IsFolder [] = ◌≡◌ {A = Bool} true false
IsFolder (x ∷ t) = ((x == b'/') ≡ false) × (ends_in b'/' (x ∷ t) ≡ false) × Free b'$' (x ∷ t)

resource_dirs-IsFolder : All (λ (d : Text × Text). IsFolder d.1) resource_dirs
resource_dirs-IsFolder = (
  (refl, refl, omega arith),
  (
    (refl, refl, omega arith),
    (
      (refl, refl, omega arith),
      ((refl, refl, omega arith), ((refl, refl, omega arith), ((refl, refl, omega arith), tt))),
    ),
  ),
)

is_bare_home-ne :
    (p base : Text)
    → ends_in b'/' p ≡ false
    → ends_in b'/' base ≡ false
    → text_eq p base ≡ false
    → is_bare_home p base ≡ false
unfolding is_bare_home
is_bare_home-ne p base h k e =
    ground (arith, trim_end_char-none b'/' p h, trim_end_char-none b'/' base k)

join-below :
    (base folder : Text)
    → ends_in b'/' base ≡ false
    → IsFolder folder
    → is_bare_home (path_join base folder) base ≡ false
unfolding path_join
join-below base [] e k = cc k
join-below [] (x ∷ t) e k =
    rw (path_join, k.0) (is_bare_home-ne (x ∷ t) [] k.1 refl (unfold text_eq in refl))
join-below (y ∷ base) (x ∷ t) e k =
    rw (path_join, k.0, e)
      (is_bare_home-ne _ (y ∷ base) (ends_in-append b'/' b'/' (y ∷ base) (x ∷ t) ∙ k.1) e
        (longer-ne (y ∷ base) (x ∷ t) b'/'))

join-Free :
    (base folder : Text) → Free b'$' base → IsFolder folder → Free b'$' (path_join base folder)
unfolding path_join
join-Free base [] h k = cc k
join-Free [] (x ∷ t) h k = rw (path_join, k.0) k.2
join-Free (y ∷ base) (x ∷ t) h k = elim (Bool-cases (ends_in b'/' (y ∷ base))) [
  | inl e ↦ rw (path_join, k.0, e) (Free-append b'$' (y ∷ base) (x ∷ t) h k.2)
  | inr e ↦
      rw (path_join, k.0, e)
        (Free-append b'$' (y ∷ base) (b'/' ∷ x ∷ t) h ((λ d. omega arith), k.2))
]

-- Without slashes at its end, a home is left out of a path as it stands.
home_expr-below :
    (path base : Text) (o : Option Text)
    → ends_in b'/' base ≡ false
    → strip_prefix base path ≡ o
    → (home_expr path base ≡ path)
      ⊎ ((rel : Text) × (path ≡ base ++ rel) × (home_expr path base ≡ codes "${HOME}" ++ rel))
unfolding home_expr
home_expr-below path base none h e = inl (rw (home_expr, trim_end_char-none b'/' base h, e) refl)
home_expr-below path base (some rel) h e = elim (Bool-cases (is_empty rel || begins b'/' rel)) [
  | inl d ↦ inr (
    rel,
    strip_prefix-some base path rel e,
    rw (home_expr, trim_end_char-none b'/' base h, e, d) refl,
  )
  | inr d ↦ inl (rw (home_expr, trim_end_char-none b'/' base h, e, d) refl)
]

-- Without the slashes at its end the path is another than the home directory, and the name stands
-- for the path.
abbrev pub Portable : HostUser → XdgUserDir → Type 0
Portable user d =
    (text_eq (trim_end_char b'/' d.host_path) user.home ≡ false)
    × (expand_path d.host_path_expr (host_path_vars user) ≡ ok d.host_path)

differs :
    (p base : Text)
    → is_empty base ≡ false
    → ends_in b'/' base ≡ false
    → is_bare_home p base ≡ false
    → text_eq (trim_end_char b'/' p) base ≡ false
unfolding is_bare_home
differs p base n h b = elim (Bool-cases (text_eq (trim_end_char b'/' p) base)) [
  | inr e ↦ e
  | inl e ↦
      let same : trim_end_char b'/' p ≡ base = (text_eq_iff (trim_end_char b'/' p) base).0 e in
      let full : is_empty (trim_end_char b'/' p) ≡ false =
        subst (λ t. is_empty t ≡ false) (sym same) n in
      ground (arith, e, full, trim_end_char-none b'/' base h)
]

module _ (user : HostUser) (h : ends_in b'/' user.home ≡ false) where
  home_expr-expand :
      (path : Text)
      → Free b'$' path
      → expand_path (home_expr path user.home) (host_path_vars user) ≡ ok path
  unfolding host_path_vars
  home_expr-expand path k = elim (home_expr-below path user.home _ h refl) [
    | inl e ↦ rw e (expand-plain (host_path_vars user) path k)
    | inr (rel, d, e) ↦
        rw (e, d)
          (expand-home (host_path_vars user) rel
            (Free-behind b'$' user.home rel (subst (Free b'$') d k)))
  ]

  module _ (xdg_user_dir : Text → Option Text) (is_dir : Text → Bool)
      (full : is_empty user.home ≡ false) (plain : Free b'$' user.home)
      (answers : (key p : Text) → xdg_user_dir key ≡ some p → Free b'$' p) where
    resolve-Portable :
        (o : Option Text) (folder : Text)
        → ((p : Text) → o ≡ some p → Free b'$' p)
        → IsFolder folder
        → (is_bare_home (resolve_host_resource_dir o user.home folder) user.home ≡ false)
          × Free b'$' (resolve_host_resource_dir o user.home folder)
    unfolding resolve_host_resource_dir
    resolve-Portable none folder k f =
        (join-below user.home folder h f, join-Free user.home folder plain f)
    resolve-Portable (some p) folder k f = elim (Bool-cases (is_bare_home p user.home)) [
      | inl e ↦
          rw (resolve_host_resource_dir, e)
            (join-below user.home folder h f, join-Free user.home folder plain f)
      | inr e ↦ rw (resolve_host_resource_dir, e) (e, k p refl)
    ]

    resource_dir-Portable :
        (key folder : Text)
        → IsFolder folder
        → Portable user (resource_dir xdg_user_dir is_dir user.home (key, folder))
    unfolding resource_dir
    resource_dir-Portable key folder f =
        let (bare, free) = resolve-Portable (xdg_user_dir key) folder (answers key) f in
        (
          differs (resolve_host_resource_dir (xdg_user_dir key) user.home folder) user.home full h
              bare,
          home_expr-expand _ free,
        )

    map-Portable :
        (dirs : List (Text × Text))
        → All (λ (d : Text × Text). IsFolder d.1) dirs
        → All (Portable user) (map (resource_dir xdg_user_dir is_dir user.home) dirs)
    map-Portable [] h = tt
    map-Portable ((key, folder) ∷ dirs) h =
        (resource_dir-Portable key folder h.0, map-Portable dirs h.1)

    -- For a user whose home is not empty and has no slash at its end, with no `$` in the home and in
    -- what `xdg-user-dir` answers: none of the folders offered is, without the slashes at its end, the
    -- home directory, and the portable name of each expands, for this user, to the folder's path.
    pub host_user_resource_dirs-Portable :
        All (Portable user) (host_user_resource_dirs xdg_user_dir is_dir user.home)
    unfolding host_user_resource_dirs
    host_user_resource_dirs-Portable = map-Portable resource_dirs resource_dirs-IsFolder

-- ===== src/Desktop/ResourceDirs.antt =====
-- crates/core/src/desktop.rs: the host's folders for downloads, documents and so on, and their portable
-- names. What `xdg-user-dir` answers and whether a path is a folder are arguments.
pub mod Portable
use easytidy.Prelude.{
  ℕ, ◌+◌, Bool, false, not, ◌&&◌, ◌||◌, ◌==◌, leb, Option, none, some, List, [], ◌∷◌, ◌++◌, map,
  if◌then◌else◌,
}
use easytidy.Text.{Text, codes, is_empty, text_eq, strip_prefix, trim_end_char}

pub record XdgUserDir : Type 0 where
  pub key : Text
  pub folder : Text
  pub host_path : Text
  pub host_path_expr : Text
  pub exists : Bool

abbrev pub begins : ℕ → Text → Bool
begins c [] = false
begins c (x ∷ xs) = x == c

abbrev pub ends_in : ℕ → Text → Bool
ends_in c [] = false
ends_in c (x ∷ []) = x == c
ends_in c (x ∷ (y ∷ s)) = ends_in c (y ∷ s)

-- `Path::join`: an absolute path replaces the base; a separator is added where there is none.
unfoldable pub path_join : Text → Text → Text
path_join base name =
    if begins b'/' name || is_empty base
    then name
    else if ends_in b'/' base
    then base ++ name
    else base ++ (b'/' ∷ name)

unfoldable pub home_expr : Text → Text → Text
unfolding trim_end_char strip_prefix
home_expr path home = elim (strip_prefix (trim_end_char b'/' home) path) [
  | none ↦ path
  | some rel ↦ if is_empty rel || begins b'/' rel then codes "${HOME}" ++ rel else path
]

unfoldable pub is_bare_home : Text → Text → Bool
unfolding trim_end_char text_eq
is_bare_home p home =
    let norm = trim_end_char b'/' p in not (is_empty norm) && text_eq norm (trim_end_char b'/' home)

unfoldable pub resolve_host_resource_dir : Option Text → Text → Text → Text
unfolding is_bare_home path_join
resolve_host_resource_dir none home folder = path_join home folder
resolve_host_resource_dir (some p) home folder =
    if is_bare_home p home then path_join home folder else p

-- `to_lowercase` on ASCII, which is all that the folders' names hold.
abbrev lowercase : Text → Text
lowercase t = map (λ c. if leb b'A' c && leb c b'Z' then c + 32 else c) t

-- The `DIRS` of the source: the key for `xdg-user-dir` and the folder in the container.
abbrev pub resource_dirs : List (Text × Text)
resource_dirs =
    (codes "DOWNLOAD", codes "Downloads")
    ∷ (codes "DOCUMENTS", codes "Documents")
    ∷ (codes "DESKTOP", codes "Desktop")
    ∷ (codes "MUSIC", codes "Music")
    ∷ (codes "PICTURES", codes "Pictures")
    ∷ (codes "VIDEO", codes "Videos")
    ∷ []

-- The closure that makes one entry.
unfoldable pub resource_dir : (Text → Option Text) → (Text → Bool) → Text → Text × Text → XdgUserDir
unfolding resolve_host_resource_dir home_expr
resource_dir xdg_user_dir is_dir home (xdg_key, folder) =
    let host_path = resolve_host_resource_dir (xdg_user_dir xdg_key) home folder in
    record {
      key = lowercase folder;
      folder = folder;
      host_path = host_path;
      host_path_expr = home_expr host_path home;
      exists = is_dir host_path;
    }

-- `home` is the home directory, or `/` where there is none.
unfoldable pub host_user_resource_dirs :
    (Text → Option Text) → (Text → Bool) → Text → List XdgUserDir
unfolding resource_dir
host_user_resource_dirs xdg_user_dir is_dir home =
    map (resource_dir xdg_user_dir is_dir home) resource_dirs

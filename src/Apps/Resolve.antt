-- ===== src/Apps/Resolve.antt =====
-- The applications of a scan and the references to them.
use easytidy.Prelude.{◌≡◌, refl, arith, Bool, false, some, List, [], ◌∷◌}
use easytidy.Lists.{any, find}
use easytidy.Text.{Text, text_eq}
use easytidy.Text.Split.{text_eq_iff}
use easytidy.Apps.{AppInfo, File, dedup_from, dedup_by_id, resolve_app}

abbrev of_id : Text → AppInfo → Bool
of_id j a = text_eq a.id j

find-dedup_from :
    (j : Text) (seen : List Text) (apps : List AppInfo)
    → any (text_eq j) seen ≡ false
    → find (of_id j) (dedup_from seen apps) ≡ find (of_id j) apps
unfolding find dedup_from any
find-dedup_from j seen [] h = refl
find-dedup_from j seen (a ∷ apps) h = ground (
  arith,
  find-dedup_from j seen apps h,
  find-dedup_from j (a.id ∷ seen) apps,
  text_eq_iff j a.id,
  text_eq_iff a.id j,
)

-- A reference that is the id of a scanned application finds the first application of the scan with
-- that id, also where the scan had it more than once, whatever names and applications of the user's
-- own there are.
pub resolve_app-first :
    (ref : Text) (apps : List AppInfo) (a : AppInfo) (file : File)
    → find (of_id ref) apps ≡ some a
    → resolve_app ref (dedup_by_id apps) file ≡ some (a.id, a.name, a.exec)
unfolding resolve_app dedup_by_id
resolve_app-first ref apps a file h = ground (arith, h, find-dedup_from ref [] apps refl)

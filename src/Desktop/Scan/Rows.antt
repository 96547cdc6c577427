-- ===== src/Desktop/Scan/Rows.antt =====
-- The rows that `scan_desktop_icons` gives.
pub mod Upsert
use easytidy.Prelude.{
  Bool, true, false, Bool-cases, inl, inr, ◌&&◌, ◌≡◌, Option, none, some, List, ◌∷◌, ◌++◌, arith,
}
use easytidy.Lists.{any}
use easytidy.Text.{Text, text_eq}
use easytidy.Text.Order.{text_lt, text_lt_trans, text_lt-total}
use easytidy.Text.Split.{text_eq_iff, text_eq_refl}
use easytidy.Desktop.Folders.{File}
use easytidy.Desktop.Scan.Listing.{lists, is_from, Own}
use easytidy.Desktop.Scan.{Kind, entry, app, DesktopIconEntry}
use easytidy.Desktop.Scan.Rows.Upsert.{has_row}

abbrev pub IsKind : Kind → Text → Text → Option Text → Type 0
IsKind entry identity container none = identity ≡ container
IsKind entry identity container (some aid) = ◌≡◌ {A = Bool} true false
IsKind app identity container none = ◌≡◌ {A = Bool} true false
IsKind app identity container (some aid) = identity ≡ container ++ (b'/' ∷ aid)

-- The identity is that of the kind, and the paths are of files that list it.
abbrev pub IsRow : List File → List File → DesktopIconEntry → Type 0
IsRow apps desk r =
    IsKind r.kind r.identity r.container r.app_id
    × (is_from apps r.identity r.menu_path ≡ true)
    × (is_from desk r.identity r.desktop_path ≡ true)

-- Each identity that the file lists has a row with a path there.
abbrev pub HasRow : Bool → List DesktopIconEntry → File → Type 0
HasRow b rows f = (t : Text) → lists t f ≡ true → has_row b t rows ≡ true

-- What a row of a file needs where it is placed.
abbrev Fits : Bool → List File → List File → File → Type 0
Fits true apps desk f = Own desk f
Fits false apps desk f = Own apps f

-- ===== src/Config/Params/Reading.antt =====
-- How the fields of `ContainerParams` are read, one after the other.
use easytidy.Prelude.{
  ℕ, flatten, ◌≡◌, refl, sym, ap, ◌∙◌, Bool, true, false, Option, none, some, List, [], ◌∷◌, ◌++◌,
}
use easytidy.Lists.{All}
use easytidy.Text.{Text}
use easytidy.Config.{ContainerParams, Serde, IsU32, IsMapping, IsPort}
use easytidy.Config.Format.{Result, ok, err, ◌>>=◌}
use easytidy.Config.Mode.{GuiMode, direct, bypass, as_str, visit_mode-as_str}
use easytidy.Config.Params.{
  Fields, read, null_to_empty_vec, or_default, given, unless_empty, if_set, unless_none,
  encode_mode, decode_mode, visit_entry, visit_entries,
}

abbrev pub OnSome : {A : Type 0} → (A → Type 0) → Option A → Type 0
OnSome P none = Unit {0}
OnSome P (some a) = P a

-- Numbers in the range of their types.
pub record Fits (p : ContainerParams) : Type 0 where
  pub ports : All IsPort p.network.ports
  pub uidmaps : All IsMapping p.uidmaps
  pub gidmaps : All IsMapping p.gidmaps
  pub user_uid : OnSome IsU32 p.user_uid
  pub user_gid : OnSome IsU32 p.user_gid

abbrev pub maps : {A B : Type 0} → (A → B) → Option A → Option B
maps w none = none
maps w (some a) = some (w a)

read-fresh :
    {A : Type 0} (name : Text) (old value : Option A) (put : A → Fields) {a : A}
    → old ≡ none
    → value ≡ some a
    → read name old value put ≡ ok (put a)
read-fresh name old value put h k = rw (h, k) refl

module _ (s : Serde) where
  visit-append :
      (xs ys : List (Text × s.Value)) (f : Fields)
      → visit_entries s (xs ++ ys) f ≡ (visit_entries s xs f >>= visit_entries s ys)
  unfolding visit_entries
  visit-append [] ys f = refl
  visit-append ((key, v) ∷ xs) ys f = split (visit_entry s f key v) (λ g. visit-append xs ys g)
    where
      split :
          (r : Result Fields)
          → ((g : Fields)
              → visit_entries s (xs ++ ys) g ≡ (visit_entries s xs g >>= visit_entries s ys))
          → (r >>= visit_entries s (xs ++ ys)) ≡ ((r >>= visit_entries s xs) >>= visit_entries s ys)
      split (ok g) ih = ih g
      split (err e) ih = refl

  -- A list of fields is read one field after the other.
  pub data Run : List (List (Text × s.Value)) → Fields → Fields → Type 0 where
    done : {f : Fields} → Run [] f f
    more :
        {xs : List (Text × s.Value)} {xss : List (List (Text × s.Value))} {f g h : Fields}
        → visit_entries s xs f ≡ ok g
        → Run xss g h
        → Run (xs ∷ xss) f h

  pub Run-visits :
      {xss : List (List (Text × s.Value))} {f h : Fields}
      → Run xss f h
      → visit_entries s (flatten xss) f ≡ ok h
  unfolding visit_entries flatten
  Run-visits done = refl
  Run-visits (more {xs} {xss} {f} a r) =
      visit-append xs (flatten xss) f
      ∙ ap (λ q. q >>= visit_entries s (flatten xss)) a
      ∙ Run-visits r

  -- One field: its key, what is written, how it is read and where it goes.
  module _ {A B : Type 0} (key : Text) (encode : A → s.Value) (wrap : A → B)
      (decode : s.Value → Option B) (get : Fields → Option B) (put : Fields → Option B → Fields)
      (step : (f : Fields) (v : s.Value)
        → visit_entry s f key v ≡ read key (get f) (decode v) (λ x. put f (some x)))
      (same : (f : Fields) → put f (get f) ≡ f) where
    pub visit-given :
        (o : Option A) (f : Fields)
        → get f ≡ none
        → OnSome (λ a. decode (encode a) ≡ some (wrap a)) o
        → visit_entries s (given key encode o) f ≡ ok (put f (maps wrap o))
    unfolding visit_entries
    visit-given none f h k = ap ok (sym (same f) ∙ ap (put f) h)
    visit-given (some a) f h k =
        ap (λ r. r >>= visit_entries s [])
          (step f (encode a) ∙ read-fresh key (get f) (decode (encode a)) (λ x. put f (some x)) h k)

  pub list_read :
      {A : Type 0} (dec : s.Value → Option (Option (List A))) (enc : List A → s.Value) (xs : List A)
      → dec (enc xs) ≡ some (some xs)
      → null_to_empty_vec (dec (enc xs)) ≡ some xs
  list_read dec enc xs e = ap null_to_empty_vec e

  pub unless_empty_read :
      {A : Type 0} (dec : s.Value → Option (Option (List A))) (enc : List A → s.Value) (xs : List A)
      → dec (enc xs) ≡ some (some xs)
      → OnSome (λ ys. null_to_empty_vec (dec (enc ys)) ≡ some ys) (unless_empty xs)
  unless_empty_read dec enc [] e = tt
  unless_empty_read dec enc (x ∷ xs) e = ap null_to_empty_vec e

  pub u32_read :
      (o : Option ℕ)
      → OnSome IsU32 o
      → OnSome (λ n. s.some_u32.decode (s.some_u32.encode n) ≡ some (some n)) o
  u32_read none w = tt
  u32_read (some n) w = s.some_u32.read_back n w

  pub text_read :
      (o : Option Text) → OnSome (λ t. s.some_text.decode (s.some_text.encode t) ≡ some (some t)) o
  text_read none = tt
  text_read (some t) = s.some_text.read_back t tt

  pub flag_read : (b : Bool) → OnSome (λ x. s.bool.decode (s.bool.encode x) ≡ some x) (if_set b)
  flag_read false = tt
  flag_read true = s.bool.read_back true tt

  mode_read : (m : GuiMode) → decode_mode s (encode_mode s m) ≡ some m
  mode_read m = rw (s.text_visits (as_str m), visit_mode-as_str m) refl

  pub active_read :
      (m : GuiMode) → OnSome (λ x. decode_mode s (encode_mode s x) ≡ some x) (unless_none m)
  active_read GuiMode.none = tt
  active_read direct = mode_read direct
  active_read bypass = mode_read bypass

pub list_kept : {A : Type 0} (xs : List A) → or_default (maps (λ ys. ys) (unless_empty xs)) [] ≡ xs
list_kept [] = refl
list_kept (x ∷ xs) = refl

pub option_kept : {A : Type 0} (o : Option A) → or_default (maps (λ a. some a) o) none ≡ o
option_kept none = refl
option_kept (some a) = refl

pub flag_kept : (b : Bool) → or_default (maps (λ x. x) (if_set b)) false ≡ b
flag_kept false = refl
flag_kept true = refl

pub mode_kept : (m : GuiMode) → or_default (maps (λ x. x) (unless_none m)) GuiMode.none ≡ m
mode_kept GuiMode.none = refl
mode_kept direct = refl
mode_kept bypass = refl

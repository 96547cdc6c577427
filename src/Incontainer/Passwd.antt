-- ===== src/Incontainer/Passwd.antt =====
-- What a rewritten /etc/passwd or /etc/group says when it is parsed again.
use easytidy.Prelude.{
  ℕ, suc, ◌≡◌, refl, ap, ◌∙◌, Bool, not, none, some, Option, List, [], ◌∷◌, ◌++◌, sym, inl, inr,
  arith, Bool-cases, ◌==◌, ◌≢◌,
}
use easytidy.Lists.{All-retain, All, All-append, retain}
use easytidy.Text.{
  Text, cons_head, on_fst, Free, codes, split_once, split, splitn, lines, join, decimal, end_lines,
}
use easytidy.Text.Split.{splitn-Free, Free-append}
use easytidy.Text.Lines.{IsLine, lines-join, lines-IsLine}
use easytidy.Text.Decimal.{IsU32, parse_u32-decimal, decimal-Free}
use easytidy.Incontainer.{
  group_text, PasswdLine, GroupLine, field, first_field, parse_passwd_line, parse_passwd,
  parse_group_line, parse_group, passwd_text, listed, opt_list, rewrite_file,
}
use mathlib.Core.List.{filter_map, filter_map-append}

-- A name that can stand in a field of a line.
abbrev pub IsField : Text → Type 0
IsField w = Free b':' w × IsLine w

splitn-passwd_text :
    (name : Text) (uid gid : ℕ) (home shell : Text)
    → Free b':' name
    → Free b':' home
    → IsU32 uid
    → IsU32 gid
    → splitn 7 b':' (passwd_text name uid gid home shell)
      ≡ name ∷ codes "x" ∷ decimal uid ∷ decimal gid ∷ name ∷ home ∷ shell ∷ []
splitn-passwd_text name uid gid home shell hn hh hu hg =
    splitn-Free 5 b':' name _ hn
    ∙ ap (◌∷◌ name) (
        splitn-Free 4 b':' (codes "x") _ (omega arith)
        ∙ ap (◌∷◌ (codes "x")) (
            splitn-Free 3 b':' (decimal uid) _ (decimal-Free b':' uid (inr (omega arith)) hu)
            ∙ ap (◌∷◌ (decimal uid)) (
                splitn-Free 2 b':' (decimal gid) _ (decimal-Free b':' gid (inr (omega arith)) hg)
                ∙ ap (◌∷◌ (decimal gid)) (
                    splitn-Free 1 b':' name _ hn
                    ∙ ap (◌∷◌ name) (splitn-Free 0 b':' home shell hh ∙ unfold splitn in refl)))))

-- The added line is read back as the entry that it was printed from.
pub parse_passwd_line-passwd_text :
    (name : Text) (uid gid : ℕ) (home shell : Text)
    → Free b':' name
    → Free b':' home
    → IsU32 uid
    → IsU32 gid
    → parse_passwd_line (passwd_text name uid gid home shell)
      ≡ some (record { name = name; uid = uid; gid = gid; home = home })
unfolding parse_passwd_line
parse_passwd_line-passwd_text name uid gid home shell hn hh hu hg = rw (
  splitn-passwd_text name uid gid home shell hn hh hu hg,
  parse_u32-decimal uid hu,
  parse_u32-decimal gid hg,
)

cons_head-field : (x : ℕ) (ws : List Text) → field 0 (cons_head x ws) ≡ x ∷ field 0 ws
cons_head-field x [] = refl
cons_head-field x (w ∷ ws) = refl

abbrev before : Text → Option (Text × Text) → Text
before s none = s
before s (some p) = p.0

before-on_fst :
    (x : ℕ) (s : Text) (o : Option (Text × Text)) → before (x ∷ s) (on_fst x o) ≡ x ∷ before s o
before-on_fst x s none = refl
before-on_fst x s (some p) = refl

split-before : (c : ℕ) (s : Text) → field 0 (split c s) ≡ before s (split_once c s)
unfolding split split_once
split-before c [] = refl
split-before c (x ∷ s) = elim (Bool-cases (x == c)) [
  | inl e ↦ rw e
  | inr e ↦
      rw e
        (cons_head-field x (split c s) ∙ ap (◌∷◌ x) (split-before c s) ∙ sym (before-on_fst x s _))
]

splitn-before :
    (n c : ℕ) (s : Text) → field 0 (splitn (suc (suc n)) c s) ≡ before s (split_once c s)
unfolding splitn
splitn-before n c s = ground arith

splitn-first_field : (n : ℕ) (s : Text) → field 0 (splitn (suc (suc n)) b':' s) ≡ first_field s
splitn-first_field n s = splitn-before n b':' s ∙ sym (split-before b':' s)

parse_passwd_line-name :
    (line : Text) {e : PasswdLine} → parse_passwd_line line ≡ some e → e.name ≡ first_field line
unfolding parse_passwd_line
parse_passwd_line-name line h = ground (arith, splitn-first_field 5 line)

parse_group_line-name :
    (line : Text) {e : GroupLine} → parse_group_line line ≡ some e → e.name ≡ first_field line
unfolding parse_group_line
parse_group_line-name line h = ground (arith, splitn-first_field 2 line)

module _ {A : Type 0} (parse : Text → Option A) (name : A → Text)
    (named : (line : Text) (e : A) → parse line ≡ some e → name e ≡ first_field line)
    (skips_empty : parse [] ≡ none) where
  -- Removing lines by their first field removes the parsed entries by their names.
  filter_map-retain :
      (keep : Text → Bool) (ls : List Text)
      → filter_map parse (retain (λ line. keep (first_field line)) ls)
        ≡ retain (λ e. keep (name e)) (filter_map parse ls)
  unfolding retain filter_map
  filter_map-retain keep [] = refl
  filter_map-retain keep (l ∷ ls) = split (parse l) refl (filter_map-retain keep ls)
    where
      split :
          (o : Option A)
          → parse l ≡ o
          → filter_map parse (retain (λ line. keep (first_field line)) ls)
            ≡ retain (λ e. keep (name e)) (filter_map parse ls)
          → filter_map parse (retain (λ line. keep (first_field line)) (l ∷ ls))
            ≡ retain (λ e. keep (name e)) (filter_map parse (l ∷ ls))
      split none e ih = ground (arith, ih)
      split (some a) e ih = ground (arith, ih, named l a e)

  filter_map-lines :
      (ws : List Text)
      → All IsLine ws
      → filter_map parse (lines (join b'\n' ws ++ (b'\n' ∷ []))) ≡ filter_map parse ws
  filter_map-lines [] h = unfold lines split end_lines join filter_map in rw skips_empty
  filter_map-lines (w ∷ ws) h = rw (lines-join w ws h)

  -- The parsed content of a rewritten file.
  filter_map-rewrite_file :
      (original : Text) (removed : List Text) (add : Option Text)
      → Free b'\r' original
      → All IsLine (opt_list add)
      → filter_map parse (lines (rewrite_file original removed add))
        ≡ retain (λ e. not (listed removed (name e))) (filter_map parse (lines original))
          ++ filter_map parse (opt_list add)
  unfolding rewrite_file
  filter_map-rewrite_file original removed add cr ok =
      filter_map-lines _
        (All-append IsLine _ _ (All-retain IsLine _ _ (lines-IsLine original cr)) ok)
      ∙ filter_map-append parse _ (opt_list add)
      ∙ ap (λ (es : List A). es ++ filter_map parse (opt_list add))
          (filter_map-retain (λ n. not (listed removed n)) (lines original))

-- Parsing a rewritten /etc/passwd gives the old entries less the removed names, and the added one.
pub parse_passwd-rewrite_file :
    (original : Text) (removed : List Text) (add : Option Text)
    → Free b'\r' original
    → All IsLine (opt_list add)
    → parse_passwd (rewrite_file original removed add)
      ≡ retain (λ (e : PasswdLine). not (listed removed e.name)) (parse_passwd original)
        ++ filter_map parse_passwd_line (opt_list add)
unfolding parse_passwd
parse_passwd-rewrite_file =
    filter_map-rewrite_file parse_passwd_line (λ e. e.name) (λ line e. parse_passwd_line-name line)
      (unfold parse_passwd_line splitn in refl)

pub parse_group-rewrite_file :
    (original : Text) (removed : List Text) (add : Option Text)
    → Free b'\r' original
    → All IsLine (opt_list add)
    → parse_group (rewrite_file original removed add)
      ≡ retain (λ (g : GroupLine). not (listed removed g.name)) (parse_group original)
        ++ filter_map parse_group_line (opt_list add)
unfolding parse_group
parse_group-rewrite_file =
    filter_map-rewrite_file parse_group_line (λ g. g.name) (λ line e. parse_group_line-name line)
      (unfold parse_group_line splitn in refl)

pub parse_group_line-group_text :
    (name : Text) (gid : ℕ)
    → Free b':' name
    → IsU32 gid
    → parse_group_line (group_text name gid) ≡ some (record { name = name; gid = gid })
unfolding parse_group_line splitn
parse_group_line-group_text name gid hn hg = rw (
  splitn-Free 2 b':' name _ hn,
  splitn-Free 1 b':' (codes "x") _ (omega arith),
  splitn-Free 0 b':' (decimal gid) [] (decimal-Free b':' gid (inr (omega arith)) hg),
  parse_u32-decimal gid hg,
)

Free-colon : (c : ℕ) (a b : Text) → b':' ≢ c → Free c a → Free c b → Free c (a ++ (b':' ∷ b))
Free-colon c a b h k l = Free-append c a _ k (h, l)

Free-passwd_text :
    (c : ℕ) (name : Text) (uid gid : ℕ) (home shell : Text)
    → b':' ≢ c
    → b'x' ≢ c
    → Free c name
    → Free c (decimal uid)
    → Free c (decimal gid)
    → Free c home
    → Free c shell
    → Free c (passwd_text name uid gid home shell)
Free-passwd_text c name uid gid home shell hc hx hn hu hg hh hs = Free-colon c name _ hc hn (
  hx,
  (
    hc,
    Free-colon c (decimal uid) _ hc hu (
        Free-colon c (decimal gid) _ hc hg
          (Free-colon c name _ hc hn (Free-colon c home _ hc hh hs))),
  ),
)

-- The added line is one line.
pub passwd_text-IsLine :
    (name : Text) (uid gid : ℕ) (home shell : Text)
    → IsField name
    → IsField home
    → IsLine shell
    → IsU32 uid
    → IsU32 gid
    → IsLine (passwd_text name uid gid home shell)
passwd_text-IsLine name uid gid home shell hn hh hs hu hg = (
  Free-passwd_text b'\n' name uid gid home shell (omega arith) (omega arith) hn.1.0
      (decimal-Free b'\n' uid (inl (omega arith)) hu)
      (decimal-Free b'\n' gid (inl (omega arith)) hg) hh.1.0 hs.0,
  Free-passwd_text b'\r' name uid gid home shell (omega arith) (omega arith) hn.1.1
      (decimal-Free b'\r' uid (inl (omega arith)) hu)
      (decimal-Free b'\r' gid (inl (omega arith)) hg) hh.1.1 hs.1,
)

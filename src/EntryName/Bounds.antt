-- ===== src/EntryName/Bounds.antt =====
-- Which names `_alpm_splitname` reads within their bounds, and what it makes of them.
use dulge.Base.{
  ℕ, suc, ◌≡◌, ◌≢◌, refl, ap, ◌∙◌, Bool, true, false, not, Option, none, some, [], ◌∷◌, ◌++◌, Str,
  ltb, ◌==◌, arith, if◌then◌else◌,
}
use dulge.EntryName.{Split, split, outside, entry_text, at_version, at_release, splitname}
use dulge.Package.{hash_sdbm}
use dulge.Version.{cut_front, split_last}
use dulge.Version.Parse.{All, Without, take_while-append, take_while-All, split_last_at}

abbrev pub hyphens : Str → ℕ
hyphens [] = 0
hyphens (c ∷ s) = let rest = hyphens s in if c == b'-' then suc rest else rest

abbrev pub is_outside : Split → Bool
is_outside outside = true
is_outside _ = false

-- The hyphens of a string that has been cut at its last one.
abbrev Cut : Str → Str × Option Str → Type 0
Cut s (before, none) = hyphens s ≡ 0
Cut s (before, some after) = hyphens s ≡ suc (hyphens before)

split_last-Cut : (s : Str) → Cut s (split_last b'-' s)
unfolding split_last cut_front
split_last-Cut [] = refl
split_last-Cut (c ∷ s) = by (split_last b'-' s) (split_last-Cut s)
  where
    tested :
        (before : Str) (b : Bool)
        → (c == b'-') ≡ b
        → hyphens s ≡ 0
        → Cut (c ∷ s) (if b then ([], some s) else (c ∷ before, none))
    tested before true e h = ground arith
    tested before false e h = ground arith

    by : (r : Str × Option Str) → Cut s r → Cut (c ∷ s) (cut_front b'-' c s r)
    by (before, some after) h = ground arith
    by (before, none) h = tested before (c == b'-') refl h

-- The loops of `_alpm_splitname` leave the string, and read in front of it, exactly if there are
-- fewer than two hyphens in front of the first slash.
pub splitname-hyphens :
    (target : Str) → is_outside (splitname target) ≡ ltb (hyphens (entry_text target)) 2
unfolding splitname
splitname-hyphens target =
    let text = entry_text target in first text (split_last b'-' text) (split_last-Cut text)
  where
    second :
        (text before release : Str) (r : Str × Option Str)
        → hyphens text ≡ suc (hyphens before)
        → Cut before r
        → is_outside (at_version release r) ≡ ltb (hyphens text) 2
    second text before release (name, none) e h = ground arith
    second text before release ([], some version) e h = ground arith
    second text before release (c ∷ name, some version) e h = ground arith

    first :
        (text : Str) (r : Str × Option Str)
        → Cut text r
        → is_outside (at_release r) ≡ ltb (hyphens text) 2
    first text (before, none) h = ground arith
    first text (before, some release) h =
        second text before release (split_last b'-' before) h (split_last-Cut before)

-- What may stand behind an entry's name: nothing, or a slash and anything.
pub data IsRest : Str → Type 0 where
  nothing : IsRest []
  slash : (file : Str) → IsRest (b'/' ∷ file)

All-append : (p : ℕ → Bool) (s r : Str) → All p s → All p r → All p (s ++ r)
All-append p [] r h k = k
All-append p (c ∷ s) r h k = (h.0, All-append p s r h.1 k)

-- `_alpm_splitname` recovers the name, with its hash, and the version of name-version-release, with
-- or without a slash and a file behind it: for a name that is not empty, a version and a release
-- without a hyphen, and no slash in any of the three.
pub splitname-parts :
    (name version release rest : Str)
    → name ≢ []
    → Without b'-' version
    → Without b'-' release
    → All (λ c. not (c == b'/')) name
    → All (λ c. not (c == b'/')) version
    → All (λ c. not (c == b'/')) release
    → IsRest rest
    → splitname (((name ++ b'-' ∷ version) ++ b'-' ∷ release) ++ rest)
      ≡ split name (version ++ b'-' ∷ release) (hash_sdbm name)
unfolding splitname
splitname-parts name version release rest n v r a b c e =
    let full = (name ++ b'-' ∷ version) ++ b'-' ∷ release in
    let clean : All (λ c. not (c == b'/')) full =
      All-append _ (name ++ b'-' ∷ version) (b'-' ∷ release)
        (All-append _ name (b'-' ∷ version) a (refl, b)) (refl, c) in
    ap (λ t. at_release (split_last b'-' t)) (text full rest clean e)
    ∙ (ap at_release (split_last_at b'-' (name ++ b'-' ∷ version) release r)
        ∙ (ap (at_version release) (split_last_at b'-' name version v) ∙ named name n))
  where
    append_nil : (s : Str) → s ++ [] ≡ s
    append_nil [] = refl
    append_nil (c ∷ s) = ap (λ t. c ∷ t) (append_nil s)

    text :
        (full r : Str) → All (λ c. not (c == b'/')) full → IsRest r → entry_text (full ++ r) ≡ full
    text full r h nothing = ap entry_text (append_nil full) ∙ take_while-All _ full h
    text full r h (slash file) = take_while-append _ b'/' refl full file h

    named :
        (name : Str)
        → name ≢ []
        → at_version release (name, some version)
          ≡ split name (version ++ b'-' ∷ release) (hash_sdbm name)
    named [] n = absurd (n refl)
    named (c ∷ name) n = refl

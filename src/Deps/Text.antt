-- ===== src/Deps/Text.antt =====
-- `alpm_dep_from_string` on the text of `alpm_dep_compute_string`.
use dulge.Base.{ℕ, ◌≡◌, refl, Option, none, some, [], ◌∷◌, ◌++◌, Str, ◌==◌, ==_iff, arith, not-true}
use mathlib.Core.List.{append_assoc, append-nil}
use dulge.Package.{DepMod, mod_any, mod_eq, mod_ge, mod_le, mod_gt, mod_lt, Depend, hash_sdbm}
use dulge.Deps.{
  cut_desc, split_first, or_equal, parse_mod, dep_from_string, opr, version_text, desc_text,
  dep_compute_string,
}
use dulge.Version.Parse.{Without}

-- No comparator and no space.
pub record IsPlain (s : Str) : Type 0 where
  pub lt : Without b'<' s
  pub gt : Without b'>' s
  pub eq : Without b'=' s
  pub space : Without b' ' s

-- A dependency as the library holds it: a name and a version of plain characters, a version
-- exactly if there is a comparator, and the hash of the name.
abbrev pub HasVersion : DepMod → Option Str → Type 0
HasVersion mod_any none = Unit
HasVersion mod_any (some version) = ⊥
HasVersion dep_mod none = ⊥
HasVersion dep_mod (some version) = IsPlain version

pub record IsWellFormed (d : Depend) : Type 0 where
  pub name : IsPlain d.name
  pub version : HasVersion d.dep_mod d.version
  pub hashed : d.name_hash ≡ hash_sdbm d.name

cut_desc-none : (s : Str) → Without b' ' s → cut_desc s ≡ (s, none)
unfolding cut_desc
cut_desc-none [] h = refl
cut_desc-none (c ∷ []) h = refl
cut_desc-none (c ∷ d ∷ s) h = ground (arith, cut_desc-none (d ∷ s) h.1, not-true (d == b' ') h.1.0)

cut_desc-some : (s d : Str) → Without b' ' s → cut_desc (s ++ b':' ∷ b' ' ∷ d) ≡ (s, some d)
unfolding cut_desc
cut_desc-some [] d h = refl
cut_desc-some (c ∷ []) d h = ground arith
cut_desc-some (c ∷ e ∷ s) d h =
    ground (arith, cut_desc-some (e ∷ s) d h.1, not-true (e == b' ') h.1.0)

split_first-none : (c : ℕ) (s : Str) → Without c s → split_first c s ≡ none
unfolding split_first
split_first-none c [] h = refl
split_first-none c (x ∷ s) h = rw (not-true (x == c) h.0, split_first-none c s h.1)

pub split_first_at : (c : ℕ) (s r : Str) → Without c s → split_first c (s ++ c ∷ r) ≡ some (s, r)
unfolding split_first
split_first_at c [] r h = rw ((==_iff c c).1 refl)
split_first_at c (x ∷ s) r h = rw (not-true (x == c) h.0, split_first_at c s r h.1)

Without-append : (c : ℕ) (s r : Str) → Without c s → Without c r → Without c (s ++ r)
Without-append c [] r h k = k
Without-append c (x ∷ s) r h k = (h.0, Without-append c s r h.1 k)

-- The version of a strict comparator does not start with an equals sign.
or_equal_plain :
    (strict weak : DepMod) (name version : Str)
    → Without b'=' version
    → or_equal strict weak (name, version) ≡ (name, strict, some version)
unfolding or_equal
or_equal_plain strict weak name [] h = refl
or_equal_plain strict weak name (c ∷ version) h = rw (not-true (c == b'=') h.0)

-- The text before the description.
abbrev body : Str → DepMod → Option Str → Str
body name dep_mod version = name ++ (opr dep_mod ++ version_text dep_mod version)

parse_mod_plain : (name : Str) → IsPlain name → parse_mod name ≡ (name, mod_any, none)
unfolding parse_mod
parse_mod_plain name p = rw (
  split_first-none b'<' name p.lt,
  split_first-none b'>' name p.gt,
  split_first-none b'=' name p.eq,
  parse_mod,
)

parse_mod-body :
    (name : Str) (dep_mod : DepMod) (version : Option Str)
    → IsPlain name
    → HasVersion dep_mod version
    → parse_mod (body name dep_mod version) ≡ (name, dep_mod, version)
unfolding parse_mod or_equal
parse_mod-body name mod_any none p h = rw append-nil (parse_mod_plain name p)
parse_mod-body name mod_any (some v) p h = absurd h
parse_mod-body name mod_lt none p h = absurd h
parse_mod-body name mod_lt (some v) p h =
    rw (split_first_at b'<' name v p.lt, parse_mod) (or_equal_plain mod_lt mod_le name v h.eq)
parse_mod-body name mod_le none p h = absurd h
parse_mod-body name mod_le (some v) p h = rw (split_first_at b'<' name (b'=' ∷ v) p.lt, parse_mod)
parse_mod-body name mod_gt none p h = absurd h
parse_mod-body name mod_gt (some v) p h =
    rw
      (
        split_first-none b'<' _ (Without-append b'<' name (b'>' ∷ v) p.lt (refl, h.lt)),
        split_first_at b'>' name v p.gt,
        parse_mod,
      )
      (or_equal_plain mod_gt mod_ge name v h.eq)
parse_mod-body name mod_ge none p h = absurd h
parse_mod-body name mod_ge (some v) p h = rw (
  split_first-none b'<' _ (Without-append b'<' name (b'>' ∷ b'=' ∷ v) p.lt (refl, (refl, h.lt))),
  split_first_at b'>' name (b'=' ∷ v) p.gt,
  parse_mod,
)
parse_mod-body name mod_eq none p h = absurd h
parse_mod-body name mod_eq (some v) p h = rw (
  split_first-none b'<' _ (Without-append b'<' name (b'=' ∷ v) p.lt (refl, h.lt)),
  split_first-none b'>' _ (Without-append b'>' name (b'=' ∷ v) p.gt (refl, h.gt)),
  split_first_at b'=' name v p.eq,
  parse_mod,
)

body-space :
    (name : Str) (dep_mod : DepMod) (version : Option Str)
    → IsPlain name
    → HasVersion dep_mod version
    → Without b' ' (body name dep_mod version)
body-space name mod_any none p h = Without-append b' ' name [] p.space tt
body-space name mod_any (some v) p h = absurd h
body-space name mod_lt none p h = absurd h
body-space name mod_lt (some v) p h = Without-append b' ' name (b'<' ∷ v) p.space (refl, h.space)
body-space name mod_le none p h = absurd h
body-space name mod_le (some v) p h =
    Without-append b' ' name (b'<' ∷ b'=' ∷ v) p.space (refl, (refl, h.space))
body-space name mod_gt none p h = absurd h
body-space name mod_gt (some v) p h = Without-append b' ' name (b'>' ∷ v) p.space (refl, h.space)
body-space name mod_ge none p h = absurd h
body-space name mod_ge (some v) p h =
    Without-append b' ' name (b'>' ∷ b'=' ∷ v) p.space (refl, (refl, h.space))
body-space name mod_eq none p h = absurd h
body-space name mod_eq (some v) p h = Without-append b' ' name (b'=' ∷ v) p.space (refl, h.space)

cut_desc-text :
    (s : Str) (desc : Option Str) → Without b' ' s → cut_desc (s ++ desc_text desc) ≡ (s, desc)
cut_desc-text s none h = rw (append-nil) (cut_desc-none s h)
cut_desc-text s (some d) h = cut_desc-some s d h

-- `alpm_dep_from_string` reads back the text that `alpm_dep_compute_string` writes for a
-- dependency, epoch and description included. The name and the version hold no space and none of
-- the characters of a comparator, there is a version exactly if there is a comparator, and the
-- hash is that of the name.
pub dep_from_string-compute_string :
    (d : Depend) → IsWellFormed d → dep_from_string (dep_compute_string d) ≡ d
unfolding dep_from_string dep_compute_string
dep_from_string-compute_string d w =
    let text : d.name ++ (opr d.dep_mod ++ (version_text d.dep_mod d.version ++ desc_text d.desc))
        ≡ body d.name d.dep_mod d.version ++ desc_text d.desc =
      simp append_assoc in
    rw (
      text,
      cut_desc-text _ d.desc (body-space d.name d.dep_mod d.version w.name w.version),
      parse_mod-body d.name d.dep_mod d.version w.name w.version,
      ← w.hashed,
    )

-- ===== src/Deps/Form.antt =====
-- The text form of a dependency, lib/libalpm/deps.c.
use dulge.Base.{ℕ, ◌&&◌, Option, none, some, [], ◌∷◌, ◌++◌, Str, ◌==◌, if◌then◌else◌}
use dulge.Package.{DepMod, mod_any, mod_eq, mod_ge, mod_le, mod_gt, mod_lt, Depend, hash_sdbm}
use dulge.Deps.Satisfy.{is_any}

-- `strstr(depstring, ": ")`: what stands before and behind the first such place.
unfoldable pub push : ℕ → Str × Option Str → Str × Option Str
push c (before, after) = (c ∷ before, after)

unfoldable pub cut_desc : Str → Str × Option Str
unfolding push
cut_desc [] = ([], none)
cut_desc (c ∷ []) = (c ∷ [], none)
cut_desc (c ∷ d ∷ s) =
    let rest = push c (cut_desc (d ∷ s)) in if c == b':' && d == b' ' then ([], some s) else rest

-- `memchr`: what stands before and behind the first such character.
unfoldable pub split_first : ℕ → Str → Option (Str × Str)
split_first c [] = none
split_first c (x ∷ s) =
    let rest : Option (Str × Str) = elim (split_first c s) [
      | none ↦ none
      | some (before, after) ↦ some (x ∷ before, after)
    ] in
    if x == c then some ([], s) else rest

-- A comparator that may be followed by an equals sign.
unfoldable pub or_equal : DepMod → DepMod → Str × Str → Str × DepMod × Option Str
or_equal strict weak (name, []) = (name, strict, some [])
or_equal strict weak (name, c ∷ version) =
    if c == b'=' then (name, weak, some version) else (name, strict, some (c ∷ version))

-- The name, the comparator and the version in the text before the description.
unfoldable pub parse_mod : Str → Str × DepMod × Option Str
unfolding split_first or_equal
parse_mod body = elim (split_first b'<' body) [
  | some p ↦ or_equal mod_lt mod_le p
  | none ↦ elim (split_first b'>' body) [
    | some p ↦ or_equal mod_gt mod_ge p
    | none ↦ elim (split_first b'=' body) [
      | some (name, version) ↦ (name, mod_eq, some version)
      | none ↦ (body, mod_any, none)
    ]
  ]
]

-- `alpm_dep_from_string`
unfoldable pub dep_from_string : Str → Depend
unfolding cut_desc parse_mod
dep_from_string depstring =
    let (body, desc) = cut_desc depstring in
    let (name, dep_mod, version) = parse_mod body in
    record {
      name = name;
      version = version;
      desc = desc;
      name_hash = hash_sdbm name;
      dep_mod = dep_mod;
    }

abbrev pub opr : DepMod → Str
opr mod_any = []
opr mod_ge = b'>' ∷ b'=' ∷ []
opr mod_le = b'<' ∷ b'=' ∷ []
opr mod_eq = b'=' ∷ []
opr mod_lt = b'<' ∷ []
opr mod_gt = b'>' ∷ []

abbrev pub version_text : DepMod → Option Str → Str
version_text dep_mod none = []
version_text dep_mod (some version) = if is_any dep_mod then [] else version

abbrev pub desc_text : Option Str → Str
desc_text none = []
desc_text (some desc) = b':' ∷ b' ' ∷ desc

-- `alpm_dep_compute_string`
unfoldable pub dep_compute_string : Depend → Str
dep_compute_string dep =
    dep.name ++ (opr dep.dep_mod ++ (version_text dep.dep_mod dep.version ++ desc_text dep.desc))

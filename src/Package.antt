-- ===== src/Package.antt =====
-- Packages and dependencies (lib/libalpm/package.h, lib/libalpm/alpm.h) and the hash of their names
-- (`_alpm_hash_sdbm` in lib/libalpm/util.c). A field that no modelled function reads is left out.
use dulge.Base.{
  ℕ, ◌+◌, ◌-◌, ◌*◌, ◌%◌, ◌^◌, Ordering, Bool, ◌&&◌, Option, none, some, List, [], ◌∷◌, Str, ltb,
  ◌==◌, if◌then◌else◌, strcmp, str_eq,
}

-- `alpm_depmod_t`
pub data DepMod : Type 0 where
  mod_any mod_eq mod_ge mod_le mod_gt mod_lt : DepMod

-- `alpm_depend_t`; a null string is `none`.
pub record Depend : Type 0 where
  pub name : Str
  pub version : Option Str
  pub desc : Option Str
  pub name_hash : ℕ
  pub dep_mod : DepMod

-- `alpm_pkgreason_t`
pub data Reason : Type 0 where
  explicit_reason depend_reason unknown_reason : Reason

-- `alpm_pkg_t`; `addr` is the address of the object, by which pointers to it are compared.
pub record Pkg : Type 0 where
  pub addr : ℕ
  pub name : Str
  pub version : Str
  pub name_hash : ℕ
  pub arch : Option Str
  pub reason : Reason
  pub groups : List Str
  pub depends : List Depend
  pub conflicts : List Depend
  pub provides : List Depend
  pub replaces : List Depend

-- The value of a `char` that is read into an `int`, and added to an `unsigned long` of 64 bits:
-- `char` is signed.
abbrev pub char_value : ℕ → ℕ
char_value c = if ltb c 128 then c else 2 ^ 64 + c - 256

-- The loop of `_alpm_hash_sdbm`.
unfoldable pub sdbm_from : ℕ → Str → ℕ
sdbm_from hash [] = hash
sdbm_from hash (c ∷ str) = sdbm_from ((char_value c + hash * 65599) % 2 ^ 64) str

unfoldable pub hash_sdbm : Str → ℕ
unfolding sdbm_from
hash_sdbm str = sdbm_from 0 str

-- The test of the code for one name: the hashes first, then the strings.
abbrev pub same_name : ℕ → Str → ℕ → Str → Bool
same_name hash name hash' name' = hash == hash' && str_eq name name'

-- `_alpm_pkg_cmp`
unfoldable pub pkg_cmp : Pkg → Pkg → Ordering
pkg_cmp p q = strcmp p.name q.name

-- `alpm_pkg_find`
unfoldable pub pkg_find_hashed : List Pkg → ℕ → Str → Option Pkg
pkg_find_hashed [] hash needle = none
pkg_find_hashed (info ∷ lp) hash needle =
    if same_name info.name_hash info.name hash needle
    then some info
    else pkg_find_hashed lp hash needle

unfoldable pub pkg_find : List Pkg → Str → Option Pkg
unfolding pkg_find_hashed
pkg_find haystack needle = pkg_find_hashed haystack (hash_sdbm needle) needle

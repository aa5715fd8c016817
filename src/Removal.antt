-- ===== src/Removal.antt =====
-- The targets of a removal, lib/libalpm/remove.c: `alpm_remove_pkg` and `_alpm_remove_prepare` with
-- its two loops. The copy of a package does not fail and is the package; the notices of optional
-- dependencies and the events are left out. Taking files off the disk is not modelled.
pub mod Rounds
pub mod Measure
pub mod Safe
mod Tests
use dulge.AlpmList
use dulge.Base.{
  ℕ, zero, suc, Bool, true, false, not, ◌&&◌, Option, none, some, List, [], ◌∷◌, Str, length,
  if◌then◌else◌,
}
use dulge.Deps.{DepHandle, DepMissing, checkdeps, found, recursedeps}
use dulge.Package.{Pkg, pkg_cmp, pkg_find}

-- What a removal reads of the local database: the package cache as a list, and the lookup of a name
-- in its table, `_alpm_db_get_pkgfromcache`.
pub record Db : Type 0 where
  pub pkgcache : List Pkg
  pub pkgfromcache : Str → Option Pkg

-- The bits of `alpm_transflag_t` that a removal reads, besides that in `DepHandle`.
pub record Flags : Type 0 where
  pub nodeps : Bool
  pub cascade : Bool
  pub recurse : Bool
  pub recurse_all : Bool
  pub unneeded : Bool

-- The list `trans->remove` after `alpm_remove_pkg` passed its checks.
unfoldable pub remove_pkg : List Pkg → Pkg → List Pkg
remove_pkg remove pkg = if found (pkg_find remove pkg.name) then remove else AlpmList.add remove pkg

-- One round of the inner loop of `remove_prepare_cascade`.
unfoldable pub pull : Db → List Pkg → DepMissing → List Pkg
pull db remove miss = elim (db.pkgfromcache miss.target) [
  | none ↦ remove
  | some info ↦ if found (pkg_find remove info.name) then remove else AlpmList.add remove info
]

unfoldable pub pull_all : Db → List Pkg → List DepMissing → List Pkg
unfolding pull
pull_all db remove [] = remove
pull_all db remove (miss ∷ i) = pull_all db (pull db remove miss) i

-- What both loops check again.
abbrev pub broken_by : DepHandle → Db → List Pkg → List DepMissing
broken_by handle db remove = checkdeps handle db.pkgcache remove [] true

-- `remove_prepare_cascade`
unfoldable pub cascade : ℕ → DepHandle → Db → List Pkg → List DepMissing → Option (List Pkg)
unfolding pull_all
cascade fuel handle db remove [] = some remove
cascade zero handle db remove (miss ∷ lp) = none
cascade (suc fuel) handle db remove (miss ∷ lp) =
    let remove' = pull_all db remove (miss ∷ lp) in
    cascade fuel handle db remove' (broken_by handle db remove')

-- One round of the inner loop of `remove_prepare_keep_needed`; no package has the null name.
unfoldable pub drop : List Pkg → DepMissing → List Pkg
drop remove miss = elim miss.causingpkg [
  | none ↦ remove
  | some name ↦ elim (pkg_find remove name) [
    | none ↦ remove
    | some pkg ↦ (AlpmList.remove pkg_cmp remove pkg).0
  ]
]

unfoldable pub drop_all : List Pkg → List DepMissing → List Pkg
unfolding drop
drop_all remove [] = remove
drop_all remove (miss ∷ i) = drop_all (drop remove miss) i

-- `remove_prepare_keep_needed`
unfoldable pub keep_needed : ℕ → DepHandle → Db → List Pkg → List DepMissing → Option (List Pkg)
unfolding drop_all
keep_needed fuel handle db remove [] = some remove
keep_needed zero handle db remove (miss ∷ lp) = none
keep_needed (suc fuel) handle db remove (miss ∷ lp) =
    let remove' = drop_all remove (miss ∷ lp) in
    keep_needed fuel handle db remove' (broken_by handle db remove')

-- The new target list, or the error ALPM_ERR_UNSATISFIED_DEPS with what `*data` points to.
pub data Prepared : Type 0 where
  prepared : List Pkg → Prepared
  unsatisfied_deps : List DepMissing → Prepared

abbrev pub as_prepared : Option (List Pkg) → Option Prepared
as_prepared none = none
as_prepared (some remove) = some (prepared remove)

-- The check of dependencies. A round of the cascade pulls a package of the cache, and a round of the
-- other loop drops a target.
unfoldable pub check_removal : Flags → DepHandle → Db → List Pkg → List DepMissing → Option Prepared
unfolding cascade keep_needed
check_removal flags handle db remove [] = some (prepared remove)
check_removal flags handle db remove (miss ∷ lp) =
    if flags.cascade
    then as_prepared (cascade (suc (length db.pkgcache)) handle db remove (miss ∷ lp))
    else if flags.unneeded
    then as_prepared (keep_needed (suc (length remove)) handle db remove (miss ∷ lp))
    else some (unsatisfied_deps (miss ∷ lp))

-- "-Rcs == -Rc then -Rs"
abbrev pub then_recurse : Flags → Db → Prepared → Prepared
then_recurse flags db (unsatisfied_deps lp) = unsatisfied_deps lp
then_recurse flags db (prepared remove) = prepared (
    if flags.cascade && flags.recurse
    then recursedeps db.pkgcache remove flags.recurse_all
    else remove)

abbrev pub after_check : Flags → Db → Option Prepared → Option Prepared
after_check flags db none = none
after_check flags db (some outcome) = some (then_recurse flags db outcome)

-- `_alpm_remove_prepare`; `none` is a loop that does not end.
unfoldable pub remove_prepare : Flags → DepHandle → Db → List Pkg → Option Prepared
unfolding check_removal
remove_prepare flags handle db targets =
    let remove =
      if flags.recurse && not flags.cascade
      then recursedeps db.pkgcache targets flags.recurse_all
      else targets in
    after_check flags db (
      if flags.nodeps
      then some (prepared remove)
      else check_removal flags handle db remove (broken_by handle db remove))

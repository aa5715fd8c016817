-- ===== src/Upgrade.antt =====
-- The upgrade of a system, lib/libalpm/sync.c: `alpm_sync_sysupgrade` with its two helpers, and
-- `alpm_sync_get_new_version`. The answer to the question whether a package is replaced is a
-- parameter. A package of a database that is no target removes nothing.
pub mod Names
pub mod Unique
pub mod Lookup
pub mod Exact
mod Tests
use dulge.Base.{
  ℕ, Ordering, Bool, true, false, not, ◌&&◌, ◌||◌, Option, none, some, List, [], ◌∷◌, ◌++◌, Str,
  ◌==◌, if◌then◌else◌,
}
use dulge.Deps.{depcmp_literal, found}
use dulge.Package.{Pkg, Depend, Reason, explicit_reason, hash_sdbm, same_name, pkg_find}
use dulge.Resolve.{Repo, Resolver, pkg_should_ignore}
use dulge.Trans.{is_initialized}
use dulge.Trans.State.{TransState, Errno, trans_null, trans_not_initialized}
use dulge.Version.{pkg_vercmp}

-- A sync database at its address.
pub record SyncDb : Type 0 where
  pub addr : ℕ
  pub repo : Repo

-- A package of `trans->add`, with its `origin_data.db` and its `removes`.
pub record Target : Type 0 where
  pub pkg : Pkg
  pub db : ℕ
  pub removes : List Pkg

-- `_alpm_pkg_compare_versions` of lib/libalpm/package.c
unfoldable pub compare_versions : Pkg → Pkg → Ordering
compare_versions spkg localpkg = pkg_vercmp (some spkg.version) (some localpkg.version)

-- The first loop of `alpm_sync_get_new_version`, with the database of the package.
unfoldable pub first_found : List SyncDb → Str → Option (SyncDb × Pkg)
first_found [] name = none
first_found (db ∷ i) name = elim (db.repo.pkgfromcache name) [
  | none ↦ first_found i name
  | some spkg ↦ some (db, spkg)
]

-- The package, if the comparison says that it is newer.
abbrev pub newer : SyncDb × Pkg → Ordering → Option (SyncDb × Pkg)
newer found Ordering.gt = some found
newer found _ = none

abbrev pub if_newer : Pkg → Option (SyncDb × Pkg) → Option (SyncDb × Pkg)
if_newer pkg none = none
if_newer pkg (some (db, spkg)) = newer (db, spkg) (compare_versions spkg pkg)

-- `alpm_sync_get_new_version`
unfoldable pub get_new_version : Pkg → List SyncDb → Option (SyncDb × Pkg)
unfolding first_found compare_versions
get_new_version pkg dbs_sync = if_newer pkg (first_found dbs_sync pkg.name)

-- `alpm_pkg_find(trans->add, name)`
unfoldable pub target_find : List Target → Str → Option Target
target_find [] needle = none
target_find (t ∷ lp) needle =
    if same_name t.pkg.name_hash t.pkg.name (hash_sdbm needle) needle
    then some t
    else target_find lp needle

-- What is written through the pointer that `alpm_pkg_find` returned.
unfoldable pub target_update : (Target → Target) → List Target → Str → List Target
target_update f [] needle = []
target_update f (t ∷ lp) needle =
    if same_name t.pkg.name_hash t.pkg.name (hash_sdbm needle) needle
    then f t ∷ lp
    else t ∷ target_update f lp needle

-- The loop over `replaces`.
unfoldable pub is_replaced : Pkg → List Depend → Bool
is_replaced lpkg [] = false
is_replaced lpkg (replace ∷ l) = depcmp_literal lpkg replace || is_replaced lpkg l

abbrev pub is_explicit : Reason → Bool
is_explicit explicit_reason = true
is_explicit _ = false

-- `tpkg` when it replaces one more package.
abbrev pub replace_more : Pkg → Target → Target
replace_more lpkg tpkg =
    let removes = tpkg.removes ++ lpkg ∷ [] in
    if is_explicit lpkg.reason
    then record tpkg { removes = removes; pkg = record tpkg.pkg { reason = explicit_reason } }
    else record tpkg { removes = removes }

-- What the upgrade reads and writes of the transaction.
pub record UpgradeTrans : Type 0 where
  pub state : TransState
  pub add : List Target
  pub remove : List Pkg

-- The value 0 with the transaction, or an error.
pub data Upgraded : Type 0 where
  upgraded : UpgradeTrans → Upgraded
  refused : Errno → Upgraded

-- The answer of `check_literal`, for the comparison of the versions and whether one of the two
-- packages is ignored.
abbrev pub literal_wanted : Ordering → Bool → Bool → Bool
literal_wanted Ordering.gt enable_downgrade ignored = not ignored
literal_wanted Ordering.lt enable_downgrade ignored = enable_downgrade && not ignored
literal_wanted Ordering.eq enable_downgrade ignored = false

module _ (handle : Resolver) (replace_pkg : Pkg → Pkg → Bool) where
  abbrev pub is_ignored : Pkg → Pkg → Bool
  is_ignored spkg lpkg = pkg_should_ignore handle spkg || pkg_should_ignore handle lpkg

  -- `check_literal`
  unfoldable pub check_literal : Pkg → Pkg → Bool → Bool
  unfolding compare_versions pkg_should_ignore
  check_literal lpkg spkg enable_downgrade =
      literal_wanted (compare_versions spkg lpkg) enable_downgrade (is_ignored spkg lpkg)

  -- The targets, and the replacers that have been found.
  abbrev pub Found : Type 0
  Found = List Target × List Target

  abbrev pub new_target : Pkg → SyncDb → Pkg → Target
  new_target lpkg sdb spkg = record {
    pkg = record spkg { reason = lpkg.reason };
    db = sdb.addr;
    removes = lpkg ∷ [];
  }

  -- A package that is to replace, for what is found under its name among the targets.
  abbrev pub add_replacer : Pkg → SyncDb → Pkg → Found → Option Target → Found
  add_replacer lpkg sdb spkg (add, replacers) none =
      (add, replacers ++ new_target lpkg sdb spkg ∷ [])
  add_replacer lpkg sdb spkg (add, replacers) (some tpkg) =
      if tpkg.db == sdb.addr
      then (target_update (replace_more lpkg) add spkg.name, replacers)
      else (add, replacers)

  -- One round of `check_replacers`.
  unfoldable pub check_replacer : Pkg → SyncDb → Pkg → Found → Found
  unfolding is_replaced target_find target_update pkg_should_ignore
  check_replacer lpkg sdb spkg (add, replacers) =
      if is_replaced lpkg spkg.replaces && not (is_ignored spkg lpkg) && replace_pkg lpkg spkg
      then add_replacer lpkg sdb spkg (add, replacers) (target_find add spkg.name)
      else (add, replacers)

  -- `check_replacers`
  unfoldable pub check_replacers : Pkg → SyncDb → List Pkg → Found → Found
  unfolding check_replacer
  check_replacers lpkg sdb [] f = f
  check_replacers lpkg sdb (spkg ∷ k) f =
      check_replacers lpkg sdb k (check_replacer lpkg sdb spkg f)

  -- The literal, if there is no replacer; `rest` goes on with the next database.
  abbrev pub check_sdb :
      Bool → Pkg → SyncDb → (List Target → List Target) → Found → Option Pkg → List Target
  check_sdb enable_downgrade lpkg sdb rest (add, r ∷ replacers) spkg = add ++ r ∷ replacers
  check_sdb enable_downgrade lpkg sdb rest (add, []) none = rest add
  check_sdb enable_downgrade lpkg sdb rest (add, []) (some spkg) =
      if check_literal lpkg spkg enable_downgrade
      then add ++ record { pkg = spkg; db = sdb.addr; removes = [] } ∷ []
      else add

  -- The loop over the sync databases for one package.
  unfoldable pub upgrade_pkg : Bool → Pkg → List SyncDb → List Target → List Target
  unfolding check_replacers check_literal
  upgrade_pkg enable_downgrade lpkg [] add = add
  upgrade_pkg enable_downgrade lpkg (sdb ∷ j) add =
      let skipped = upgrade_pkg enable_downgrade lpkg j add in
      if not sdb.repo.upgrade
      then skipped
      else check_sdb enable_downgrade lpkg sdb (λ a. upgrade_pkg enable_downgrade lpkg j a)
          (check_replacers lpkg sdb sdb.repo.pkgcache (add, [])) (sdb.repo.pkgfromcache lpkg.name)

  -- The loop over the local packages.
  unfoldable pub upgrade_all : Bool → List SyncDb → List Pkg → List Pkg → List Target → List Target
  unfolding upgrade_pkg
  upgrade_all enable_downgrade dbs_sync remove [] add = add
  upgrade_all enable_downgrade dbs_sync remove (lpkg ∷ i) add =
      upgrade_all enable_downgrade dbs_sync remove i (
        if found (pkg_find remove lpkg.name) || found (target_find add lpkg.name)
        then add
        else upgrade_pkg enable_downgrade lpkg dbs_sync add)

  -- `alpm_sync_sysupgrade`
  unfoldable pub sync_sysupgrade : Bool → List SyncDb → Option UpgradeTrans → Upgraded
  unfolding upgrade_all
  sync_sysupgrade enable_downgrade dbs_sync none = refused trans_null
  sync_sysupgrade enable_downgrade dbs_sync (some trans) =
      if is_initialized trans.state
      then upgraded (record trans {
        add = upgrade_all enable_downgrade dbs_sync trans.remove handle.db_local.pkgcache trans.add;
      })
      else refused trans_not_initialized

-- ===== src/Resolve.antt =====
-- The resolution of dependencies, the functions `resolvedep` and `_alpm_resolvedeps` of
-- lib/libalpm/deps.c with `alpm_pkg_should_ignore` of lib/libalpm/package.c. The match of a pattern
-- (fnmatch) and the answers to questions, which are callbacks, are parameters. malloc does not fail.
pub mod Provider
pub mod Steps
pub mod Closed
pub mod Ends
mod Tests
use dulge.AlpmList
use dulge.Base.{
  ℕ, zero, suc, Bool, true, false, not, ◌&&◌, ◌||◌, Option, none, some, List, [], ◌∷◌, ◌++◌, Str,
  if◌then◌else◌, get_elem?, ◌>>=◌,
}
use dulge.Deps.{
  depcmp_literal, depcmp_provides, find_dep_satisfier, DepHandle, DepMissing, found, checkdeps,
}
use dulge.Package.{Pkg, Depend, same_name, pkg_find}

-- `alpm_db_t`: two bits of its usage, the package cache as a list, and the lookup of a name in it,
-- `_alpm_db_get_pkgfromcache`.
pub record Repo : Type 0 where
  pub install : Bool
  pub upgrade : Bool
  pub pkgcache : List Pkg
  pub pkgfromcache : Str → Option Pkg

-- What the resolution reads of the handle. `fnmatch` says whether a pattern matches a string,
-- `install_ignorepkg` and `select_provider` are the answers to the two questions, the second an
-- index, or `none` for a negative one.
pub record Resolver : Type 0 where
  pub deps : DepHandle
  pub ignorepkg : List Str
  pub ignoregroup : List Str
  pub fnmatch : Str → Str → Bool
  pub install_ignorepkg : Pkg → Bool
  pub select_provider : List Pkg → Depend → Option ℕ
  pub db_local : Repo
  pub dbs_sync : List Repo

-- `alpm_list_find` with `_alpm_fnmatch`
unfoldable pub any_match : (Str → Str → Bool) → List Str → Str → Bool
any_match fnmatch [] needle = false
any_match fnmatch (pattern ∷ lp) needle = fnmatch pattern needle || any_match fnmatch lp needle

-- The loop over the groups of a package.
unfoldable pub in_ignored_group : Resolver → List Str → Bool
unfolding any_match
in_ignored_group handle [] = false
in_ignored_group handle (grp ∷ groups) =
    any_match handle.fnmatch handle.ignoregroup grp || in_ignored_group handle groups

-- `alpm_pkg_should_ignore`
unfoldable pub pkg_should_ignore : Resolver → Pkg → Bool
unfolding any_match in_ignored_group
pkg_should_ignore handle pkg =
    any_match handle.fnmatch handle.ignorepkg pkg.name || in_ignored_group handle pkg.groups

-- Whether `resolvedep` takes a package that fits: `question.install`, where it is ignored.
unfoldable pub takes : Resolver → Bool → Pkg → Bool
unfolding pkg_should_ignore
takes handle prompt pkg =
    if pkg_should_ignore handle pkg then prompt && handle.install_ignorepkg pkg else true

-- What `resolvedep` returns, with `pm_errno` where it is null.
pub data Resolved : Type 0 where
  resolved : Pkg → Resolved
  pkg_ignored : Resolved
  pkg_not_found : Resolved

abbrev pub is_usable : Repo → Bool
is_usable db = db.install || db.upgrade

-- One round of "1. literals".
abbrev pub literal_of : Depend → List Pkg → Option Pkg → Option Pkg
literal_of dep excluding none = none
literal_of dep excluding (some pkg) =
    if depcmp_literal pkg dep && not (found (pkg_find excluding pkg.name)) then some pkg else none

abbrev pub literal_in : Depend → List Pkg → Repo → Option Pkg
literal_in dep excluding db =
    if is_usable db then literal_of dep excluding (db.pkgfromcache dep.name) else none

-- The package that is returned, and whether one has been ignored.
unfoldable pub literals : Resolver → Bool → Depend → List Pkg → List Repo → Option Pkg × Bool
unfolding takes
literals handle prompt dep excluding [] = (none, false)
literals handle prompt dep excluding (db ∷ i) =
    let rest = literals handle prompt dep excluding i in
    elim (literal_in dep excluding db) [
      | none ↦ rest
      | some pkg ↦ if takes handle prompt pkg then (some pkg, false) else (rest.0, true)
    ]

-- The test of "2. satisfiers (skip literals here)".
abbrev pub is_provider : Depend → List Pkg → Pkg → Bool
is_provider dep excluding pkg =
    not (same_name pkg.name_hash pkg.name dep.name_hash dep.name)
    && depcmp_provides dep pkg.provides
    && not (found (pkg_find excluding pkg.name))

-- A provider that is installed ends the search; otherwise there are the providers, and whether a
-- package has been ignored.
pub data Search : Type 0 where
  installed : Pkg → Search
  collected : List Pkg → Bool → Search

abbrev pub join_search : List Pkg → Bool → Search → Search
join_search providers ignored (installed pkg) = installed pkg
join_search providers ignored (collected more ignored') =
    collected (providers ++ more) (ignored || ignored')

unfoldable pub search_cache : Resolver → Bool → Depend → List Pkg → List Pkg → Search
unfolding takes
search_cache handle prompt dep excluding [] = collected [] false
search_cache handle prompt dep excluding (pkg ∷ j) =
    let rest = search_cache handle prompt dep excluding j in
    if not (is_provider dep excluding pkg)
    then rest
    else if not (takes handle prompt pkg)
    then join_search [] true rest
    else if found (handle.db_local.pkgfromcache pkg.name)
    then installed pkg
    else join_search (pkg ∷ []) false rest

abbrev pub then_search : Search → Search → Search
then_search (installed pkg) rest = installed pkg
then_search (collected providers ignored) rest = join_search providers ignored rest

unfoldable pub search_dbs : Resolver → Bool → Depend → List Pkg → List Repo → Search
unfolding search_cache
search_dbs handle prompt dep excluding [] = collected [] false
search_dbs handle prompt dep excluding (db ∷ i) =
    let rest = search_dbs handle prompt dep excluding i in
    if is_usable db
    then then_search (search_cache handle prompt dep excluding db.pkgcache) rest
    else rest

-- `question.use_index`
abbrev pub use_index : Resolver → Depend → List Pkg → Option ℕ
use_index handle dep [] = none
use_index handle dep (pkg ∷ []) = some 0
use_index handle dep (pkg ∷ other ∷ providers) =
    handle.select_provider (pkg ∷ other ∷ providers) dep

abbrev pub or_ignored : Bool → Option Pkg → Resolved
or_ignored ignored (some pkg) = resolved pkg
or_ignored ignored none = if ignored then pkg_ignored else pkg_not_found

-- The choice among the providers.
abbrev pub choose : Resolver → Depend → Bool → Search → Resolved
choose handle dep ignored (installed pkg) = resolved pkg
choose handle dep ignored (collected providers ignored') =
    or_ignored (ignored || ignored')
      (use_index handle dep providers >>= (λ n. get_elem? providers n))

-- The second search is made where the first has no result.
abbrev pub or_provider : Resolver → Depend → Search → Option Pkg × Bool → Resolved
or_provider handle dep search (some pkg, ignored) = resolved pkg
or_provider handle dep search (none, ignored) = choose handle dep ignored search

-- `resolvedep`
unfoldable pub resolvedep : Resolver → Depend → List Repo → List Pkg → Bool → Resolved
unfolding literals search_dbs
resolvedep handle dep dbs excluding prompt =
    or_provider handle dep (search_dbs handle prompt dep excluding dbs)
      (literals handle prompt dep excluding dbs)

abbrev pub is_resolved : Resolved → Bool
is_resolved (resolved pkg) = true
is_resolved _ = false

-- `*packages`, `*data` and whether `ret` is 0.
pub record Resolution : Type 0 where
  pub packages : List Pkg
  pub data_ : List DepMissing
  pub ret : Bool

-- The part from the second call of `resolvedep` on, which asks for an installed package.
abbrev pub from_local : Resolver → List Pkg → DepMissing → Resolution → Resolution
from_local handle rem miss r =
    if is_resolved (resolvedep handle miss.depend (handle.db_local ∷ []) rem false)
    then r
    else record r { data_ = r.data_ ++ miss ∷ []; ret = false }

-- `spkg`
abbrev pub or_resolvedep : Resolver → Depend → List Pkg → Option Pkg → Option Pkg
or_resolvedep handle dep packages (some spkg) = some spkg
or_resolvedep handle dep packages none =
    elim (resolvedep handle dep handle.dbs_sync packages false) [
      | resolved pkg ↦ some pkg
      | _ ↦ none
    ]

-- The outcome of the recursive call.
abbrev pub pulled : Resolver → List Pkg → DepMissing → Resolution → Resolution → Resolution
pulled handle rem miss r r' =
    if r'.ret
    then record r' { ret = r.ret }
    else from_local handle rem miss (record r' { ret = r.ret })

-- One round of the loop; `go` is the recursive call.
abbrev pub resolve_miss :
    Resolver
    → List Pkg
    → List Pkg
    → (Pkg → List Pkg → List DepMissing → Option Resolution)
    → DepMissing
    → Resolution
    → Option Resolution
resolve_miss handle preferred rem go miss r =
    if found (find_dep_satisfier r.packages miss.depend)
    then some r
    else elim (or_resolvedep handle miss.depend r.packages
        (find_dep_satisfier preferred miss.depend)) [
          | none ↦ some (from_local handle rem miss r)
          | some spkg ↦ go spkg r.packages r.data_ >>= (λ r'. some (pulled handle rem miss r r'))
        ]

unfoldable pub resolve_all :
    Resolver
    → List Pkg
    → List Pkg
    → (Pkg → List Pkg → List DepMissing → Option Resolution)
    → List DepMissing
    → Resolution
    → Option Resolution
unfolding find_dep_satisfier resolvedep
resolve_all handle preferred rem go [] r = some r
resolve_all handle preferred rem go (miss ∷ j) r =
    resolve_miss handle preferred rem go miss r >>= (λ r'. resolve_all handle preferred rem go j r')

-- `*packages` is restored on error.
abbrev pub restore : List Pkg → Resolution → Resolution
restore packages_copy r = if r.ret then r else record r { packages = packages_copy }

-- `_alpm_resolvedeps`; the fuel bounds the depth of the recursion.
unfoldable pub resolvedeps :
    ℕ
    → Resolver
    → List Pkg
    → List Pkg
    → List Pkg
    → Pkg
    → List Pkg
    → List DepMissing
    → Option Resolution
unfolding resolve_all
resolvedeps zero handle localpkgs preferred rem pkg packages data_ = none
resolvedeps (suc fuel) handle localpkgs preferred rem pkg packages data_ =
    if found (pkg_find packages pkg.name)
    then some (record { packages = packages; data_ = data_; ret = true })
    else resolve_all handle preferred rem (resolvedeps fuel handle localpkgs preferred rem)
        (checkdeps handle.deps localpkgs rem (pkg ∷ []) false)
        (record { packages = AlpmList.add packages pkg; data_ = data_; ret = true })
      >>= (λ r. some (restore packages r))

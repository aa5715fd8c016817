-- ===== src/Deps.antt =====
-- Dependencies, lib/libalpm/deps.c: satisfaction, the text form, `alpm_checkdeps` and
-- `_alpm_recursedeps`. malloc and the copy of a package do not fail, and a copy is the package.
pub mod Satisfy
pub mod Form
pub mod Text
pub mod Check
pub mod Names
pub mod Closure
pub mod Recurse
mod Tests
unfoldable pub use Satisfy.*
unfoldable pub use Form.*
use dulge.Base.{
  ℕ, zero, suc, ◌+◌, Ordering, Bool, true, false, not, ◌&&◌, ◌||◌, Option, none, some, List, [],
  ◌∷◌, ◌++◌, Str, length, codes, ◌==◌, if◌then◌else◌, is_eq, is_lt, is_gt,
}
use dulge.AlpmList
use dulge.Package.{
  DepMod, mod_any, mod_eq, mod_ge, mod_le, mod_gt, mod_lt, Depend, Pkg, Reason, depend_reason,
  hash_sdbm, same_name, pkg_find, pkg_cmp,
}
use dulge.Version.{pkg_vercmp}

-- `alpm_find_satisfier`; the null string has no dependency.
unfoldable pub find_satisfier : List Pkg → Option Str → Option Pkg
find_satisfier pkgs none = none
find_satisfier pkgs (some depstring) = find_dep_satisfier pkgs (dep_from_string depstring)

-- `alpm_depmissing_t`
pub record DepMissing : Type 0 where
  pub target : Str
  pub depend : Depend
  pub causingpkg : Option Str

-- What `alpm_checkdeps` reads of the handle: whether the flag NODEPVERSION is set in the
-- transaction, if there is one (`no_dep_version`), and the list `assumeinstalled`.
pub record DepHandle : Type 0 where
  pub nodepversion : Bool
  pub assumeinstalled : List Depend

-- `depend->mod` while the loop looks at the dependency.
abbrev pub relaxed : DepHandle → Depend → Depend
relaxed handle depend = if handle.nodepversion then record depend { dep_mod = mod_any } else depend

abbrev pub found {ℓ} : {A : Type ℓ} → Option A → Bool
found none = false
found (some a) = true

-- The split of the package list: whether the transaction touches the package.
abbrev pub is_modified : List Pkg → List Pkg → Pkg → Bool
is_modified rem upgrade pkg = found (pkg_find rem pkg.name) || found (pkg_find upgrade pkg.name)

unfoldable pub split_modified : List Pkg → List Pkg → List Pkg → List Pkg × List Pkg
split_modified rem upgrade [] = ([], [])
split_modified rem upgrade (pkg ∷ i) =
    let (modified, dblist) = split_modified rem upgrade i in
    if is_modified rem upgrade pkg then (pkg ∷ modified, dblist) else (modified, pkg ∷ dblist)

-- Nothing in the two lists or among the assumed packages satisfies the dependency.
abbrev pub is_missing : DepHandle → List Pkg → List Pkg → Depend → Bool
is_missing handle upgrade dblist depend =
    not (found (find_dep_satisfier upgrade depend))
    && not (found (find_dep_satisfier dblist depend))
    && not (depcmp_provides depend handle.assumeinstalled)

-- The dependencies of one package of the upgrade list.
unfoldable pub check_upgrade_deps :
    DepHandle → List Pkg → List Pkg → Pkg → List Depend → List DepMissing
check_upgrade_deps handle upgrade dblist tp [] = []
check_upgrade_deps handle upgrade dblist tp (d ∷ j) =
    let depend = relaxed handle d in
    let rest = check_upgrade_deps handle upgrade dblist tp j in
    if is_missing handle upgrade dblist depend
    then record { target = tp.name; depend = depend; causingpkg = none } ∷ rest
    else rest

unfoldable pub check_upgrade : DepHandle → List Pkg → List Pkg → List Pkg → List DepMissing
unfolding check_upgrade_deps
check_upgrade handle upgrade dblist [] = []
check_upgrade handle upgrade dblist (tp ∷ i) =
    check_upgrade_deps handle upgrade dblist tp tp.depends ++ check_upgrade handle upgrade dblist i

-- The dependencies of one package that stays: a missing one counts only if a modified package
-- satisfied it.
unfoldable pub check_reverse_deps :
    DepHandle → List Pkg → List Pkg → List Pkg → Pkg → List Depend → List DepMissing
check_reverse_deps handle modified upgrade dblist lp [] = []
check_reverse_deps handle modified upgrade dblist lp (d ∷ j) =
    let depend = relaxed handle d in
    let rest = check_reverse_deps handle modified upgrade dblist lp j in
    elim (find_dep_satisfier modified depend) [
      | none ↦ rest
      | some causing ↦
          if is_missing handle upgrade dblist depend
          then record { target = lp.name; depend = depend; causingpkg = some causing.name } ∷ rest
          else rest
    ]

unfoldable pub check_reverse :
    DepHandle → List Pkg → List Pkg → List Pkg → List Pkg → List DepMissing
unfolding check_reverse_deps
check_reverse handle modified upgrade dblist [] = []
check_reverse handle modified upgrade dblist (lp ∷ i) =
    check_reverse_deps handle modified upgrade dblist lp lp.depends
    ++ check_reverse handle modified upgrade dblist i

-- `alpm_checkdeps`
unfoldable pub checkdeps : DepHandle → List Pkg → List Pkg → List Pkg → Bool → List DepMissing
unfolding split_modified check_upgrade check_reverse
checkdeps handle pkglist rem upgrade reversedeps =
    let (modified, dblist) = split_modified rem upgrade pkglist in
    check_upgrade handle upgrade dblist upgrade
    ++ (if reversedeps then check_reverse handle modified upgrade dblist dblist else [])

abbrev pub is_depend_reason : Reason → Bool
is_depend_reason depend_reason = true
is_depend_reason _ = false

-- The test of `_alpm_select_depends`.
abbrev pub is_selected : Pkg → Bool → Pkg → Bool
is_selected pkg include_explicit deppkg =
    (include_explicit || is_depend_reason deppkg.reason) && pkg_depends_on pkg deppkg

-- The loop of `_alpm_select_depends`: what it moves, and what stays.
unfoldable pub select_loop : Pkg → Bool → List Pkg → List Pkg × List Pkg
select_loop pkg include_explicit [] = ([], [])
select_loop pkg include_explicit (deppkg ∷ i) =
    let (moved, left) = select_loop pkg include_explicit i in
    if is_selected pkg include_explicit deppkg
    then (deppkg ∷ moved, left)
    else (moved, deppkg ∷ left)

-- `_alpm_select_depends`, with the packages moved as its first result.
unfoldable pub select_depends : Pkg → Bool → List Pkg → List Pkg × List Pkg
unfolding select_loop
select_depends pkg include_explicit from = elim pkg.depends [
  | [] ↦ ([], from)
  | d ∷ ds ↦ select_loop pkg include_explicit from
]

-- The loop over the targets: `from`, and `to` behind what was there.
unfoldable pub select_targets : Bool → List Pkg → List Pkg → List Pkg → List Pkg × List Pkg
unfolding select_depends
select_targets include_explicit from to [] = (from, to)
select_targets include_explicit from to (targ ∷ i) =
    let (moved, left) = select_depends targ include_explicit from in
    select_targets include_explicit left (to ++ moved) i

-- A loop over a list to which its own rounds append: the packages still to be looked at are
-- `pending`. The result is what is left of `from`, and the packages that were looked at.
unfoldable pub select_closure : ℕ → Bool → List Pkg → List Pkg → List Pkg × List Pkg
unfolding select_depends
select_closure fuel include_explicit from [] = (from, [])
select_closure zero include_explicit from (pkg ∷ pending) = (from, pkg ∷ pending)
select_closure (suc fuel) include_explicit from (pkg ∷ pending) =
    let (moved, left) = select_depends pkg include_explicit from in
    let (from', done) = select_closure fuel include_explicit left (pending ++ moved) in
    (from', pkg ∷ done)

-- The first loop of `_alpm_recursedeps`.
unfoldable pub without_targets : List Pkg → List Pkg → List Pkg
without_targets keep [] = keep
without_targets keep (targ ∷ i) = without_targets (AlpmList.remove pkg_cmp keep targ).0 i

-- The packages that `_alpm_recursedeps` appends to the targets, and those that it keeps.
-- A package is looked at once by each loop, so that the number of packages is enough fuel.
-- The last loop also ends when nothing is left to move, after which its rounds would do nothing.
unfoldable pub recursedeps_sets : List Pkg → List Pkg → Bool → List Pkg × List Pkg
unfolding without_targets select_targets select_closure
recursedeps_sets pkgcache targs include_explicit =
    let keep = without_targets (AlpmList.copy pkgcache) targs in
    let fuel = length keep in
    let (keep', rem) = select_targets include_explicit keep [] targs in
    let (keep'', rem') = select_closure fuel include_explicit keep' rem in
    select_closure fuel true rem' keep''

-- `_alpm_recursedeps`: the new target list.
unfoldable pub recursedeps : List Pkg → List Pkg → Bool → List Pkg
unfolding recursedeps_sets
recursedeps pkgcache targs include_explicit =
    targs ++ (recursedeps_sets pkgcache targs include_explicit).0

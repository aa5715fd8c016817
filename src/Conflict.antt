-- ===== src/Conflict.antt =====
-- Conflicts between packages, lib/libalpm/conflict.c: the check of one list of packages against
-- another. malloc and the copy of a package do not fail, and a copy is the package. `order` says
-- whether the argument of that name is at least 0. Conflicts of files are not modelled.
pub mod Complete
mod Tests
use dulge.Base.{Bool, true, false, ◌&&◌, List, [], ◌∷◌, ◌==◌, if◌then◌else◌, str_eq}
use dulge.AlpmList
use dulge.Deps.{depcmp}
use dulge.Package.{Pkg, Depend, same_name, pkg_cmp}

-- `alpm_conflict_t`
pub record Conflict : Type 0 where
  pub package1 : Pkg
  pub package2 : Pkg
  pub reason : Depend

-- The test of the code for one name of two packages.
abbrev pub same_pkg : Pkg → Pkg → Bool
same_pkg p q = same_name p.name_hash p.name q.name_hash q.name

-- The test of `conflict_isin`, which compares the names only if the hashes agree.
abbrev pub same_pair : Conflict → Conflict → Bool
same_pair needle conflict =
    needle.package1.name_hash == conflict.package1.name_hash
    && (needle.package2.name_hash == conflict.package2.name_hash
        && (str_eq needle.package1.name conflict.package1.name
            && str_eq needle.package2.name conflict.package2.name))

unfoldable pub conflict_isin : Conflict → List Conflict → Bool
conflict_isin needle [] = false
conflict_isin needle (conflict ∷ i) =
    if same_pair needle conflict then true else conflict_isin needle i

abbrev pub conflict_new : Pkg → Pkg → Depend → Conflict
conflict_new pkg1 pkg2 reason = record { package1 = pkg1; package2 = pkg2; reason = reason }

unfoldable pub add_conflict : List Conflict → Pkg → Pkg → Depend → List Conflict
unfolding conflict_isin
add_conflict baddeps pkg1 pkg2 reason =
    let conflict = conflict_new pkg1 pkg2 reason in
    if conflict_isin conflict baddeps then baddeps else AlpmList.add baddeps conflict

-- The body of the inner loop of `check_conflict`.
unfoldable pub consider : Bool → Pkg → Depend → List Conflict → Pkg → List Conflict
unfolding add_conflict
consider order pkg1 conflict baddeps pkg2 =
    if same_pkg pkg1 pkg2
    then baddeps
    else if depcmp pkg2 conflict
    then (if order
        then add_conflict baddeps pkg1 pkg2 conflict
        else add_conflict baddeps pkg2 pkg1 conflict)
    else baddeps

-- The loops of `check_conflict`, from the inner one: over `list2`, over the conflicts of one
-- package, over `list1`.
unfoldable pub check_one : Bool → Pkg → Depend → List Conflict → List Pkg → List Conflict
unfolding consider
check_one order pkg1 conflict baddeps [] = baddeps
check_one order pkg1 conflict baddeps (pkg2 ∷ k) =
    check_one order pkg1 conflict (consider order pkg1 conflict baddeps pkg2) k

unfoldable pub check_pkg : Bool → Pkg → List Pkg → List Conflict → List Depend → List Conflict
unfolding check_one
check_pkg order pkg1 list2 baddeps [] = baddeps
check_pkg order pkg1 list2 baddeps (conflict ∷ j) =
    check_pkg order pkg1 list2 (check_one order pkg1 conflict baddeps list2) j

unfoldable pub check_conflict : List Pkg → List Pkg → List Conflict → Bool → List Conflict
unfolding check_pkg
check_conflict [] list2 baddeps order = baddeps
check_conflict (pkg1 ∷ i) list2 baddeps order =
    check_conflict i list2 (check_pkg order pkg1 list2 baddeps pkg1.conflicts) order

-- `_alpm_innerconflicts`
unfoldable pub innerconflicts : List Pkg → List Conflict
unfolding check_conflict
innerconflicts packages = check_conflict packages packages [] true

-- `_alpm_outerconflicts`; the first argument is the package cache of the database.
unfoldable pub outerconflicts : List Pkg → List Pkg → List Conflict
unfolding check_conflict
outerconflicts pkgcache packages =
    let dblist = AlpmList.diff pkg_cmp pkgcache packages in
    check_conflict dblist packages (check_conflict packages dblist [] true) false

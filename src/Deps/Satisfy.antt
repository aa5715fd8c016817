-- ===== src/Deps/Satisfy.antt =====
-- When a package satisfies a dependency, lib/libalpm/deps.c.
use dulge.Base.{
  Bool, true, false, not, ◌&&◌, ◌||◌, Option, none, some, List, [], ◌∷◌, Str, if◌then◌else◌, is_eq,
  is_lt, is_gt,
}
use dulge.Package.{DepMod, mod_any, mod_eq, mod_ge, mod_le, mod_gt, mod_lt, Depend, Pkg, same_name}
use dulge.Version.{pkg_vercmp}

abbrev pub is_any : DepMod → Bool
is_any mod_any = true
is_any _ = false

abbrev pub is_eq_mod : DepMod → Bool
is_eq_mod mod_eq = true
is_eq_mod _ = false

unfoldable pub dep_vercmp : Option Str → DepMod → Option Str → Bool
dep_vercmp version1 mod_any version2 = true
dep_vercmp version1 mod_eq version2 = is_eq (pkg_vercmp version1 version2)
dep_vercmp version1 mod_ge version2 = not (is_lt (pkg_vercmp version1 version2))
dep_vercmp version1 mod_le version2 = not (is_gt (pkg_vercmp version1 version2))
dep_vercmp version1 mod_lt version2 = is_lt (pkg_vercmp version1 version2)
dep_vercmp version1 mod_gt version2 = is_gt (pkg_vercmp version1 version2)

unfoldable pub depcmp_literal : Pkg → Depend → Bool
depcmp_literal pkg dep =
    if not (same_name pkg.name_hash pkg.name dep.name_hash dep.name)
    then false
    else dep_vercmp (some pkg.version) dep.dep_mod dep.version

-- One round of `_alpm_depcmp_provides`; a provision of a version has the form name=version.
unfoldable pub provision_satisfies : Depend → Depend → Bool
provision_satisfies dep provision =
    if is_any dep.dep_mod
    then same_name provision.name_hash provision.name dep.name_hash dep.name
    else if is_eq_mod provision.dep_mod
    then same_name provision.name_hash provision.name dep.name_hash dep.name
      && dep_vercmp provision.version dep.dep_mod dep.version
    else false

unfoldable pub depcmp_provides : Depend → List Depend → Bool
unfolding provision_satisfies
depcmp_provides dep [] = false
depcmp_provides dep (provision ∷ i) = provision_satisfies dep provision || depcmp_provides dep i

unfoldable pub depcmp : Pkg → Depend → Bool
depcmp pkg dep = depcmp_literal pkg dep || depcmp_provides dep pkg.provides

-- `_alpm_pkg_depends_on`: the loop over the dependencies of `pkg1`.
unfoldable pub any_dep : List Depend → Pkg → Bool
any_dep [] pkg2 = false
any_dep (dep ∷ i) pkg2 = if depcmp pkg2 dep then true else any_dep i pkg2

unfoldable pub pkg_depends_on : Pkg → Pkg → Bool
unfolding any_dep
pkg_depends_on pkg1 pkg2 = any_dep pkg1.depends pkg2

unfoldable pub find_dep_satisfier : List Pkg → Depend → Option Pkg
find_dep_satisfier [] dep = none
find_dep_satisfier (pkg ∷ i) dep = if depcmp pkg dep then some pkg else find_dep_satisfier i dep

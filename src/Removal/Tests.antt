-- ===== src/Removal/Tests.antt =====
-- Removals from a system of two packages: runs, and the theorems at them.
use dulge.AlpmList
use dulge.Base.{
  ◌≡◌, refl, true, false, none, some, List, [], ◌∷◌, Str, codes, strcmp, str_eq, inl, inr, arith,
}
use dulge.Deps.{
  dep_vercmp, depcmp_literal, provision_satisfies, depcmp_provides, depcmp, any_dep, pkg_depends_on,
  find_dep_satisfier, DepHandle, split_modified, check_upgrade_deps, check_upgrade,
  check_reverse_deps, check_reverse, checkdeps, select_loop, select_depends, select_targets,
  select_closure, without_targets, recursedeps_sets, recursedeps,
}
use dulge.Package.{
  Pkg, Depend, mod_any, Reason, explicit_reason, depend_reason, hash_sdbm, sdbm_from, pkg_find,
  pkg_find_hashed, pkg_cmp,
}
use dulge.Removal.{
  Db, Flags, remove_pkg, pull, pull_all, cascade, drop, drop_all, keep_needed, broken_by, prepared,
  unsatisfied_deps, check_removal, remove_prepare,
}
use dulge.Removal.Measure.{IsCache}
use dulge.Deps.Names.{IsListed}
use dulge.Removal.Safe.{Within, cascade-ends, keep_needed-ends}

run : Unit {0}
unfolding strcmp str_eq sdbm_from hash_sdbm pkg_find pkg_find_hashed pkg_cmp dep_vercmp
    depcmp_literal provision_satisfies depcmp_provides depcmp any_dep pkg_depends_on
    find_dep_satisfier split_modified check_upgrade_deps check_upgrade check_reverse_deps
    check_reverse checkdeps select_loop select_depends select_targets select_closure without_targets
    recursedeps_sets recursedeps AlpmList.remove AlpmList.copy_onto remove_pkg pull pull_all cascade
    drop drop_all keep_needed check_removal remove_prepare
run = tt

abbrev make_pkg : Str → Reason → List Depend → Pkg
make_pkg name reason depends = record {
  addr = 0;
  name = name;
  version = codes "1-1";
  name_hash = hash_sdbm name;
  arch = none;
  reason = reason;
  groups = [];
  depends = depends;
  conflicts = [];
  provides = [];
  replaces = [];
}

abbrev needs : Depend
needs = record {
  name = codes "bar";
  version = none;
  desc = none;
  name_hash = hash_sdbm (codes "bar");
  dep_mod = mod_any;
}

abbrev foo : Pkg
foo = make_pkg (codes "foo") explicit_reason (needs ∷ [])

abbrev bar : Pkg
bar = make_pkg (codes "bar") depend_reason []

abbrev handle : DepHandle
handle = record { nodepversion = false; assumeinstalled = [] }

abbrev db : Db
db = record { pkgcache = foo ∷ bar ∷ []; pkgfromcache = pkg_find (foo ∷ bar ∷ []) }

abbrev no_flags : Flags
no_flags = record {
  nodeps = false;
  cascade = false;
  recurse = false;
  recurse_all = false;
  unneeded = false;
}

duplicate_is_skipped : remove_pkg (foo ∷ []) foo ≡ foo ∷ []
unfolding run
duplicate_is_skipped = refl

breaks_foo :
    remove_prepare no_flags handle db (bar ∷ [])
    ≡ some (
        unsatisfied_deps
          (record { target = codes "foo"; depend = needs; causingpkg = some (codes "bar") } ∷ []))
unfolding run
breaks_foo = refl

cascades :
    remove_prepare (record no_flags { cascade = true }) handle db (bar ∷ [])
    ≡ some (prepared (bar ∷ foo ∷ []))
unfolding run
cascades = refl

keeps_bar :
    remove_prepare (record no_flags { unneeded = true }) handle db (bar ∷ []) ≡ some (prepared [])
unfolding run
keeps_bar = refl

recurses :
    remove_prepare (record no_flags { recurse = true }) handle db (foo ∷ [])
    ≡ some (prepared (foo ∷ bar ∷ []))
unfolding run
recurses = refl

hashed : (p : Pkg) → IsListed (foo ∷ bar ∷ []) p → p.name_hash ≡ hash_sdbm p.name
hashed p (inl e) = rw (← e)
hashed p (inr (inl e)) = rw (← e)
hashed p (inr (inr h)) = absurd h

db-IsCache : IsCache db
db-IsCache = record { finds = λ name. refl; hashed = hashed }

cascade-ends_example :
    (r : List Pkg) × (cascade 2 handle db (bar ∷ []) (broken_by handle db (bar ∷ [])) ≡ some r)
    × (broken_by handle db r ≡ [])
    × Within (bar ∷ []) r
cascade-ends_example = cascade-ends handle db db-IsCache (bar ∷ []) 2 (omega arith)

keep_needed-ends_example :
    (r : List Pkg) × (keep_needed 1 handle db (bar ∷ []) (broken_by handle db (bar ∷ [])) ≡ some r)
    × (broken_by handle db r ≡ [])
    × Within r (bar ∷ [])
keep_needed-ends_example = keep_needed-ends handle db (bar ∷ []) 1 (omega arith)

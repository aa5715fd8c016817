-- ===== src/Deps/Tests.antt =====
-- Dependencies between three packages: runs, and the theorems at concrete lists.
use dulge.Base.{
  arith, ◌≡◌, refl, ◌++◌, true, false, none, some, List, [], ◌∷◌, Str, codes, strcmp, str_eq,
}
use dulge.AlpmList
use dulge.Package.{
  Pkg, Depend, mod_ge, Reason, explicit_reason, depend_reason, hash_sdbm, sdbm_from, pkg_find,
  pkg_find_hashed, pkg_cmp,
}
use dulge.Deps.{
  dep_vercmp, depcmp_literal, provision_satisfies, depcmp_provides, depcmp, any_dep, pkg_depends_on,
  find_dep_satisfier, push, cut_desc, split_first, or_equal, parse_mod, dep_from_string,
  dep_compute_string, DepHandle, split_modified, check_upgrade_deps, check_upgrade,
  check_reverse_deps, check_reverse, checkdeps, select_loop, select_depends, select_targets,
  select_closure, without_targets, recursedeps_sets, recursedeps,
}
use dulge.Deps.Check.{AllIn, IsClosed, Holds, untouched_pkgs, checkdeps-closed}
use dulge.Deps.Closure.{IsClosure, select_closure-IsClosure}
use dulge.Deps.Text.{IsWellFormed, dep_from_string-compute_string}
use dulge.Version.{
  split_last, parse_evr, showdown, compare_numeric, compare_segments, at_segments, round, rounds,
  rpmvercmp, vercmp_evr, pkg_vercmp,
}

run : Unit {0}
unfolding strcmp str_eq split_last parse_evr showdown compare_numeric compare_segments at_segments
    round rounds rpmvercmp vercmp_evr pkg_vercmp sdbm_from hash_sdbm pkg_find pkg_find_hashed
    pkg_cmp dep_vercmp depcmp_literal provision_satisfies depcmp_provides depcmp any_dep
    pkg_depends_on find_dep_satisfier push cut_desc split_first or_equal parse_mod dep_from_string
    dep_compute_string split_modified check_upgrade_deps check_upgrade check_reverse_deps
    check_reverse checkdeps select_loop select_depends select_targets select_closure without_targets
    recursedeps_sets recursedeps AlpmList.remove AlpmList.copy_onto
run = tt

abbrev needs : Depend
needs = record {
  name = codes "bar";
  version = some (codes "1:2.0");
  desc = some (codes "for x: y");
  name_hash = hash_sdbm (codes "bar");
  dep_mod = mod_ge;
}

written : dep_compute_string needs ≡ codes "bar>=1:2.0: for x: y"
unfolding run
written = refl

needs-IsWellFormed : IsWellFormed needs
needs-IsWellFormed = record {
  name = record {
    lt = (refl, (refl, (refl, tt)));
    gt = (refl, (refl, (refl, tt)));
    eq = (refl, (refl, (refl, tt)));
    space = (refl, (refl, (refl, tt)));
  };
  version = record {
    lt = (refl, (refl, (refl, (refl, (refl, tt)))));
    gt = (refl, (refl, (refl, (refl, (refl, tt)))));
    eq = (refl, (refl, (refl, (refl, (refl, tt)))));
    space = (refl, (refl, (refl, (refl, (refl, tt)))));
  };
  hashed = refl;
}

dep_from_string-compute_string_example : dep_from_string (dep_compute_string needs) ≡ needs
dep_from_string-compute_string_example = dep_from_string-compute_string needs needs-IsWellFormed

abbrev make_pkg : Str → Str → Reason → List Depend → Pkg
make_pkg name version reason depends = record {
  addr = 0;
  name = name;
  version = version;
  name_hash = hash_sdbm name;
  arch = none;
  reason = reason;
  groups = [];
  depends = depends;
  conflicts = [];
  provides = [];
  replaces = [];
}

abbrev foo : Pkg
foo = make_pkg (codes "foo") (codes "1-1") explicit_reason (needs ∷ [])

abbrev bar : Pkg
bar = make_pkg (codes "bar") (codes "1:2.0-1") depend_reason []

abbrev new_bar : Pkg
new_bar = make_pkg (codes "bar") (codes "1:2.1-1") depend_reason []

abbrev old_bar : Pkg
old_bar = make_pkg (codes "bar") (codes "1.9-1") depend_reason []

abbrev handle : DepHandle
handle = record { nodepversion = false; assumeinstalled = [] }

upgrade_is_fine : checkdeps handle (foo ∷ bar ∷ []) [] (new_bar ∷ []) true ≡ []
unfolding run
upgrade_is_fine = refl

downgrade_is_not :
    checkdeps handle (foo ∷ bar ∷ []) [] (old_bar ∷ []) true
    ≡ record { target = codes "foo"; depend = needs; causingpkg = some (codes "bar") } ∷ []
unfolding run
downgrade_is_not = refl

orphan : recursedeps (foo ∷ bar ∷ []) (foo ∷ []) false ≡ foo ∷ bar ∷ []
unfolding run
orphan = refl

installed-IsClosed : IsClosed handle (foo ∷ bar ∷ [])
unfolding run
installed-IsClosed = ((refl, tt), (tt, tt))

checkdeps-closed_example :
    AllIn
      (λ (p : Pkg).
        AllIn
          (Holds handle (new_bar ∷ []) (untouched_pkgs [] (new_bar ∷ []) (foo ∷ bar ∷ [])))
          p.depends)
      ((new_bar ∷ []) ++ untouched_pkgs [] (new_bar ∷ []) (foo ∷ bar ∷ []))
checkdeps-closed_example =
    checkdeps-closed handle [] (new_bar ∷ []) (foo ∷ bar ∷ []) installed-IsClosed upgrade_is_fine

moved_run : select_closure 2 true (bar ∷ []) (foo ∷ []) ≡ ([], foo ∷ bar ∷ [])
unfolding run
moved_run = refl

select_closure-IsClosure_example :
    IsClosure true
      (bar ∷ [])
      (foo ∷ [])
      (select_closure 2 true (bar ∷ []) (foo ∷ [])).0
      (select_closure 2 true (bar ∷ []) (foo ∷ [])).1
select_closure-IsClosure_example =
    select_closure-IsClosure 2 true (bar ∷ []) (foo ∷ []) (omega arith)

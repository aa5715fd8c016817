-- ===== src/Resolve/Tests.antt =====
-- Resolutions against one database of two packages, and the theorems at them.
use dulge.Base.{
  ◌≡◌, ◌⊎◌, refl, true, false, none, some, List, [], ◌∷◌, Str, codes, strcmp, str_eq, length, suc,
  inl, inr,
}
use dulge.Deps.{
  dep_vercmp, depcmp_literal, provision_satisfies, depcmp_provides, depcmp, find_dep_satisfier,
  split_modified, check_upgrade_deps, check_upgrade, check_reverse_deps, check_reverse, checkdeps,
  found,
}
use dulge.Deps.Names.{IsListed}
use dulge.Package.{
  Pkg, Depend, mod_any, mod_eq, explicit_reason, hash_sdbm, sdbm_from, pkg_find, pkg_find_hashed,
  pkg_cmp,
}
use dulge.Resolve.{
  Repo, Resolver, Resolution, resolved, any_match, in_ignored_group, pkg_should_ignore, takes,
  literals, search_cache, search_dbs, resolvedep, resolve_all, resolvedeps,
}
use dulge.Resolve.Provider.{InRepos, Fits, resolvedep-Fits}
use dulge.Resolve.Steps.{IsUniverse, Post}
use dulge.Resolve.Ends.{resolvedeps-Post}
use dulge.Version.{
  parse_evr, rpmvercmp, pkg_vercmp, vercmp_evr, rounds, round, at_segments, compare_segments,
  compare_numeric, split_last,
}

run : Unit {0}
unfolding strcmp str_eq sdbm_from hash_sdbm pkg_find pkg_find_hashed pkg_cmp dep_vercmp
    depcmp_literal provision_satisfies depcmp_provides depcmp find_dep_satisfier split_modified
    check_upgrade_deps check_upgrade check_reverse_deps check_reverse checkdeps any_match
    in_ignored_group pkg_should_ignore takes literals search_cache search_dbs resolvedep resolve_all
    resolvedeps parse_evr rpmvercmp pkg_vercmp vercmp_evr rounds round at_segments compare_segments
    compare_numeric split_last
run = tt

abbrev make_pkg : Str → Str → List Depend → Pkg
make_pkg name version depends = record {
  addr = 0;
  name = name;
  version = version;
  name_hash = hash_sdbm name;
  arch = none;
  reason = explicit_reason;
  groups = [];
  depends = depends;
  conflicts = [];
  provides = [];
  replaces = [];
}

abbrev needs : Depend
needs = record {
  name = codes "bar";
  version = none;
  desc = none;
  name_hash = hash_sdbm (codes "bar");
  dep_mod = mod_any;
}

abbrev foo : Pkg
foo = make_pkg (codes "foo") (codes "1-1") (needs ∷ [])

abbrev bar : Pkg
bar = make_pkg (codes "bar") (codes "1-1") []

abbrev core : Repo
core = record {
  install = true;
  upgrade = true;
  pkgcache = foo ∷ bar ∷ [];
  pkgfromcache = pkg_find (foo ∷ bar ∷ []);
}

abbrev local : Repo
local = record { install = true; upgrade = true; pkgcache = []; pkgfromcache = pkg_find [] }

abbrev handle : Resolver
handle = record {
  deps = record { nodepversion = false; assumeinstalled = [] };
  ignorepkg = [];
  ignoregroup = [];
  fnmatch = str_eq;
  install_ignorepkg = λ pkg. false;
  select_provider = λ providers dep. some 0;
  db_local = local;
  dbs_sync = core ∷ [];
}

resolvedep_run : resolvedep handle needs (core ∷ []) [] false ≡ resolved bar
unfolding run
resolvedep_run = refl

resolvedeps_run :
    resolvedeps 3 handle [] [] [] foo [] []
    ≡ some (record { packages = foo ∷ bar ∷ []; data_ = []; ret = true })
unfolding run
resolvedeps_run = refl

-- A later version of `bar` is in the list, the package needs the earlier one, which is preferred:
-- the call succeeds, and the dependency is not satisfied.
abbrev exactly : Depend
exactly = record needs { version = some (codes "1-1"); dep_mod = mod_eq }

abbrev later_bar : Pkg
later_bar = make_pkg (codes "bar") (codes "2-1") []

abbrev strict : Pkg
strict = make_pkg (codes "strict") (codes "1-1") (exactly ∷ [])

resolvedeps_shadowed :
    resolvedeps 3 handle [] (bar ∷ []) [] strict (later_bar ∷ []) []
    ≡ some (record { packages = later_bar ∷ strict ∷ []; data_ = []; ret = true })
unfolding run
resolvedeps_shadowed = refl

shadowed_missing : found (find_dep_satisfier (later_bar ∷ strict ∷ []) exactly) ≡ false
unfolding run
shadowed_missing = refl

whole : IsUniverse handle [] (foo ∷ bar ∷ [])
whole = record { local = λ name. refl; sync = (λ name. refl, tt); holds = holds }
  where
    holds : (q : Pkg) → IsListed [] q ⊎ InRepos (core ∷ []) q → IsListed (foo ∷ bar ∷ []) q
    holds q (inl l) = absurd l
    holds q (inr (inl (u, l))) = l
    holds q (inr (inr l)) = absurd l

hashed : (q : Pkg) → IsListed (foo ∷ bar ∷ []) q → q.name_hash ≡ hash_sdbm q.name
hashed q (inl e) = rw (← e) refl
hashed q (inr (inl e)) = rw (← e) refl
hashed q (inr (inr l)) = absurd l

resolvedep-Fits_example : InRepos (core ∷ []) bar × Fits needs [] bar
resolvedep-Fits_example =
    resolvedep-Fits handle false needs [] (core ∷ []) bar (λ name. refl, tt) resolvedep_run

resolvedeps-Post_example :
    (r : Resolution) × (resolvedeps (suc (length (foo ∷ bar ∷ []))) handle [] [] [] foo [] []
      ≡ some r)
    × Post handle [] [] [] (foo ∷ bar ∷ []) whole foo [] r
resolvedeps-Post_example =
    resolvedeps-Post handle [] [] [] (foo ∷ bar ∷ []) whole hashed foo [] [] (inl refl)

-- ===== src/Upgrade/Tests.antt =====
-- An upgrade of two packages from two databases (lib/libalpm/sync.c).
use dulge.Base.{
  ℕ, ◌≡◌, refl, Bool, true, false, none, some, List, [], ◌∷◌, Str, codes, inl, inr, subst, strcmp,
  str_eq,
}
use dulge.Deps.Names.{finds_name}
use dulge.Deps.{depcmp_literal, dep_vercmp}
use dulge.Package.{
  Pkg, Depend, mod_any, explicit_reason, depend_reason, hash_sdbm, sdbm_from, pkg_find,
  pkg_find_hashed,
}
use dulge.Resolve.{Repo, Resolver, any_match, in_ignored_group, pkg_should_ignore}
use dulge.Trans.State.{initialized}
use dulge.Upgrade.{
  SyncDb, compare_versions, first_found, get_new_version, target_find, target_update, is_replaced,
  check_literal, check_replacer, check_replacers, upgrade_pkg, upgrade_all, UpgradeTrans, upgraded,
  sync_sysupgrade,
}
use dulge.Upgrade.Exact.{sync_sysupgrade-get_new_version}
use dulge.Upgrade.Unique.{IsSyncDb, sync_sysupgrade-AreUnique}
use dulge.Upgrade.Names.{AreUnique, IsHashed}
use dulge.Version.{
  split_last, parse_evr, showdown, compare_numeric, compare_segments, at_segments, round, rounds,
  rpmvercmp, vercmp_evr, pkg_vercmp,
}

run : Unit {0}
unfolding strcmp str_eq split_last parse_evr showdown compare_numeric compare_segments at_segments
    round rounds rpmvercmp vercmp_evr pkg_vercmp sdbm_from hash_sdbm pkg_find pkg_find_hashed
    dep_vercmp depcmp_literal any_match in_ignored_group pkg_should_ignore compare_versions
    first_found get_new_version target_find target_update is_replaced check_literal check_replacer
    check_replacers upgrade_pkg upgrade_all sync_sysupgrade
run = tt

abbrev pkg_of : ℕ → Str → Str → List Depend → Pkg
pkg_of addr name version replaces = record {
  addr = addr;
  name = name;
  version = version;
  name_hash = hash_sdbm name;
  arch = none;
  reason = explicit_reason;
  groups = [];
  depends = [];
  conflicts = [];
  provides = [];
  replaces = replaces;
}

-- A cache as a list with its search.
abbrev repo_of : List Pkg → Repo
repo_of pkgs = record {
  install = true;
  upgrade = true;
  pkgcache = pkgs;
  pkgfromcache = λ n. pkg_find pkgs n;
}

abbrev on_bar : Depend
on_bar = record {
  name = codes "bar";
  version = none;
  desc = none;
  name_hash = hash_sdbm (codes "bar");
  dep_mod = mod_any;
}

abbrev foo_1 : Pkg
foo_1 = pkg_of 1 (codes "foo") (codes "1.0-1") []

abbrev bar_1 : Pkg
bar_1 = record (pkg_of 2 (codes "bar") (codes "1.0-1") []) { reason = depend_reason }

abbrev foo_2 : Pkg
foo_2 = pkg_of 3 (codes "foo") (codes "2.0-1") []

abbrev new_bar : Pkg
new_bar = pkg_of 4 (codes "newbar") (codes "1.0-1") (on_bar ∷ [])

abbrev handle_of : List Pkg → Resolver
handle_of locals = record {
  deps = record { nodepversion = false; assumeinstalled = [] };
  ignorepkg = [];
  ignoregroup = [];
  fnmatch = λ p s. str_eq p s;
  install_ignorepkg = λ p. false;
  select_provider = λ ps d. none;
  db_local = repo_of locals;
  dbs_sync = [];
}

abbrev yes : Pkg → Pkg → Bool
yes old new = true

abbrev open_trans : UpgradeTrans
open_trans = record { state = initialized; add = []; remove = [] }

abbrev core : SyncDb
core = record { addr = 7; repo = repo_of (foo_2 ∷ []) }

abbrev extra : SyncDb
extra = record { addr = 8; repo = repo_of (new_bar ∷ []) }

-- `bar` is replaced, and `newbar` takes over why it was installed.
with_replacer :
    sync_sysupgrade (handle_of (bar_1 ∷ foo_1 ∷ [])) yes false (core ∷ extra ∷ []) (some open_trans)
    ≡ upgraded (record open_trans {
      add =
          record { pkg = record new_bar { reason = depend_reason }; db = 8; removes = bar_1 ∷ [] }
          ∷ record { pkg = foo_2; db = 7; removes = [] }
          ∷ [];
    })
unfolding run
with_replacer = refl

named_of :
    (x : Pkg)
    → IsHashed x
    → (name : Str) (p : Pkg) → pkg_find (x ∷ []) name ≡ some p
    → (p.name ≡ name) × IsHashed p
unfolding pkg_find
named_of x h name p q =
    let (l, n) = finds_name (x ∷ []) (hash_sdbm name) name p q in
    elim l [ inl e ↦ (n, subst IsHashed e h) | inr k ↦ absurd k ]

core-IsSyncDb : IsSyncDb core
core-IsSyncDb = record { distinct = (refl, tt, tt); named = named_of foo_2 refl }

extra-IsSyncDb : IsSyncDb extra
extra-IsSyncDb = record { distinct = (refl, tt, tt); named = named_of new_bar refl }

sync_sysupgrade-AreUnique_example : AreUnique (
    record { pkg = record new_bar { reason = depend_reason }; db = 8; removes = bar_1 ∷ [] }
    ∷ record { pkg = foo_2; db = 7; removes = [] }
    ∷ [])
unfolding run
sync_sysupgrade-AreUnique_example =
    sync_sysupgrade-AreUnique (handle_of (bar_1 ∷ foo_1 ∷ [])) yes false (core ∷ extra ∷ [])
      open_trans
      (record open_trans {
        add =
            record { pkg = record new_bar { reason = depend_reason }; db = 8; removes = bar_1 ∷ [] }
            ∷ record { pkg = foo_2; db = 7; removes = [] }
            ∷ [];
      })
      (core-IsSyncDb, (extra-IsSyncDb, tt)) tt refl

sync_sysupgrade-get_new_version_example :
    sync_sysupgrade (handle_of (bar_1 ∷ foo_1 ∷ [])) yes false (core ∷ []) (some open_trans)
    ≡ upgraded (record open_trans { add = record { pkg = foo_2; db = 7; removes = [] } ∷ [] })
unfolding run
sync_sysupgrade-get_new_version_example =
    sync_sysupgrade-get_new_version (handle_of (bar_1 ∷ foo_1 ∷ [])) yes (core ∷ []) open_trans
      (core-IsSyncDb, tt) (refl, (refl, tt), (refl, tt, tt))
      (((refl, tt), tt), (((refl, tt), tt), tt)) refl

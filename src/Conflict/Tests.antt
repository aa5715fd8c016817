-- ===== src/Conflict/Tests.antt =====
-- Two packages of which one conflicts with a name that the other provides: a run, and the theorem.
use dulge.Base.{◌≡◌, refl, true, none, [], ◌∷◌, Str, List, codes, strcmp, str_eq}
use dulge.Conflict.{
  conflict_isin, conflict_new, add_conflict, consider, check_one, check_pkg, check_conflict,
  innerconflicts,
}
use dulge.Conflict.Complete.{Cared, check_conflict_complete}
use dulge.Deps.{dep_vercmp, depcmp_literal, provision_satisfies, depcmp_provides, depcmp}
use dulge.Deps.Check.{AllIn}
use dulge.Package.{Pkg, Depend, mod_any, explicit_reason, hash_sdbm, sdbm_from}

run : Unit {0}
unfolding strcmp str_eq sdbm_from hash_sdbm dep_vercmp depcmp_literal provision_satisfies
    depcmp_provides depcmp conflict_isin add_conflict consider check_one check_pkg check_conflict
    innerconflicts
run = tt

abbrev mail : Depend
mail = record {
  name = codes "mail";
  version = none;
  desc = none;
  name_hash = hash_sdbm (codes "mail");
  dep_mod = mod_any;
}

abbrev make_pkg : Str → List Depend → List Depend → Pkg
make_pkg name conflicts provides = record {
  addr = 0;
  name = name;
  version = codes "1-1";
  name_hash = hash_sdbm name;
  arch = none;
  reason = explicit_reason;
  groups = [];
  depends = [];
  conflicts = conflicts;
  provides = provides;
  replaces = [];
}

abbrev foo : Pkg
foo = make_pkg (codes "foo") (mail ∷ []) (mail ∷ [])

abbrev bar : Pkg
bar = make_pkg (codes "bar") [] (mail ∷ [])

one_conflict : innerconflicts (foo ∷ bar ∷ []) ≡ conflict_new foo bar mail ∷ []
unfolding run
one_conflict = refl

check_conflict_complete_example :
    AllIn
      (λ (p : Pkg).
        AllIn
          (λ (c : Depend).
            AllIn
              (Cared true (check_conflict (foo ∷ []) (bar ∷ foo ∷ []) [] true) p c)
              (bar ∷ foo ∷ []))
          p.conflicts)
      (foo ∷ [])
check_conflict_complete_example = check_conflict_complete (foo ∷ []) (bar ∷ foo ∷ []) [] true

-- ===== src/Graph/Tests.antt =====
-- Orders of small transactions.
use dulge.AlpmList
use dulge.Base.{
  Bool, ◌≡◌, refl, true, false, none, some, map, List, [], ◌∷◌, Str, codes, strcmp, str_eq,
}
use dulge.Deps.{
  dep_vercmp, depcmp_literal, provision_satisfies, depcmp_provides, depcmp, any_dep, pkg_depends_on,
}
use dulge.Deps.Check.{count_if}
use dulge.Graph.{
  children_in, take_locals, graph_edges, dep_graph_init, next_child, next_vertex, round, walk,
  sortbydeps,
}
use dulge.Graph.Edges.{sortbydeps-ends}
use dulge.Graph.Targets.{sortbydeps-count}
use dulge.Package.{Pkg, Depend, mod_any, explicit_reason, hash_sdbm, sdbm_from, pkg_cmp}

run : Unit {0}
unfolding strcmp str_eq sdbm_from hash_sdbm pkg_cmp dep_vercmp depcmp_literal provision_satisfies
    depcmp_provides depcmp any_dep pkg_depends_on AlpmList.diff AlpmList.diff_sorted
    AlpmList.msort_fuel AlpmList.count_from AlpmList.mmerge AlpmList.list_reverse AlpmList.find_ptr
    children_in take_locals graph_edges dep_graph_init next_child next_vertex round walk sortbydeps
run = tt

abbrev on : Str → Depend
on name = record {
  name = name;
  version = none;
  desc = none;
  name_hash = hash_sdbm name;
  dep_mod = mod_any;
}

abbrev make_pkg : Str → List Str → Pkg
make_pkg name depends = record {
  addr = hash_sdbm name;
  name = name;
  version = codes "1-1";
  name_hash = hash_sdbm name;
  arch = none;
  reason = explicit_reason;
  groups = [];
  depends = map on depends;
  conflicts = [];
  provides = [];
  replaces = [];
}

abbrev a : Pkg
a = make_pkg (codes "A") (codes "C" ∷ [])

abbrev b : Pkg
b = make_pkg (codes "B") (codes "A" ∷ [])

abbrev c : Pkg
c = make_pkg (codes "C") []

abbrev d : Pkg
d = make_pkg (codes "D") []

-- The example in the comment of `_alpm_sortbydeps`.
sortbydeps_comment : sortbydeps [] (a ∷ b ∷ c ∷ d ∷ []) [] false ≡ some (c ∷ a ∷ b ∷ d ∷ [])
unfolding run
sortbydeps_comment = refl

sortbydeps_reverse : sortbydeps [] (a ∷ b ∷ c ∷ d ∷ []) [] true ≡ some (d ∷ b ∷ a ∷ c ∷ [])
unfolding run
sortbydeps_reverse = refl

-- A dependency through an installed package: `B` needs `A`, which needs `C`.
sortbydeps_local : sortbydeps (a ∷ []) (b ∷ c ∷ []) [] false ≡ some (c ∷ b ∷ [])
unfolding run
sortbydeps_local = refl

-- Of two packages that need each other the second one comes first.
abbrev e : Pkg
e = make_pkg (codes "E") (codes "F" ∷ [])

abbrev f : Pkg
f = make_pkg (codes "F") (codes "E" ∷ [])

sortbydeps_cycle : sortbydeps [] (e ∷ f ∷ []) [] false ≡ some (f ∷ e ∷ [])
unfolding run
sortbydeps_cycle = refl

sortbydeps-ends_example :
    (newtargs : List Pkg) × (sortbydeps [] (e ∷ f ∷ []) [] true ≡ some newtargs)
sortbydeps-ends_example = sortbydeps-ends [] (e ∷ f ∷ []) [] true

sortbydeps-count_example :
    (newtargs : List Pkg) × (sortbydeps (a ∷ []) (b ∷ c ∷ []) [] true ≡ some newtargs)
    × ((q : Pkg → Bool) → count_if q newtargs ≡ count_if q (b ∷ c ∷ []))
unfolding run
sortbydeps-count_example =
    sortbydeps-count (a ∷ []) (b ∷ c ∷ []) [] true (refl, (refl, tt)) (refl, tt)

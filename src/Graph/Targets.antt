-- ===== src/Graph/Targets.antt =====
-- `_alpm_sortbydeps` gives back the targets, each as often as it was there.
use dulge.AlpmList
use dulge.AlpmList.Dupes.{list_reverse-eq, backwards-eq}
use dulge.AlpmList.Order.{to_nat}
use dulge.Base.{
  ℕ, zero, suc, ◌+◌, ◌≡◌, refl, sym, ap, ◌∙◌, Bool, true, false, some, List, [], ◌∷◌, ◌++◌, map,
  inl, inr, arith, get_elem?, length, Option-cases, Bool-cases, ◌==◌, ==_iff, if◌then◌else◌,
}
use dulge.Deps.{pkg_depends_on}
use dulge.Deps.Check.{AllIn, AllIn-map, count_if, count_if-append}
use dulge.Graph.{
  unprocessed, processing, Vertex, graph_new, update, children_in, take_locals, indices,
  graph_edges, other_pkgs, dep_graph_init, total_weight, sortbydeps,
}
use dulge.Graph.Counts.{sum_of, sum_of-kept, is_target, part, done_part, Whole}
use dulge.Graph.Edges.{IsNew, graph_new-IsNew, length-new, start-OnStack, graph_edges-IsNew}
use dulge.Graph.Ends.{walk-ends}
use dulge.Graph.Stack.{state_at}
use dulge.Graph.Whole.{walk-count}
use dulge.Package.{Pkg}

count_backwards : (q : Pkg → Bool) (l : List Pkg) → count_if q (AlpmList.backwards l) ≡ count_if q l
unfolding AlpmList.backwards
count_backwards q [] = refl
count_backwards q (x ∷ l) =
    omega (arith, count_if-append q (AlpmList.backwards l) (x ∷ []), count_backwards q l)

count_reverse :
    (q : Pkg → Bool) (l : List Pkg) → count_if q (AlpmList.list_reverse l) ≡ count_if q l
count_reverse q l = ap (count_if q) (list_reverse-eq l ∙ sym (backwards-eq l)) ∙ count_backwards q l

abbrev NotTarget : List Pkg → Pkg → Type 0
NotTarget targets p = is_target targets p ≡ false

take_locals-AllIn :
    (P : Pkg → Type 0) (pkg : Pkg) (locals : List Pkg)
    → AllIn P locals
    → AllIn P (take_locals pkg locals).0 × AllIn P (take_locals pkg locals).1
unfolding take_locals
take_locals-AllIn P pkg [] h = (tt, tt)
take_locals-AllIn P pkg (p ∷ locals) h =
    let (a, b) = take_locals-AllIn P pkg locals h.1 in
    elim (Bool-cases (pkg_depends_on pkg p)) [
      | inl e ↦ rw (e, AllIn) ((h.0, a), b)
      | inr e ↦ rw (e, AllIn) (a, (h.0, b))
    ]

module _ (q : Pkg → Bool) (targets : List Pkg) where
  sum_of-append :
      (vs : List Vertex) (ps : List Pkg)
      → AllIn (NotTarget targets) ps
      → sum_of (part q targets) (vs ++ map graph_new ps) ≡ sum_of (part q targets) vs
  sum_of-append [] [] h = refl
  sum_of-append [] (p ∷ ps) h =
      let none_here : part q targets (graph_new p) ≡ 0 = rw h.0 refl in
      omega (arith, none_here, sum_of-append [] ps h.1)
  sum_of-append (x ∷ vs) ps h = omega (arith, sum_of-append vs ps h)

  graph_edges-sum :
      (fuel i : ℕ) (vs : List Vertex) (locals : List Pkg) (graph : List Vertex)
      → AllIn (NotTarget targets) locals
      → graph_edges fuel i vs locals ≡ some graph
      → sum_of (part q targets) graph ≡ sum_of (part q targets) vs
  unfolding graph_edges
  graph_edges-sum zero i vs locals graph h e = cc
  graph_edges-sum (suc fuel) i vs locals graph h e = elim (Option-cases (get_elem? vs i)) [
    | inl f ↦ ap (sum_of (part q targets)) (sym (some_eq (rw (f, graph_edges) at e)))
    | inr (x, f) ↦
        let (added, left) = take_locals x.pkg locals in
        let children = children_in x.pkg 0 vs ++ indices (length vs) added in
        let (a, l) = take_locals-AllIn (NotTarget targets) x.pkg locals h in
        graph_edges-sum fuel (suc i)
          (update (vs ++ map graph_new added) i
            (λ y. record y { children = children; iterator = children }))
          left graph l (rw (f, graph_edges) at e)
        ∙ (sum_of-kept (part q targets) _ (λ y. refl) (vs ++ map graph_new added) i
            ∙ sum_of-append vs added a)
  ]
    where
      some_eq : {a b : List Vertex} → some a ≡ some b → a ≡ b
      some_eq r = cc

  targets_sum :
      (ts : List Pkg)
      → AllIn (λ (t : Pkg). is_target targets t ≡ true) ts
      → sum_of (part q targets) (map graph_new ts) ≡ count_if q ts
  targets_sum [] h = refl
  targets_sum (t ∷ ts) h =
      let here : part q targets (graph_new t) ≡ to_nat (q t) = rw h.0 refl in
      omega (arith, here, targets_sum ts h.1)

  start-Whole : (vs : List Vertex) → AllIn IsNew vs → Whole q targets vs 0 0 [] []
  start-Whole vs h = record {
    cover = λ u e. absurd (idle vs h u e);
    before = λ u l e. omega (arith, l);
    counted = sym (nothing vs h);
  }
    where
      idle : (vs : List Vertex) → AllIn IsNew vs → (u : ℕ) → state_at vs u ≡ some processing → ⊥
      idle [] h u e = cc
      idle (x ∷ vs) h zero e = clash (sym (ap (λ z. some z) h.0.0) ∙ e)
        where
          clash : some unprocessed ≡ some processing → ⊥
          clash r = cc
      idle (x ∷ vs) h (suc u) e = idle vs h.1 u e

      nothing : (vs : List Vertex) → AllIn IsNew vs → sum_of (done_part q targets) vs ≡ 0
      nothing [] h = refl
      nothing (x ∷ vs) h =
          let here : done_part q targets x ≡ 0 = rw h.0.0 refl in
          omega (arith, here, nothing vs h.1)

own_targets :
    (ts : List Pkg)
    → AllIn (λ (t : Pkg). (t.addr == 0) ≡ false) ts
    → AllIn (λ (t : Pkg). is_target ts t ≡ true) ts
unfolding AlpmList.find_ptr
own_targets [] h = tt
own_targets (t ∷ ts) h = (head, AllIn-map _ _ (λ p e. later p e) ts (own_targets ts h.1))
  where
    head : is_target (t ∷ ts) t ≡ true
    head = let s = (==_iff t.addr t.addr).1 refl in rw (h.0, s) refl

    later : (p : Pkg) → is_target ts p ≡ true → is_target (t ∷ ts) p ≡ true
    later p e = ground arith

-- `_alpm_sortbydeps` ends, and the list that it returns is a rearrangement of the targets: whatever
-- is counted, as many of the new list as of the targets. The targets are not null, and the
-- installed packages that are neither targets nor ignored, by name, are no objects of the list.
pub sortbydeps-count :
    (pkgcache targets ignore : List Pkg) (reverse : Bool)
    → AllIn (λ (t : Pkg). (t.addr == 0) ≡ false) targets
    → AllIn (λ (p : Pkg). is_target targets p ≡ false) (other_pkgs pkgcache targets ignore)
    → (newtargs : List Pkg) × (sortbydeps pkgcache targets ignore reverse ≡ some newtargs)
      × ((q : Pkg → Bool) → count_if q newtargs ≡ count_if q targets)
unfolding sortbydeps dep_graph_init
sortbydeps-count pkgcache [] ignore reverse h k = ([], refl, λ q. refl)
sortbydeps-count pkgcache (t ∷ targets) ignore reverse h k =
    let ts = t ∷ targets in
    let locals = other_pkgs pkgcache ts ignore in
    let vs = map graph_new ts in
    let (graph, e, new, size) =
      graph_edges-IsNew (suc (length ts + length locals)) 0 vs locals (omega (arith, length-new ts))
        (omega arith) (graph_new-IsNew ts) in
    let start = start-OnStack graph new (omega (arith, size, length-new ts)) in
    let (newtargs, f) =
      walk-ends (suc (total_weight graph)) ts
        (record { vertices = graph; i = 0; vertex = 0; newtargs = [] }) [] start (omega arith) in
    let counts : (q : Pkg → Bool) → count_if q newtargs ≡ count_if q ts = λ q.
      walk-count q ts (suc (total_weight graph))
        (record { vertices = graph; i = 0; vertex = 0; newtargs = [] }) [] (count_if q ts) newtargs
        start (start-Whole q ts graph new)
        (graph_edges-sum q ts (suc (length ts + length locals)) 0 vs locals graph k e
          ∙ targets_sum q ts ts (own_targets ts h))
        f in
    (
      if reverse then AlpmList.list_reverse newtargs else newtargs,
      rw (e, f) refl,
      λ q. turned q newtargs reverse ∙ counts q,
    )
  where
    turned :
        (q : Pkg → Bool) (l : List Pkg) (b : Bool)
        → count_if q (if b then AlpmList.list_reverse l else l) ≡ count_if q l
    turned q l true = count_reverse q l
    turned q l false = refl

-- ===== src/Graph/Edges.antt =====
-- The graph that `dep_graph_init` makes, and `_alpm_sortbydeps` as a whole.
use dulge.AlpmList
use dulge.Base.{
  ℕ, zero, suc, ◌+◌, ◌≤◌, ◌<◌, ◌≡◌, refl, ap, ◌∙◌, Bool, none, some, List, [], ◌∷◌, ◌++◌, map, inl,
  inr, arith, get_elem?, length, length-append, Option-cases, if◌then◌else◌,
}
use dulge.Deps.Check.{AllIn, AllIn-append}
use dulge.Graph.{
  unprocessed, Vertex, graph_new, update, children_in, take_locals, indices, graph_edges,
  other_pkgs, dep_graph_init, total_weight, sortbydeps,
}
use dulge.Graph.Stack.{state_at, parent_at, OnStack}
use dulge.Graph.Ends.{walk-ends}
use dulge.Package.{Pkg}

-- A vertex that no round has touched.
abbrev pub IsNew : Vertex → Type 0
IsNew x = (x.state ≡ unprocessed) × (x.parent ≡ none)

pub graph_new-IsNew : (ps : List Pkg) → AllIn IsNew (map graph_new ps)
graph_new-IsNew [] = tt
graph_new-IsNew (p ∷ ps) = ((refl, refl), graph_new-IsNew ps)

update-IsNew :
    (f : Vertex → Vertex)
    → ((x : Vertex) → IsNew x → IsNew (f x))
    → (vs : List Vertex) (i : ℕ) → AllIn IsNew vs
    → AllIn IsNew (update vs i f)
update-IsNew f k [] i h = tt
update-IsNew f k (x ∷ vs) zero h = (k x h.0, h.1)
update-IsNew f k (x ∷ vs) (suc i) h = (h.0, update-IsNew f k vs i h.1)

length-update :
    (f : Vertex → Vertex) (vs : List Vertex) (i : ℕ) → length (update vs i f) ≡ length vs
length-update f [] i = refl
length-update f (x ∷ vs) zero = refl
length-update f (x ∷ vs) (suc i) = ap suc (length-update f vs i)

pub length-new : (ps : List Pkg) → length (map graph_new ps) ≡ length ps
length-new [] = refl
length-new (p ∷ ps) = ap suc (length-new ps)

length-take_locals :
    (pkg : Pkg) (locals : List Pkg)
    → length (take_locals pkg locals).0 + length (take_locals pkg locals).1 ≡ length locals
unfolding take_locals
length-take_locals pkg [] = refl
length-take_locals pkg (p ∷ locals) = ground (arith, length-take_locals pkg locals)

get-length : (vs : List Vertex) (i : ℕ) (x : Vertex) → get_elem? vs i ≡ some x → i < length vs
get-length [] i x e = cc
get-length (y ∷ vs) zero x e = omega arith
get-length (y ∷ vs) (suc i) x e = omega (arith, get-length vs i x e)

-- The loop over the growing list ends, with at least the vertices that it began with, all new.
pub graph_edges-IsNew :
    (fuel i : ℕ) (vs : List Vertex) (locals : List Pkg)
    → length vs + length locals < fuel + i
    → i ≤ length vs
    → AllIn IsNew vs
    → (vs' : List Vertex) × (graph_edges fuel i vs locals ≡ some vs')
      × AllIn IsNew vs'
      × (length vs ≤ length vs')
unfolding graph_edges
graph_edges-IsNew zero i vs locals l b h = absurd (omega arith)
graph_edges-IsNew (suc fuel) i vs locals l b h = elim (Option-cases (get_elem? vs i)) [
  | inl e ↦ rw (e, graph_edges) (vs, refl, h, omega arith)
  | inr (x, e) ↦
      let (added, left) = take_locals x.pkg locals in
      let children = children_in x.pkg 0 vs ++ indices (length vs) added in
      let vs1 = vs ++ map graph_new added in
      let f : Vertex → Vertex = λ y. record y { children = children; iterator = children } in
      let size : length (update vs1 i f) ≡ length vs + length added =
        length-update f vs1 i
        ∙ (length-append vs (map graph_new added) ∙ ap (λ z. length vs + z) (length-new added)) in
      let (vs', g, n, m) =
        graph_edges-IsNew fuel (suc i) (update vs1 i f) left
          (omega (arith, size, length-take_locals x.pkg locals, l))
          (omega (arith, size, get-length vs i x e))
          (update-IsNew f (λ y k. k) vs1 i
            (AllIn-append IsNew vs (map graph_new added) h (graph_new-IsNew added))) in
      rw (e, graph_edges) (vs', g, n, omega (arith, m, size))
]

pub IsNew-state :
    (vs : List Vertex)
    → AllIn IsNew vs
    → (u : ℕ) → u < length vs
    → (state_at vs u ≡ some unprocessed) × (parent_at vs u ≡ some none)
IsNew-state [] h u l = absurd (omega arith)
IsNew-state (x ∷ vs) h zero l = (ap (λ z. some z) h.0.0, ap (λ z. some z) h.0.1)
IsNew-state (x ∷ vs) h (suc u) l = IsNew-state vs h.1 u (omega (arith, l))

-- The walk begins at the first vertex of a new graph.
pub start-OnStack : (vs : List Vertex) → AllIn IsNew vs → 1 ≤ length vs → OnStack vs 0 []
start-OnStack vs h l = record {
  chain = (IsNew-state vs h 0 (omega (arith, l))).1;
  distinct = tt;
  alive = inl (IsNew-state vs h 0 (omega (arith, l))).0;
  fresh = λ u n e. parent vs h u e;
}
  where
    parent :
        (vs : List Vertex)
        → AllIn IsNew vs
        → (u : ℕ) → state_at vs u ≡ some unprocessed
        → parent_at vs u ≡ some none
    parent [] h u e = cc
    parent (x ∷ vs) h zero e = ap (λ z. some z) h.0.1
    parent (x ∷ vs) h (suc u) e = parent vs h.1 u e

-- `_alpm_sortbydeps` ends, on every list of packages and whatever cycles their dependencies have:
-- the loop that makes the graph, over a list that it extends itself, and the walk through the graph.
pub sortbydeps-ends :
    (pkgcache targets ignore : List Pkg) (reverse : Bool)
    → (newtargs : List Pkg) × (sortbydeps pkgcache targets ignore reverse ≡ some newtargs)
unfolding sortbydeps dep_graph_init
sortbydeps-ends pkgcache [] ignore reverse = ([], refl)
sortbydeps-ends pkgcache (t ∷ targets) ignore reverse =
    let locals = other_pkgs pkgcache (t ∷ targets) ignore in
    let vs = map graph_new (t ∷ targets) in
    let (graph, e, new, size) =
      graph_edges-IsNew (suc (length (t ∷ targets) + length locals)) 0 vs locals
        (omega (arith, length-new (t ∷ targets))) (omega arith) (graph_new-IsNew (t ∷ targets)) in
    let (newtargs, f) =
      walk-ends (suc (total_weight graph)) (t ∷ targets)
        (record { vertices = graph; i = 0; vertex = 0; newtargs = [] }) []
        (start-OnStack graph new (omega (arith, size, length-new (t ∷ targets)))) (omega arith) in
    (if reverse then AlpmList.list_reverse newtargs else newtargs, rw (e, f) refl)

-- ===== src/Graph.antt =====
-- The order of a transaction, `dep_graph_init` and `_alpm_sortbydeps` of lib/libalpm/deps.c with the
-- vertices of lib/libalpm/graph.h. A vertex stands in a list and is referred to by its index, in
-- place of its address; the weight is not used here. The warnings on cycles only go to the log.
-- malloc does not fail.
pub mod Vertices
pub mod Stack
pub mod Ends
pub mod Edges
pub mod Counts
pub mod Leave
pub mod Whole
pub mod Targets
mod Tests
use dulge.AlpmList
use dulge.Base.{
  ℕ, zero, suc, ◌+◌, ◌*◌, Bool, true, false, not, Option, none, some, List, [], ◌∷◌, ◌++◌, map,
  length, get_elem?, drop, if◌then◌else◌, ◌>>=◌,
}
use dulge.Deps.{pkg_depends_on}
use dulge.Package.{Pkg, pkg_cmp}

-- `enum _alpm_graph_vertex_state`
pub data VertexState : Type 0 where
  unprocessed processing processed : VertexState

-- `alpm_graph_t`
pub record Vertex : Type 0 where
  pub pkg : Pkg
  pub parent : Option ℕ
  pub children : List ℕ
  pub iterator : List ℕ
  pub state : VertexState

-- `_alpm_graph_new`, with the data set.
abbrev pub graph_new : Pkg → Vertex
graph_new pkg = record {
  pkg = pkg;
  parent = none;
  children = [];
  iterator = [];
  state = unprocessed;
}

-- A write to a vertex.
abbrev pub update : List Vertex → ℕ → (Vertex → Vertex) → List Vertex
update [] v f = []
update (x ∷ vs) zero f = f x ∷ vs
update (x ∷ vs) (suc v) f = x ∷ update vs v f

-- The vertices that a package depends on, by their indices from `n` on.
unfoldable pub children_in : Pkg → ℕ → List Vertex → List ℕ
children_in pkg n [] = []
children_in pkg n (vertex ∷ j) =
    let rest = children_in pkg (suc n) j in if pkg_depends_on pkg vertex.pkg then n ∷ rest else rest

-- The loop that adds local packages: those added, and those left.
unfoldable pub take_locals : Pkg → List Pkg → List Pkg × List Pkg
take_locals pkg [] = ([], [])
take_locals pkg (j ∷ next) =
    let (added, left) = take_locals pkg next in
    if pkg_depends_on pkg j then (j ∷ added, left) else (added, j ∷ left)

abbrev pub indices : ℕ → List Pkg → List ℕ
indices n [] = []
indices n (p ∷ ps) = n ∷ indices (suc n) ps

-- The loop that computes the edges, over a list to which its rounds append; `i` is the index of its
-- vertex.
unfoldable pub graph_edges : ℕ → ℕ → List Vertex → List Pkg → Option (List Vertex)
unfolding children_in take_locals
graph_edges zero i vertices localpkgs = none
graph_edges (suc fuel) i vertices localpkgs = elim (get_elem? vertices i) [
  | none ↦ some vertices
  | some vertex ↦
      let (added, left) = take_locals vertex.pkg localpkgs in
      let children = children_in vertex.pkg 0 vertices ++ indices (length vertices) added in
      graph_edges fuel (suc i)
        (update (vertices ++ map graph_new added) i
          (λ x. record x { children = children; iterator = children }))
        left
]

-- The packages that are neither targets nor ignored.
abbrev pub other_pkgs : List Pkg → List Pkg → List Pkg → List Pkg
other_pkgs pkgcache targets [] = AlpmList.diff pkg_cmp pkgcache targets
other_pkgs pkgcache targets (p ∷ ignore) =
    AlpmList.diff pkg_cmp (AlpmList.diff pkg_cmp pkgcache targets) (p ∷ ignore)

-- `dep_graph_init`; each round takes another vertex, and there are no more vertices than packages.
unfoldable pub dep_graph_init : List Pkg → List Pkg → List Pkg → Option (List Vertex)
unfolding graph_edges AlpmList.diff
dep_graph_init pkgcache targets ignore =
    let localpkgs = other_pkgs pkgcache targets ignore in
    graph_edges (suc (length targets + length localpkgs)) 0 (map graph_new targets) localpkgs

abbrev pub is_unprocessed : VertexState → Bool
is_unprocessed unprocessed = true
is_unprocessed _ = false

abbrev pub unprocessed_at : Option Vertex → Bool
unprocessed_at none = false
unprocessed_at (some x) = is_unprocessed x.state

-- The inner loop: what is left of the iterator, and the child that is switched to.
unfoldable pub next_child : List Vertex → List ℕ → List ℕ × Option ℕ
next_child vertices [] = ([], none)
next_child vertices (nextchild ∷ iterator) =
    if unprocessed_at (get_elem? vertices nextchild)
    then (iterator, some nextchild)
    else next_child vertices iterator

-- The loop that looks for the next unprocessed vertex of a list whose first index is `n`.
unfoldable pub next_vertex : ℕ → List Vertex → Option ℕ
next_vertex n [] = none
next_vertex n (vertex ∷ i) = if is_unprocessed vertex.state then some n else next_vertex (suc n) i

-- The state of the outer loop: the graph, `i`, `vertex` and `newtargs`.
pub record Walk : Type 0 where
  pub vertices : List Vertex
  pub i : ℕ
  pub vertex : ℕ
  pub newtargs : List Pkg

abbrev pub add_target : List Pkg → Pkg → List Pkg → List Pkg
add_target targets pkg newtargs =
    if AlpmList.find_ptr (map (λ (p : Pkg). p.addr) targets) pkg.addr
    then AlpmList.add newtargs pkg
    else newtargs

-- Whether the loop goes on.
pub data Next : Type 0 where
  go_on : Walk → Next
  finished : List Pkg → Next

-- The vertex has no parent: `i` moves on.
abbrev pub move_on : List Vertex → List Pkg → Option ℕ → Next
move_on vertices newtargs none = finished newtargs
move_on vertices newtargs (some i) =
    go_on (record { vertices = vertices; i = i; vertex = i; newtargs = newtargs })

-- All children have been looked at.
abbrev pub leave : List Pkg → List Vertex → Walk → Vertex → Next
leave targets vertices w x =
    let newtargs = add_target targets x.pkg w.newtargs in
    let vertices' = update vertices w.vertex (λ y. record y { state = processed }) in
    elim x.parent [
      | some parent ↦
          go_on (record { vertices = vertices'; i = w.i; vertex = parent; newtargs = newtargs })
      | none ↦ move_on vertices' newtargs (next_vertex (suc w.i) (drop (suc w.i) vertices'))
    ]

abbrev pub enter : List Pkg → List Vertex → Walk → Vertex → Option ℕ → Next
enter targets vertices w x none = leave targets vertices w x
enter targets vertices w x (some nextchild) = go_on (record w {
  vertices = update vertices nextchild (λ y. record y { parent = some w.vertex });
  vertex = nextchild;
})

-- One round of the outer loop.
unfoldable pub round : List Pkg → Walk → Vertex → Next
unfolding next_child next_vertex AlpmList.find_ptr
round targets w x =
    let vertices = update w.vertices w.vertex (λ y. record y { state = processing }) in
    let (iterator, nextchild) = next_child vertices x.iterator in
    enter targets (update vertices w.vertex (λ y. record y { iterator = iterator })) w x nextchild

unfoldable pub walk : ℕ → List Pkg → Walk → Option (List Pkg)
unfolding round
walk zero targets w = none
walk (suc fuel) targets w = elim (get_elem? w.vertices w.vertex) [
  | none ↦ none
  | some x ↦ elim (round targets w x) [
    | finished newtargs ↦ some newtargs
    | go_on w' ↦ walk fuel targets w'
  ]
]

-- What falls with each round: two for an unprocessed vertex, one for one that is processed now, and
-- the children that have not been looked at.
abbrev pub state_weight : VertexState → ℕ
state_weight unprocessed = 2
state_weight processing = 1
state_weight processed = 0

abbrev pub total_weight : List Vertex → ℕ
total_weight [] = 0
total_weight (x ∷ vs) = state_weight x.state + length x.iterator + total_weight vs

-- `_alpm_sortbydeps`; `none` is a loop that does not end.
unfoldable pub sortbydeps : List Pkg → List Pkg → List Pkg → Bool → Option (List Pkg)
unfolding dep_graph_init walk AlpmList.list_reverse
sortbydeps pkgcache [] ignore reverse = some []
sortbydeps pkgcache (t ∷ targets) ignore reverse =
    dep_graph_init pkgcache (t ∷ targets) ignore
    >>= (λ vertices.
        walk (suc (total_weight vertices)) (t ∷ targets)
          (record { vertices = vertices; i = 0; vertex = 0; newtargs = [] }))
    >>= (λ newtargs. some (if reverse then AlpmList.list_reverse newtargs else newtargs))

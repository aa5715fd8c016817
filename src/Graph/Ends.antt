-- ===== src/Graph/Ends.antt =====
-- The loop of `_alpm_sortbydeps` ends.
use dulge.Base.{
  ℕ, zero, suc, ◌+◌, ◌≤◌, ◌<◌, ◌≡◌, refl, sym, ap, ◌∙◌, Option, none, some, List, [], ◌∷◌, inl, inr,
  arith, get_elem?, drop, length,
}
use dulge.Graph.{
  VertexState, unprocessed, processing, Vertex, update, next_child, next_vertex, state_weight,
  total_weight, Walk, Next, go_on, finished, add_target, move_on, leave, enter, round, walk,
}
use dulge.Graph.Vertices.{
  at-get, get-at, at-kept, at-drop, total-update, next_child-some, next_child-none,
  next_vertex-some,
}
use dulge.Graph.Stack.{
  state_at, parent_at, OnStack, IsOpen, IsAlive, mark, advance, point, close, opened, opened-IsOpen,
  point-OnStack, close-OnStack, begin-OnStack,
}
use dulge.Package.{Pkg}

-- The weight of the graph when the current vertex has been opened.
opened_weight :
    (vs : List Vertex) (v : ℕ) (x : Vertex) (it : List ℕ)
    → get_elem? vs v ≡ some x
    → IsAlive vs v
    → total_weight (opened vs v it) + length x.iterator ≤ total_weight vs + length it
opened_weight vs v x it e a =
    let first = total-update vs v mark x e in
    let second = total-update (update vs v mark) v (advance it) (mark x) (marked vs v e) in
    omega (arith, first, second, heavy a)
  where
    marked :
        (vs : List Vertex) (v : ℕ)
        → get_elem? vs v ≡ some x
        → get_elem? (update vs v mark) v ≡ some (mark x)
    marked [] v e = cc
    marked (y ∷ vs) zero e = ap (λ z. some (mark z)) (one e)
      where
        one : some y ≡ some x → y ≡ x
        one r = cc
    marked (y ∷ vs) (suc v) e = marked vs v e

    state : (s : VertexState) → state_at vs v ≡ some s → x.state ≡ s
    state s q = one (sym (at-get (λ x. x.state) vs v x e) ∙ q)
      where
        one : some x.state ≡ some s → x.state ≡ s
        one r = cc

    heavy : IsAlive vs v → 1 ≤ state_weight x.state
    heavy (inl q) = omega (arith, ap state_weight (state unprocessed q))
    heavy (inr q) = omega (arith, ap state_weight (state processing q))

point_weight :
    (vs : List Vertex) (v c : ℕ)
    → state_at vs c ≡ some unprocessed
    → total_weight (update vs c (point v)) ≡ total_weight vs
point_weight vs v c e =
    let (y, f, g) = get-at (λ x. x.state) vs c unprocessed e in
    omega (arith, total-update vs c (point v) y f)

close_weight :
    (vs : List Vertex) (v : ℕ)
    → state_at vs v ≡ some processing
    → total_weight (update vs v close) < total_weight vs
close_weight vs v e =
    let (y, f, g) = get-at (λ x. x.state) vs v processing e in
    omega (arith, total-update vs v close y f, ap state_weight g)

-- What a round leads to: the end, or a lighter graph with a stack.
abbrev pub Lighter : ℕ → Next → Type 0
Lighter bound (finished newtargs) = Unit
Lighter bound (go_on w) =
    ((stack : List ℕ) × OnStack w.vertices w.vertex stack) × (total_weight w.vertices < bound)

leave-Lighter :
    (targets : List Pkg) (vs : List Vertex) (w : Walk) (x : Vertex) (stack : List ℕ) (bound : ℕ)
    → IsOpen vs w.vertex stack
    → parent_at vs w.vertex ≡ some x.parent
    → total_weight vs ≤ bound
    → Lighter bound (leave targets vs w x)
leave-Lighter targets vs w x [] bound open_ q l =
    rw (none_parent (sym q ∙ open_.chain)) (by (next_vertex (suc w.i) (drop (suc w.i) vs')) refl)
  where
    vs' : List Vertex
    vs' = update vs w.vertex close

    none_parent : some x.parent ≡ some none → x.parent ≡ none
    none_parent r = cc

    by :
        (o : Option ℕ)
        → next_vertex (suc w.i) (drop (suc w.i) vs') ≡ o
        → Lighter bound (move_on vs' (add_target targets x.pkg w.newtargs) o)
    by none e = tt
    by (some j) e =
        let (k, p, u) = next_vertex-some (suc w.i) (drop (suc w.i) vs') j e in
        let at_j : state_at vs' j ≡ some unprocessed =
          ap (λ z. state_at vs' z) p ∙ (sym (at-drop (λ x. x.state) (suc w.i) vs' k) ∙ u) in
        (
          ([], begin-OnStack vs w.vertex j open_ at_j),
          omega (arith, l, close_weight vs w.vertex open_.busy),
        )
leave-Lighter targets vs w x (p ∷ stack) bound open_ q l =
    rw (some_parent (sym q ∙ open_.chain.0)) (
      (stack, close-OnStack vs w.vertex p stack open_),
      omega (arith, l, close_weight vs w.vertex open_.busy),
    )
  where
    some_parent : some x.parent ≡ some (some p) → x.parent ≡ some p
    some_parent r = cc

round-Lighter :
    (targets : List Pkg) (w : Walk) (x : Vertex) (stack : List ℕ)
    → OnStack w.vertices w.vertex stack
    → get_elem? w.vertices w.vertex ≡ some x
    → Lighter (total_weight w.vertices) (round targets w x)
unfolding round
round-Lighter targets w x stack on e =
    by (next_child (update w.vertices w.vertex mark) x.iterator) refl
  where
    parent_kept : (it : List ℕ) → parent_at (opened w.vertices w.vertex it) w.vertex ≡ some x.parent
    parent_kept it =
        at-kept (λ x. x.parent) (advance it) (λ x. refl) (update w.vertices w.vertex mark) w.vertex
          w.vertex
        ∙ (at-kept (λ x. x.parent) mark (λ x. refl) w.vertices w.vertex w.vertex
            ∙ at-get (λ x. x.parent) w.vertices w.vertex x e)

    by :
        (r : List ℕ × Option ℕ)
        → next_child (update w.vertices w.vertex mark) x.iterator ≡ r
        → Lighter (total_weight w.vertices) (enter targets (opened w.vertices w.vertex r.0) w x r.1)
    by (it, some c) f =
        let (u, less) = next_child-some (update w.vertices w.vertex mark) x.iterator it c f in
        let vs = opened w.vertices w.vertex it in
        let at_c : state_at vs c ≡ some unprocessed =
          at-kept (λ x. x.state) (advance it) (λ x. refl) (update w.vertices w.vertex mark) w.vertex
            c
          ∙ u in
        (
          (
            w.vertex ∷ stack,
            point-OnStack vs w.vertex c stack (opened-IsOpen w.vertices w.vertex stack it on) at_c,
          ),
          omega (
            arith,
            less,
            opened_weight w.vertices w.vertex x it e on.alive,
            point_weight vs w.vertex c at_c,
          ),
        )
    by (it, none) f =
        let empty = next_child-none (update w.vertices w.vertex mark) x.iterator it f in
        leave-Lighter targets (opened w.vertices w.vertex it) w x stack (total_weight w.vertices)
          (opened-IsOpen w.vertices w.vertex stack it on) (parent_kept it)
          (omega
            (arith, ap (λ z. length z) empty, opened_weight w.vertices w.vertex x it e on.alive))

alive_vertex : (vs : List Vertex) (v : ℕ) → IsAlive vs v → (x : Vertex) × (get_elem? vs v ≡ some x)
alive_vertex vs v (inl e) = let (x, f, g) = get-at (λ x. x.state) vs v unprocessed e in (x, f)
alive_vertex vs v (inr e) = let (x, f, g) = get-at (λ x. x.state) vs v processing e in (x, f)

-- The outer loop ends within as many rounds as the graph weighs, from any state whose current vertex
-- is not processed and has a chain of parents.
pub walk-ends :
    (fuel : ℕ) (targets : List Pkg) (w : Walk) (stack : List ℕ)
    → OnStack w.vertices w.vertex stack
    → total_weight w.vertices < fuel
    → (newtargs : List Pkg) × (walk fuel targets w ≡ some newtargs)
unfolding walk
walk-ends zero targets w stack on l = absurd (omega arith)
walk-ends (suc fuel) targets w stack on l =
    let (x, e) = alive_vertex w.vertices w.vertex on.alive in
    rw (e, walk)
      (by (λ w' stack' on' l'. walk-ends fuel targets w' stack' on' l') (round targets w x)
        (round-Lighter targets w x stack on e))
  where
    by :
        ((w' : Walk) (stack' : List ℕ)
          → OnStack w'.vertices w'.vertex stack'
          → total_weight w'.vertices < fuel
          → (newtargs : List Pkg) × (walk fuel targets w' ≡ some newtargs))
        → (n : Next) → Lighter (total_weight w.vertices) n
        → (newtargs : List Pkg) × ((elim n as (λ z. Option (List Pkg)) [
          | finished newtargs ↦ some newtargs
          | go_on w' ↦ walk fuel targets w'
        ])
            ≡ some newtargs)
    by rest (finished newtargs) h = (newtargs, refl)
    by rest (go_on w') ((stack', on'), less) = rest w' stack' on' (omega (arith, less, l))

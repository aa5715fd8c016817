-- ===== src/Graph/Whole.antt =====
-- The walk of `_alpm_sortbydeps` puts each target into the new list once.
use dulge.Base.{
  ℕ, zero, suc, ◌≡◌, refl, sym, ap, ◌∙◌, Bool, Option, none, some, List, [], ◌∷◌, get_elem?, drop,
}
use dulge.Deps.Check.{count_if}
use dulge.Graph.{
  unprocessed, Vertex, update, next_child, next_vertex, Walk, Next, go_on, finished, move_on, leave,
  enter, round, walk,
}
use dulge.Graph.Counts.{sum_of, sum_of-kept, part, Whole, OpenWhole, opened-OpenWhole, point-Whole}
use dulge.Graph.Stack.{
  state_at, parent_at, OnStack, IsOpen, mark, advance, point, close, opened, opened-IsOpen,
  point-OnStack, close-OnStack, begin-OnStack,
}
use dulge.Graph.Vertices.{at-get, at-kept, at-drop, get-update, next_child-some, next_vertex-some}
use dulge.Package.{Pkg}
use dulge.Graph.Leave.{Good, left, left_sum, new, end_count, begin_Good, back-Whole}

module _ (q : Pkg → Bool) (targets : List Pkg) where
  leave-Good :
      (vs : List Vertex) (w : Walk) (x y : Vertex) (stack : List ℕ) (total : ℕ)
      → IsOpen vs w.vertex stack
      → OpenWhole q targets vs w.i w.vertex stack w.newtargs
      → get_elem? vs w.vertex ≡ some y
      → y.pkg ≡ x.pkg
      → sum_of (part q targets) vs ≡ total
      → parent_at vs w.vertex ≡ some x.parent
      → Good q targets total (leave targets vs w x)
  unfolding left new
  leave-Good vs w x y [] total o open_ e same sum r = rw (none_parent (sym r ∙ o.chain)) (
      by
        (next_vertex (suc w.i)
          (drop (suc w.i) (left q targets vs w x y [] total o open_ e same sum)))
        refl)
    where
      none_parent : some x.parent ≡ some none → x.parent ≡ none
      none_parent r = cc

      by :
          (next : Option ℕ)
          → next_vertex
              (suc w.i)
              (drop (suc w.i) (left q targets vs w x y [] total o open_ e same sum))
            ≡ next
          → Good q targets total (
              move_on
                (left q targets vs w x y [] total o open_ e same sum)
                (new q targets vs w x y [] total o open_ e same sum)
                next)
      by none f = end_count q targets vs w x y [] total o open_ e same sum refl f
      by (some j) f =
          let (k, p, u) = next_vertex-some (suc w.i) _ j f in
          let at_j : state_at (update vs w.vertex close) j ≡ some unprocessed =
            ap (λ z. state_at (update vs w.vertex close) z) p
            ∙ (sym (at-drop (λ x. x.state) (suc w.i) (update vs w.vertex close) k) ∙ u) in
          (
            (
              [],
              begin-OnStack vs w.vertex j o at_j,
              begin_Good q targets vs w x y [] total o open_ e same sum j refl f at_j,
            ),
            left_sum q targets vs w x y [] total o open_ e same sum,
          )
  leave-Good vs w x y (p ∷ stack) total o open_ e same sum r =
      rw (some_parent (sym r ∙ o.chain.0)) (
        (
          stack,
          close-OnStack vs w.vertex p stack o,
          back-Whole q targets vs w x y (p ∷ stack) total o open_ e same sum p stack refl,
        ),
        left_sum q targets vs w x y (p ∷ stack) total o open_ e same sum,
      )
    where
      some_parent : some x.parent ≡ some (some p) → x.parent ≡ some p
      some_parent r = cc

  round-Good :
      (w : Walk) (x : Vertex) (stack : List ℕ) (total : ℕ)
      → OnStack w.vertices w.vertex stack
      → Whole q targets w.vertices w.i w.vertex stack w.newtargs
      → get_elem? w.vertices w.vertex ≡ some x
      → sum_of (part q targets) w.vertices ≡ total
      → Good q targets total (round targets w x)
  unfolding round
  round-Good w x stack total on whole e sum =
      by (next_child (update w.vertices w.vertex mark) x.iterator) refl
    where
      open_sum : (it : List ℕ) → sum_of (part q targets) (opened w.vertices w.vertex it) ≡ total
      open_sum it =
          sum_of-kept (part q targets) (advance it) (λ x. refl) (update w.vertices w.vertex mark)
            w.vertex
          ∙ (sum_of-kept (part q targets) mark (λ x. refl) w.vertices w.vertex ∙ sum)

      parent_kept :
          (it : List ℕ) → parent_at (opened w.vertices w.vertex it) w.vertex ≡ some x.parent
      parent_kept it =
          at-kept (λ x. x.parent) (advance it) (λ x. refl) (update w.vertices w.vertex mark)
            w.vertex w.vertex
          ∙ (at-kept (λ x. x.parent) mark (λ x. refl) w.vertices w.vertex w.vertex
              ∙ at-get (λ x. x.parent) w.vertices w.vertex x e)

      by :
          (r : List ℕ × Option ℕ)
          → next_child (update w.vertices w.vertex mark) x.iterator ≡ r
          → Good q targets total (enter targets (opened w.vertices w.vertex r.0) w x r.1)
      by (it, some c) f =
          let (u, less) = next_child-some (update w.vertices w.vertex mark) x.iterator it c f in
          let vs = opened w.vertices w.vertex it in
          let at_c : state_at vs c ≡ some unprocessed =
            at-kept (λ x. x.state) (advance it) (λ x. refl) (update w.vertices w.vertex mark)
              w.vertex c
            ∙ u in
          (
            (
              w.vertex ∷ stack,
              point-OnStack vs w.vertex c stack (opened-IsOpen w.vertices w.vertex stack it on)
                  at_c,
              point-Whole q targets vs w.i w.vertex c stack w.newtargs (
                  opened-OpenWhole q targets w.vertices w.i w.vertex stack it w.newtargs x e on
                    whole),
            ),
            sum_of-kept (part q targets) (point w.vertex) (λ x. refl) vs c ∙ open_sum it,
          )
      by (it, none) f =
          leave-Good (opened w.vertices w.vertex it) w x (advance it (mark x)) stack total
            (opened-IsOpen w.vertices w.vertex stack it on)
            (opened-OpenWhole q targets w.vertices w.i w.vertex stack it w.newtargs x e on whole)
            (get-update (advance it) (update w.vertices w.vertex mark) w.vertex (mark x)
              (get-update mark w.vertices w.vertex x e))
            refl (open_sum it) (parent_kept it)

  -- The new list that the walk ends with holds each vertex that is a target once.
  pub walk-count :
      (fuel : ℕ) (w : Walk) (stack : List ℕ) (total : ℕ) (result : List Pkg)
      → OnStack w.vertices w.vertex stack
      → Whole q targets w.vertices w.i w.vertex stack w.newtargs
      → sum_of (part q targets) w.vertices ≡ total
      → walk fuel targets w ≡ some result
      → count_if q result ≡ total
  unfolding walk
  walk-count zero w stack total result on whole sum h = cc
  walk-count (suc fuel) w stack total result on whole sum h =
      vertex (get_elem? w.vertices w.vertex) refl h
        (λ w' stack' on' whole' sum' h'. walk-count fuel w' stack' total result on' whole' sum' h')
    where
      Rest : Type 0
      Rest =
          (w' : Walk) (stack' : List ℕ)
          → OnStack w'.vertices w'.vertex stack'
          → Whole q targets w'.vertices w'.i w'.vertex stack' w'.newtargs
          → sum_of (part q targets) w'.vertices ≡ total
          → walk fuel targets w' ≡ some result
          → count_if q result ≡ total

      some_eq : {a b : List Pkg} → some a ≡ some b → a ≡ b
      some_eq r = cc

      clash : none ≡ some result → ⊥
      clash r = cc

      by :
          (n : Next)
          → Good q targets total n
          → (elim n as (λ z. Option (List Pkg)) [
            | finished newtargs ↦ some newtargs
            | go_on w' ↦ walk fuel targets w'
          ])
            ≡ some result
          → Rest
          → count_if q result ≡ total
      by (finished new') g h rest = ap (count_if q) (sym (some_eq h)) ∙ g
      by (go_on w') ((stack', on', whole'), sum') h rest = rest w' stack' on' whole' sum' h

      vertex :
          (o : Option Vertex)
          → get_elem? w.vertices w.vertex ≡ o
          → (elim o as (λ z. Option (List Pkg)) [
            | none ↦ none
            | some x ↦ elim (round targets w x) [
              | finished newtargs ↦ some newtargs
              | go_on w' ↦ walk fuel targets w'
            ]
          ])
            ≡ some result
          → Rest
          → count_if q result ≡ total
      vertex none e h rest = absurd (clash h)
      vertex (some x) e h rest =
          by (round targets w x) (round-Good w x stack total on whole e sum) h rest

-- ===== src/Graph/Leave.antt =====
-- A vertex that the walk of `_alpm_sortbydeps` leaves.
use dulge.Base.{
  ℕ, zero, suc, ◌+◌, ◌-◌, ◌≤◌, ◌≡◌, ◌≢◌, ◌⊎◌, refl, sym, ap, ◌∙◌, subst, Bool, none, some, List, [],
  ◌∷◌, inl, inr, arith, get_elem?, drop,
}
use dulge.Deps.Check.{count_if}
use dulge.Graph.{
  VertexState, unprocessed, processing, processed, Vertex, update, next_vertex, Walk, Next, go_on,
  finished, add_target,
}
use dulge.Graph.Counts.{
  sum_of, sum_of-kept, same_or_other, IsIn, part, done_part, Whole, OpenWhole, close-cover,
  close-before, close-counted,
}
use dulge.Graph.Stack.{state_at, OnStack, IsOpen, close}
use dulge.Graph.Vertices.{at-drop, next_vertex-first, next_vertex-none}
use dulge.Package.{Pkg}

module _ (q : Pkg → Bool) (targets : List Pkg) where
  all_processed :
      (vs : List Vertex)
      → ((u : ℕ) (s : VertexState) → state_at vs u ≡ some s → s ≡ processed)
      → sum_of (done_part q targets) vs ≡ sum_of (part q targets) vs
  all_processed [] h = refl
  all_processed (x ∷ vs) h =
      let rest = all_processed vs (λ u s e. h (suc u) s e) in
      let here : done_part q targets x ≡ part q targets x = rw (h 0 x.state refl) refl in
      omega (arith, rest, here)

  -- What a round leads to, for a graph whose targets count for `total`.
  abbrev pub Good : ℕ → Next → Type 0
  Good total (finished new) = count_if q new ≡ total
  Good total (go_on w) =
      ((stack : List ℕ) × OnStack w.vertices w.vertex stack
        × Whole q targets w.vertices w.i w.vertex stack w.newtargs)
      × (sum_of (part q targets) w.vertices ≡ total)

  module _ (vs : List Vertex) (w : Walk) (x y : Vertex) (stack : List ℕ) (total : ℕ)
      (o : IsOpen vs w.vertex stack) (open_ : OpenWhole q targets vs w.i w.vertex stack w.newtargs)
      (at_vertex : get_elem? vs w.vertex ≡ some y) (same : y.pkg ≡ x.pkg)
      (sum : sum_of (part q targets) vs ≡ total) where
    unfoldable pub left : List Vertex
    left = update vs w.vertex close

    pub left_sum : sum_of (part q targets) left ≡ total
    unfolding left
    left_sum = sum_of-kept (part q targets) close (λ x. refl) vs w.vertex ∙ sum

    unfoldable pub new : List Pkg
    new = add_target targets x.pkg w.newtargs

    left_counted : count_if q new ≡ sum_of (done_part q targets) left
    unfolding new left
    left_counted =
        ap (λ p. count_if q (add_target targets p w.newtargs)) (sym same)
        ∙ close-counted q targets vs w.i w.vertex stack w.newtargs y at_vertex o open_

    -- There is no further vertex.
    pub end_count :
        stack ≡ [] → next_vertex (suc w.i) (drop (suc w.i) left) ≡ none → count_if q new ≡ total
    unfolding left
    end_count no_stack e = left_counted ∙ (all_processed left whole ∙ left_sum)
      where
        none_in : (u : ℕ) (st : List ℕ) → st ≡ [] → IsIn u st → ⊥
        none_in u [] q h = h
        none_in u (v ∷ st) q h = cc

        split : (u : ℕ) → (u ≤ w.i) ⊎ ((k : ℕ) × (u ≡ suc w.i + k))
        split u = by (u - w.i) refl
          where
            by : (k : ℕ) → u - w.i ≡ k → (u ≤ w.i) ⊎ ((k : ℕ) × (u ≡ suc w.i + k))
            by zero e = inl (omega (arith, e))
            by (suc k) e = inr (k, omega (arith, e))

        whole : (u : ℕ) (s : VertexState) → state_at left u ≡ some s → s ≡ processed
        whole u processed h = refl
        whole u processing h = absurd (
            none_in u stack no_stack
              (close-cover q targets vs w.i w.vertex stack w.newtargs o open_ u h))
        whole u unprocessed h = elim (split u) [
          | inl l ↦ absurd (close-before q targets vs w.i w.vertex stack w.newtargs o open_ u l h)
          | inr (k, p) ↦ absurd (
              next_vertex-none (suc w.i) (drop (suc w.i) left) k e
                (at-drop (λ x. x.state) (suc w.i) left k ∙ (ap (λ z. state_at left z) (sym p) ∙ h)))
        ]

    -- The walk begins at the next unprocessed vertex.
    pub begin_Good :
        (j : ℕ)
        → stack ≡ []
        → next_vertex (suc w.i) (drop (suc w.i) left) ≡ some j
        → state_at left j ≡ some unprocessed
        → Whole q targets left j j [] new
    unfolding left
    begin_Good j no_stack e u = record {
      cover = λ u h. inr (
          subst (IsIn u) no_stack
            (close-cover q targets vs w.i w.vertex stack w.newtargs o open_ u h));
      before = λ u l h. only u l h (u - w.i) refl (same_or_other u j);
      counted = left_counted;
    }
      where
        only :
            (u : ℕ)
            → u ≤ j
            → state_at left u ≡ some unprocessed
            → (k : ℕ) → u - w.i ≡ k
            → (u ≡ j) ⊎ (u ≢ j)
            → u ≡ j
        only u l h k d (inl r) = r
        only u l h zero d (inr n) =
            absurd (
              close-before q targets vs w.i w.vertex stack w.newtargs o open_ u (omega (arith, d))
                h)
        only u l h (suc k) d (inr n) = absurd (
            next_vertex-first (suc w.i) (drop (suc w.i) left) j k e (omega (arith, d, l, n)) (
              at-drop (λ x. x.state) (suc w.i) left k
              ∙ (ap (λ z. state_at left z) (place u k d) ∙ h)))
          where
            place : (u k : ℕ) → u - w.i ≡ suc k → suc w.i + k ≡ u
            place u k d = omega (arith, d)

    -- The walk goes back to the parent.
    pub back-Whole :
        (p : ℕ) (rest : List ℕ) → stack ≡ p ∷ rest → Whole q targets left w.i p rest new
    unfolding left
    back-Whole p rest e = record {
      cover = λ u h.
          subst (IsIn u) e (close-cover q targets vs w.i w.vertex stack w.newtargs o open_ u h);
      before =
          λ u l h. absurd (close-before q targets vs w.i w.vertex stack w.newtargs o open_ u l h);
      counted = left_counted;
    }

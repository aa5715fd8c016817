-- ===== src/Graph/Counts.antt =====
-- What the walk of `_alpm_sortbydeps` has put into the new list, counted.
use dulge.AlpmList
use dulge.AlpmList.Order.{to_nat}
use dulge.Base.{
  ℕ, zero, suc, ◌+◌, ◌≤◌, ◌≡◌, ◌≢◌, ◌⊎◌, refl, sym, ap, ◌∙◌, Bool, true, false, ◌&&◌, some, List,
  [], ◌∷◌, map, inl, inr, arith, get_elem?, Bool-cases, ◌==◌, ==_iff,
}
use dulge.Deps.Check.{count_if, count_if-append}
use dulge.Graph.{VertexState, unprocessed, processing, processed, Vertex, update, add_target}
use dulge.Graph.Vertices.{at-get, at-kept, at-other}
use dulge.Graph.Stack.{
  state_at, OnStack, IsOpen, IsAlive, mark, advance, point, close, opened, opened-other,
  opened-IsOpen, closed_state, differs, u_p, u_d,
}
use dulge.Package.{Pkg}

abbrev pub sum_of : (Vertex → ℕ) → List Vertex → ℕ
sum_of g [] = 0
sum_of g (x ∷ vs) = g x + sum_of g vs

pub sum_of-kept :
    (g : Vertex → ℕ) (f : Vertex → Vertex)
    → ((x : Vertex) → g (f x) ≡ g x)
    → (vs : List Vertex) (v : ℕ) → sum_of g (update vs v f) ≡ sum_of g vs
sum_of-kept g f k [] v = refl
sum_of-kept g f k (x ∷ vs) zero = ap (λ n. n + sum_of g vs) (k x)
sum_of-kept g f k (x ∷ vs) (suc v) = ap (λ n. g x + n) (sum_of-kept g f k vs v)

pub sum_of-update :
    (g : Vertex → ℕ) (f : Vertex → Vertex) (vs : List Vertex) (v : ℕ) (x : Vertex)
    → get_elem? vs v ≡ some x
    → sum_of g (update vs v f) + g x ≡ sum_of g vs + g (f x)
sum_of-update g f [] v x e = cc
sum_of-update g f (y ∷ vs) zero x e =
    let same : y ≡ x = one e in omega (arith, ap (λ z. g (f z)) same, ap (λ z. g z) same)
  where
    one : some y ≡ some x → y ≡ x
    one r = cc
sum_of-update g f (y ∷ vs) (suc v) x e = omega (arith, sum_of-update g f vs v x e)

pub same_or_other : (u v : ℕ) → (u ≡ v) ⊎ (u ≢ v)
same_or_other u v = elim (Bool-cases (u == v)) [
  | inl e ↦ inl ((==_iff u v).0 e)
  | inr e ↦ inr (λ q. clash e ((==_iff u v).1 q))
]
  where
    clash : {b : Bool} → b ≡ false → b ≡ true → ⊥
    clash e f = cc

-- The package is an object of the target list.
abbrev pub is_target : List Pkg → Pkg → Bool
is_target targets pkg = AlpmList.find_ptr (map (λ (p : Pkg). p.addr) targets) pkg.addr

abbrev pub is_processed : VertexState → Bool
is_processed processed = true
is_processed _ = false

pub add_target-count :
    (q : Pkg → Bool) (targets : List Pkg) (pkg : Pkg) (new : List Pkg)
    → count_if q (add_target targets pkg new)
      ≡ count_if q new + to_nat (is_target targets pkg && q pkg)
add_target-count q targets pkg new = elim (Bool-cases (is_target targets pkg)) [
  | inl e ↦ rw e (omega (arith, count_if-append q new (pkg ∷ [])))
  | inr e ↦ rw e (omega arith)
]

abbrev pub IsIn : ℕ → List ℕ → Type 0
IsIn u [] = ⊥
IsIn u (v ∷ stack) = (u ≡ v) ⊎ IsIn u stack

module _ (q : Pkg → Bool) (targets : List Pkg) where
  -- What a vertex counts for, and what it counts for when it has been left.
  abbrev pub part : Vertex → ℕ
  part x = to_nat (is_target targets x.pkg && q x.pkg)

  abbrev pub done_part : Vertex → ℕ
  done_part x = to_nat (is_processed x.state && (is_target targets x.pkg && q x.pkg))

  -- Only the stack is being processed, no vertex up to `i` is unprocessed but the current one, and
  -- the new list holds the targets that have been left.
  pub record Whole (vs : List Vertex) (i v : ℕ) (stack : List ℕ) (new : List Pkg) : Type 0 where
    pub cover : (u : ℕ) → state_at vs u ≡ some processing → (u ≡ v) ⊎ IsIn u stack
    pub before : (u : ℕ) → u ≤ i → state_at vs u ≡ some unprocessed → u ≡ v
    pub counted : count_if q new ≡ sum_of done_part vs

  -- The same of an open graph, which has no unprocessed vertex up to `i`.
  pub record OpenWhole (vs : List Vertex) (i v : ℕ) (stack : List ℕ) (new : List Pkg) : Type 0 where
    pub cover : (u : ℕ) → state_at vs u ≡ some processing → (u ≡ v) ⊎ IsIn u stack
    pub before : (u : ℕ) → u ≤ i → state_at vs u ≢ some unprocessed
    pub counted : count_if q new ≡ sum_of done_part vs

  pub opened-OpenWhole :
      (vs : List Vertex) (i v : ℕ) (stack it : List ℕ) (new : List Pkg) (x : Vertex)
      → get_elem? vs v ≡ some x
      → OnStack vs v stack
      → Whole vs i v stack new
      → OpenWhole (opened vs v it) i v stack new
  opened-OpenWhole vs i v stack it new x e on whole = record {
    cover = λ u h. covered u h (same_or_other u v);
    before = λ u l h.
        let n =
          differs (opened vs v it) u v unprocessed processing h
            (opened-IsOpen vs v stack it on).busy u_p in
        n (whole.before u l (sym (opened-other (λ x. x.state) vs v u it n) ∙ h));
    counted =
        whole.counted
        ∙ sym (sum_of-kept done_part (advance it) (λ x. refl) (update vs v mark) v ∙ marked);
  }
    where
      covered :
          (u : ℕ)
          → state_at (opened vs v it) u ≡ some processing
          → (u ≡ v) ⊎ (u ≢ v)
          → (u ≡ v) ⊎ IsIn u stack
      covered u h (inl e) = inl e
      covered u h (inr n) = whole.cover u (sym (opened-other (λ x. x.state) vs v u it n) ∙ h)

      state : (s : VertexState) → state_at vs v ≡ some s → x.state ≡ s
      state s k = one (sym (at-get (λ x. x.state) vs v x e) ∙ k)
        where
          one : some x.state ≡ some s → x.state ≡ s
          one r = cc

      nothing : IsAlive vs v → done_part x ≡ 0
      nothing (inl k) = rw (state unprocessed k) refl
      nothing (inr k) = rw (state processing k) refl

      marked : sum_of done_part (update vs v mark) ≡ sum_of done_part vs
      marked = omega (arith, sum_of-update done_part mark vs v x e, nothing on.alive)

  pub point-Whole :
      (vs : List Vertex) (i v c : ℕ) (stack : List ℕ) (new : List Pkg)
      → OpenWhole vs i v stack new
      → Whole (update vs c (point v)) i c (v ∷ stack) new
  point-Whole vs i v c stack new open_ = record {
    cover =
        λ u h. inr (open_.cover u (sym (at-kept (λ x. x.state) (point v) (λ x. refl) vs c u) ∙ h));
    before = λ u l h.
        absurd (open_.before u l (sym (at-kept (λ x. x.state) (point v) (λ x. refl) vs c u) ∙ h));
    counted = open_.counted ∙ sym (sum_of-kept done_part (point v) (λ x. refl) vs c);
  }

  -- The graph when the current vertex has been left: nothing up to `i` is unprocessed, and only the
  -- stack is being processed.
  pub close-cover :
      (vs : List Vertex) (i v : ℕ) (stack : List ℕ) (new : List Pkg)
      → IsOpen vs v stack
      → OpenWhole vs i v stack new
      → (u : ℕ) → state_at (update vs v close) u ≡ some processing
      → IsIn u stack
  close-cover vs i v stack new o open_ u h =
      let n =
        differs (update vs v close) u v processing processed h (closed_state vs v o.busy) p_d in
      by n (open_.cover u (sym (at-other (λ x. x.state) close vs v u n) ∙ h))
    where
      p_d : processing ≢ processed
      p_d e = cc

      by : u ≢ v → (u ≡ v) ⊎ IsIn u stack → IsIn u stack
      by n (inl e) = absurd (n e)
      by n (inr k) = k

  pub close-before :
      (vs : List Vertex) (i v : ℕ) (stack : List ℕ) (new : List Pkg)
      → IsOpen vs v stack
      → OpenWhole vs i v stack new
      → (u : ℕ) → u ≤ i
      → state_at (update vs v close) u ≢ some unprocessed
  close-before vs i v stack new o open_ u l h =
      let n =
        differs (update vs v close) u v unprocessed processed h (closed_state vs v o.busy) u_d in
      open_.before u l (sym (at-other (λ x. x.state) close vs v u n) ∙ h)

  pub close-counted :
      (vs : List Vertex) (i v : ℕ) (stack : List ℕ) (new : List Pkg) (x : Vertex)
      → get_elem? vs v ≡ some x
      → IsOpen vs v stack
      → OpenWhole vs i v stack new
      → count_if q (add_target targets x.pkg new) ≡ sum_of done_part (update vs v close)
  close-counted vs i v stack new x e o open_ = omega (
    arith,
    add_target-count q targets x.pkg new,
    open_.counted,
    sum_of-update done_part close vs v x e,
    nothing,
  )
    where
      nothing : done_part x ≡ 0
      nothing = rw (one (sym (at-get (λ x. x.state) vs v x e) ∙ o.busy)) refl
        where
          one : some x.state ≡ some processing → x.state ≡ processing
          one r = cc

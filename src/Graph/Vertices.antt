-- ===== src/Graph/Vertices.antt =====
-- Reads of a graph behind its writes.
use dulge.Base.{
  ℕ, zero, suc, ◌+◌, ◌<◌, ◌≡◌, ◌≢◌, refl, sym, ap, ◌∙◌, true, false, Option, none, some, List, [],
  ◌∷◌, inl, inr, arith, Bool-cases, get_elem?, drop, length,
}
use dulge.Graph.{
  VertexState, unprocessed, processing, processed, Vertex, update, is_unprocessed, unprocessed_at,
  next_child, next_vertex, state_weight, total_weight,
}

-- A field of the vertex with that index.
abbrev pub at_index {ℓ} : {B : Type ℓ} → (Vertex → B) → List Vertex → ℕ → Option B
at_index g [] u = none
at_index g (x ∷ vs) zero = some (g x)
at_index g (x ∷ vs) (suc u) = at_index g vs u

pub at-get {ℓ} :
    {B : Type ℓ} (g : Vertex → B) (vs : List Vertex) (u : ℕ) (x : Vertex)
    → get_elem? vs u ≡ some x
    → at_index g vs u ≡ some (g x)
at-get g [] u x e = cc
at-get g (y ∷ vs) zero x e = ap (λ z. some (g z)) (one e)
  where
    one : some y ≡ some x → y ≡ x
    one r = cc
at-get g (y ∷ vs) (suc u) x e = at-get g vs u x e

pub get-at {ℓ} :
    {B : Type ℓ} (g : Vertex → B) (vs : List Vertex) (u : ℕ) (b : B)
    → at_index g vs u ≡ some b
    → (x : Vertex) × (get_elem? vs u ≡ some x) × (g x ≡ b)
get-at g [] u b e = cc
get-at g (y ∷ vs) zero b e = (y, refl, one e)
  where
    one : some (g y) ≡ some b → g y ≡ b
    one r = cc
get-at g (y ∷ vs) (suc u) b e = get-at g vs u b e

-- A write that keeps the field.
pub at-kept {ℓ} :
    {B : Type ℓ} (g : Vertex → B) (f : Vertex → Vertex)
    → ((x : Vertex) → g (f x) ≡ g x)
    → (vs : List Vertex) (v u : ℕ) → at_index g (update vs v f) u ≡ at_index g vs u
at-kept g f k [] v u = refl
at-kept g f k (x ∷ vs) zero zero = ap (λ b. some b) (k x)
at-kept g f k (x ∷ vs) zero (suc u) = refl
at-kept g f k (x ∷ vs) (suc v) zero = refl
at-kept g f k (x ∷ vs) (suc v) (suc u) = at-kept g f k vs v u

-- A write to another vertex.
pub at-other {ℓ} :
    {B : Type ℓ} (g : Vertex → B) (f : Vertex → Vertex) (vs : List Vertex) (v u : ℕ)
    → u ≢ v
    → at_index g (update vs v f) u ≡ at_index g vs u
at-other g f [] v u n = refl
at-other g f (x ∷ vs) zero zero n = absurd (n refl)
at-other g f (x ∷ vs) zero (suc u) n = refl
at-other g f (x ∷ vs) (suc v) zero n = refl
at-other g f (x ∷ vs) (suc v) (suc u) n = at-other g f vs v u (λ e. n (ap suc e))

-- A write of the field.
pub at-written {ℓ κ} :
    {B : Type ℓ} {C : Type κ} (g : Vertex → B) (h : Vertex → C) (f : Vertex → Vertex) (b : B)
    → ((x : Vertex) → g (f x) ≡ b)
    → (vs : List Vertex) (v : ℕ) (c : C) → at_index h vs v ≡ some c
    → at_index g (update vs v f) v ≡ some b
at-written g h f b k [] v c e = cc
at-written g h f b k (x ∷ vs) zero c e = ap (λ z. some z) (k x)
at-written g h f b k (x ∷ vs) (suc v) c e = at-written g h f b k vs v c e

pub at-drop {ℓ} :
    {B : Type ℓ} (g : Vertex → B) (n : ℕ) (vs : List Vertex) (u : ℕ)
    → at_index g (drop n vs) u ≡ at_index g vs (n + u)
at-drop g zero vs u = ap (λ z. at_index g vs z) (omega arith)
at-drop g (suc n) [] u = refl
at-drop g (suc n) (x ∷ vs) u = at-drop g n vs u ∙ sym (ap (λ z. at_index g (x ∷ vs) z) (shift n u))
  where
    shift : (n u : ℕ) → suc n + u ≡ suc (n + u)
    shift n u = omega arith

pub get-update :
    (f : Vertex → Vertex) (vs : List Vertex) (v : ℕ) (x : Vertex)
    → get_elem? vs v ≡ some x
    → get_elem? (update vs v f) v ≡ some (f x)
get-update f [] v x e = cc
get-update f (y ∷ vs) zero x e = ap (λ z. some (f z)) (one e)
  where
    one : some y ≡ some x → y ≡ x
    one r = cc
get-update f (y ∷ vs) (suc v) x e = get-update f vs v x e

abbrev pub weight : Vertex → ℕ
weight x = state_weight x.state + length x.iterator

-- A write changes the weight by that of its vertex.
pub total-update :
    (vs : List Vertex) (v : ℕ) (f : Vertex → Vertex) (x : Vertex)
    → get_elem? vs v ≡ some x
    → total_weight (update vs v f) + weight x ≡ total_weight vs + weight (f x)
total-update [] v f x e = cc
total-update (y ∷ vs) zero f x e =
    let same : y ≡ x = one e in omega (arith, ap (λ z. weight (f z)) same, ap (λ z. weight z) same)
  where
    one : some y ≡ some x → y ≡ x
    one r = cc
total-update (y ∷ vs) (suc v) f x e = omega (arith, total-update vs v f x e)

is_unprocessed-eq : (s : VertexState) → is_unprocessed s ≡ true → s ≡ unprocessed
is_unprocessed-eq unprocessed e = refl
is_unprocessed-eq processing e = cc
is_unprocessed-eq processed e = cc

-- The child that the inner loop switches to is unprocessed, and the iterator has moved.
pub next_child-some :
    (vs : List Vertex) (it it' : List ℕ) (c : ℕ)
    → next_child vs it ≡ (it', some c)
    → (at_index (λ x. x.state) vs c ≡ some unprocessed) × (length it' < length it)
unfolding next_child
next_child-some vs [] it' c e = absurd (clash (ap (λ z. z.1) e))
  where
    clash : none ≡ some c → ⊥
    clash r = cc
next_child-some vs (n ∷ it) it' c e = elim (Bool-cases (unprocessed_at (get_elem? vs n))) [
  | inl h ↦
      let k : (it, some n) ≡ (it', some c) = rw (next_child, h) at e in
      let same : n ≡ c = one (ap (λ z. z.1) k) in
      (by (get_elem? vs c) refl (rw (← same) h), omega (arith, ap (λ z. length z.0) k))
  | inr h ↦
      let (u, l) = next_child-some vs it it' c (rw (next_child, h) at e) in (u, omega (arith, l))
]
  where
    one : some n ≡ some c → n ≡ c
    one r = cc

    by :
        (o : Option Vertex)
        → get_elem? vs c ≡ o
        → unprocessed_at o ≡ true
        → at_index (λ x. x.state) vs c ≡ some unprocessed
    by none q h = cc
    by (some x) q h =
        at-get (λ x. x.state) vs c x q ∙ ap (λ z. some z) (is_unprocessed-eq x.state h)

-- Where no child is unprocessed, the iterator comes to its end.
pub next_child-none :
    (vs : List Vertex) (it it' : List ℕ) → next_child vs it ≡ (it', none) → it' ≡ []
unfolding next_child
next_child-none vs [] it' e = sym (ap (λ z. z.0) e)
next_child-none vs (n ∷ it) it' e = elim (Bool-cases (unprocessed_at (get_elem? vs n))) [
  | inl h ↦ absurd (clash (ap (λ z. z.1) (rw (next_child, h) at e)))
  | inr h ↦ next_child-none vs it it' (rw (next_child, h) at e)
]
  where
    clash : some n ≡ none → ⊥
    clash r = cc

-- The next unprocessed vertex of a list.
pub next_vertex-some :
    (n : ℕ) (vs : List Vertex) (j : ℕ)
    → next_vertex n vs ≡ some j
    → (k : ℕ) × (j ≡ n + k) × (at_index (λ x. x.state) vs k ≡ some unprocessed)
unfolding next_vertex
next_vertex-some n [] j e = cc
next_vertex-some n (x ∷ vs) j e = elim (Bool-cases (is_unprocessed x.state)) [
  | inl h ↦ (
    0,
    omega (arith, one (rw (next_vertex, h) at e)),
    ap (λ z. some z) (is_unprocessed-eq x.state h),
  )
  | inr h ↦
      let (k, p, u) = next_vertex-some (suc n) vs j (rw (next_vertex, h) at e) in
      (suc k, omega (arith, p), u)
]
  where
    one : some n ≡ some j → n ≡ j
    one r = cc

unprocessed-is_unprocessed : (s : VertexState) → is_unprocessed s ≡ false → s ≢ unprocessed
unprocessed-is_unprocessed unprocessed e q = cc
unprocessed-is_unprocessed processing e q = cc
unprocessed-is_unprocessed processed e q = cc

-- No vertex in front of the next one is unprocessed.
pub next_vertex-first :
    (n : ℕ) (vs : List Vertex) (j k : ℕ)
    → next_vertex n vs ≡ some j
    → n + k < j
    → at_index (λ x. x.state) vs k ≢ some unprocessed
unfolding next_vertex
next_vertex-first n [] j k e l h = cc
next_vertex-first n (x ∷ vs) j k e l h = elim (Bool-cases (is_unprocessed x.state)) [
  | inl t ↦ absurd (early (one (rw (next_vertex, t) at e)) l)
  | inr t ↦ by k l h t (rw (next_vertex, t) at e) (λ k'. next_vertex-first (suc n) vs j k')
]
  where
    one : some n ≡ some j → n ≡ j
    one r = cc

    early : n ≡ j → n + k < j → ⊥
    early r l = omega arith

    field : {s : VertexState} → some s ≡ some unprocessed → s ≡ unprocessed
    field r = cc

    by :
        (k : ℕ)
        → n + k < j
        → at_index (λ x. x.state) (x ∷ vs) k ≡ some unprocessed
        → is_unprocessed x.state ≡ false
        → next_vertex (suc n) vs ≡ some j
        → ((k' : ℕ)
            → next_vertex (suc n) vs ≡ some j
            → suc n + k' < j
            → at_index (λ x. x.state) vs k' ≢ some unprocessed)
        → ⊥
    by zero l h t e rest = unprocessed-is_unprocessed x.state t (field h)
    by (suc k) l h t e rest = rest k e (omega (arith, l)) h

pub next_vertex-none :
    (n : ℕ) (vs : List Vertex) (k : ℕ)
    → next_vertex n vs ≡ none
    → at_index (λ x. x.state) vs k ≢ some unprocessed
unfolding next_vertex
next_vertex-none n [] k e h = cc
next_vertex-none n (x ∷ vs) k e h = elim (Bool-cases (is_unprocessed x.state)) [
  | inl t ↦ absurd (clash (rw (next_vertex, t) at e))
  | inr t ↦ by k h t (rw (next_vertex, t) at e) (λ k'. next_vertex-none (suc n) vs k')
]
  where
    clash : some n ≡ none → ⊥
    clash r = cc

    field : {s : VertexState} → some s ≡ some unprocessed → s ≡ unprocessed
    field r = cc

    by :
        (k : ℕ)
        → at_index (λ x. x.state) (x ∷ vs) k ≡ some unprocessed
        → is_unprocessed x.state ≡ false
        → next_vertex (suc n) vs ≡ none
        → ((k' : ℕ)
            → next_vertex (suc n) vs ≡ none
            → at_index (λ x. x.state) vs k' ≢ some unprocessed)
        → ⊥
    by zero h t e rest = unprocessed-is_unprocessed x.state t (field h)
    by (suc k) h t e rest = rest k e h

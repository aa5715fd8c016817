-- ===== src/Graph/Stack.antt =====
-- The walk of `_alpm_sortbydeps` as one with a stack: the parents of the current vertex.
use dulge.Base.{
  ℕ, ◌≡◌, ◌≢◌, ◌⊎◌, refl, sym, ◌∙◌, subst, Option, none, some, List, [], ◌∷◌, inl, inr,
}
use dulge.Graph.{VertexState, unprocessed, processing, processed, Vertex, update}
use dulge.Graph.Vertices.{at_index, at-kept, at-other, at-written}

abbrev pub state_at : List Vertex → ℕ → Option VertexState
state_at vs u = at_index (λ x. x.state) vs u

abbrev pub parent_at : List Vertex → ℕ → Option (Option ℕ)
parent_at vs u = at_index (λ x. x.parent) vs u

-- The vertices of the list are the parents from `v` on, and they are being processed.
abbrev pub Chain : List Vertex → ℕ → List ℕ → Type 0
Chain vs v [] = parent_at vs v ≡ some none
Chain vs v (p ∷ stack) =
    (parent_at vs v ≡ some (some p)) × (state_at vs p ≡ some processing) × Chain vs p stack

abbrev pub NotIn : ℕ → List ℕ → Type 0
NotIn u [] = Unit
NotIn u (v ∷ stack) = (u ≢ v) × NotIn u stack

-- No vertex occurs twice.
abbrev pub IsDistinct : ℕ → List ℕ → Type 0
IsDistinct v [] = Unit
IsDistinct v (p ∷ stack) = NotIn v (p ∷ stack) × IsDistinct p stack

-- A write to a vertex that is not on the stack.
pub Chain-update :
    (f : Vertex → Vertex) (vs : List Vertex) (u v : ℕ) (stack : List ℕ)
    → NotIn u (v ∷ stack)
    → Chain vs v stack
    → Chain (update vs u f) v stack
Chain-update f vs u v [] n c = at-other (λ x. x.parent) f vs u v (λ e. n.0 (sym e)) ∙ c
Chain-update f vs u v (p ∷ stack) (n, m) (a, s, c) = (
  at-other (λ x. x.parent) f vs u v (λ e. n (sym e)) ∙ a,
  at-other (λ x. x.state) f vs u p (λ e. m.0 (sym e)) ∙ s,
  Chain-update f vs u p stack m c,
)

-- A write to the current vertex that keeps its parent.
pub Chain-kept :
    (f : Vertex → Vertex)
    → ((x : Vertex) → (f x).parent ≡ x.parent)
    → (vs : List Vertex) (v : ℕ) (stack : List ℕ) → IsDistinct v stack
    → Chain vs v stack
    → Chain (update vs v f) v stack
Chain-kept f k vs v [] d c = at-kept (λ x. x.parent) f k vs v v ∙ c
Chain-kept f k vs v (p ∷ stack) (n, d) (a, s, c) = (
  at-kept (λ x. x.parent) f k vs v v ∙ a,
  at-other (λ x. x.state) f vs v p (λ e. n.0 (sym e)) ∙ s,
  Chain-update f vs v p stack n c,
)

-- A vertex that is not processed yet is on no stack.
pub unprocessed-NotIn :
    (vs : List Vertex) (u v : ℕ) (stack : List ℕ)
    → state_at vs u ≡ some unprocessed
    → state_at vs v ≡ some processing
    → Chain vs v stack
    → NotIn u (v ∷ stack)
unprocessed-NotIn vs u v [] e h c = (differ vs u v e h, tt)
  where
    differ :
        (vs : List Vertex) (u v : ℕ)
        → state_at vs u ≡ some unprocessed
        → state_at vs v ≡ some processing
        → u ≢ v
    differ vs u v e h q = clash (sym (subst (λ z. state_at vs z ≡ some unprocessed) q e) ∙ h)
      where
        clash : some unprocessed ≡ some processing → ⊥
        clash r = cc
unprocessed-NotIn vs u v (p ∷ stack) e h (a, s, c) = (differ, unprocessed-NotIn vs u p stack e s c)
  where
    differ : u ≢ v
    differ q = clash (sym (subst (λ z. state_at vs z ≡ some unprocessed) q e) ∙ h)
      where
        clash : some unprocessed ≡ some processing → ⊥
        clash r = cc

abbrev pub IsAlive : List Vertex → ℕ → Type 0
IsAlive vs v = (state_at vs v ≡ some unprocessed) ⊎ (state_at vs v ≡ some processing)

-- What holds before each round of the outer loop, about the current vertex.
pub record OnStack (vs : List Vertex) (v : ℕ) (stack : List ℕ) : Type 0 where
  pub chain : Chain vs v stack
  pub distinct : IsDistinct v stack
  pub alive : IsAlive vs v
  pub fresh : (u : ℕ) → u ≢ v → state_at vs u ≡ some unprocessed → parent_at vs u ≡ some none

abbrev pub mark : Vertex → Vertex
mark y = record y { state = processing }

abbrev pub advance : List ℕ → Vertex → Vertex
advance it y = record y { iterator = it }

abbrev pub point : ℕ → Vertex → Vertex
point v y = record y { parent = some v }

abbrev pub close : Vertex → Vertex
close y = record y { state = processed }

-- The graph when the current vertex has been marked and its iterator has moved.
abbrev pub opened : List Vertex → ℕ → List ℕ → List Vertex
opened vs v it = update (update vs v mark) v (advance it)

pub opened-other {ℓ} :
    {B : Type ℓ} (g : Vertex → B) (vs : List Vertex) (v u : ℕ) (it : List ℕ)
    → u ≢ v
    → at_index g (opened vs v it) u ≡ at_index g vs u
opened-other g vs v u it n =
    at-other g (advance it) (update vs v mark) v u n ∙ at-other g mark vs v u n

-- What holds of it.
pub record IsOpen (vs : List Vertex) (v : ℕ) (stack : List ℕ) : Type 0 where
  pub chain : Chain vs v stack
  pub distinct : IsDistinct v stack
  pub busy : state_at vs v ≡ some processing
  pub fresh : (u : ℕ) → state_at vs u ≡ some unprocessed → parent_at vs u ≡ some none

pub differs :
    (vs : List Vertex) (u v : ℕ) (s t : VertexState)
    → state_at vs u ≡ some s
    → state_at vs v ≡ some t
    → s ≢ t
    → u ≢ v
differs vs u v s t e h n q = n (one (sym (subst (λ z. state_at vs z ≡ some s) q e) ∙ h))
  where
    one : some s ≡ some t → s ≡ t
    one r = cc

pub u_p : unprocessed ≢ processing
u_p e = cc

pub u_d : unprocessed ≢ processed
u_d e = cc

pub opened-IsOpen :
    (vs : List Vertex) (v : ℕ) (stack : List ℕ) (it : List ℕ)
    → OnStack vs v stack
    → IsOpen (opened vs v it) v stack
opened-IsOpen vs v stack it on = record {
  chain =
      Chain-kept (advance it) (λ x. refl) (update vs v mark) v stack on.distinct
        (Chain-kept mark (λ x. refl) vs v stack on.distinct on.chain);
  distinct = on.distinct;
  busy = busy;
  fresh = λ u e.
      let n = differs (opened vs v it) u v unprocessed processing e busy u_p in
      opened-other (λ x. x.parent) vs v u it n
      ∙ on.fresh u n (sym (opened-other (λ x. x.state) vs v u it n) ∙ e);
}
  where
    marked : IsAlive vs v → state_at (update vs v mark) v ≡ some processing
    marked (inl e) =
        at-written (λ x. x.state) (λ x. x.state) mark processing (λ x. refl) vs v unprocessed e
    marked (inr e) =
        at-written (λ x. x.state) (λ x. x.state) mark processing (λ x. refl) vs v processing e

    busy : state_at (opened vs v it) v ≡ some processing
    busy = at-kept (λ x. x.state) (advance it) (λ x. refl) (update vs v mark) v v ∙ marked on.alive

-- The walk goes down to a child.
pub point-OnStack :
    (vs : List Vertex) (v c : ℕ) (stack : List ℕ)
    → IsOpen vs v stack
    → state_at vs c ≡ some unprocessed
    → OnStack (update vs c (point v)) c (v ∷ stack)
point-OnStack vs v c stack open_ e =
    let n = unprocessed-NotIn vs c v stack e open_.busy open_.chain in
    record {
      chain = (
        at-written (λ x. x.parent) (λ x. x.state) (point v) (some v) (λ x. refl) vs c unprocessed e,
        at-kept (λ x. x.state) (point v) (λ x. refl) vs c v ∙ open_.busy,
        Chain-update (point v) vs c v stack n open_.chain,
      );
      distinct = (n, open_.distinct);
      alive = inl (at-kept (λ x. x.state) (point v) (λ x. refl) vs c c ∙ e);
      fresh = λ u m h.
          at-other (λ x. x.parent) (point v) vs c u m
          ∙ open_.fresh u (sym (at-kept (λ x. x.state) (point v) (λ x. refl) vs c u) ∙ h);
    }

pub closed_state :
    (vs : List Vertex) (v : ℕ)
    → state_at vs v ≡ some processing
    → state_at (update vs v close) v ≡ some processed
closed_state vs v e =
    at-written (λ x. x.state) (λ x. x.state) close processed (λ x. refl) vs v processing e

close_fresh :
    (vs : List Vertex) (v : ℕ) (stack : List ℕ)
    → IsOpen vs v stack
    → (u : ℕ) → state_at (update vs v close) u ≡ some unprocessed
    → parent_at (update vs v close) u ≡ some none
close_fresh vs v stack open_ u h =
    let n =
      differs (update vs v close) u v unprocessed processed h (closed_state vs v open_.busy) u_d in
    at-other (λ x. x.parent) close vs v u n
    ∙ open_.fresh u (sym (at-other (λ x. x.state) close vs v u n) ∙ h)

-- The walk goes back to the parent.
pub close-OnStack :
    (vs : List Vertex) (v p : ℕ) (stack : List ℕ)
    → IsOpen vs v (p ∷ stack)
    → OnStack (update vs v close) p stack
close-OnStack vs v p stack open_ = record {
  chain = Chain-update close vs v p stack open_.distinct.0 open_.chain.2;
  distinct = open_.distinct.1;
  alive =
      inr (at-other (λ x. x.state) close vs v p (λ e. open_.distinct.0.0 (sym e)) ∙ open_.chain.1);
  fresh = λ u n h. close_fresh vs v (p ∷ stack) open_ u h;
}

-- The walk begins at another vertex.
pub begin-OnStack :
    (vs : List Vertex) (v j : ℕ)
    → IsOpen vs v []
    → state_at (update vs v close) j ≡ some unprocessed
    → OnStack (update vs v close) j []
begin-OnStack vs v j open_ e = record {
  chain = close_fresh vs v [] open_ j e;
  distinct = tt;
  alive = inl e;
  fresh = λ u n h. close_fresh vs v [] open_ u h;
}

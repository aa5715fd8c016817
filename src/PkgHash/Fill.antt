-- ===== src/PkgHash/Fill.antt =====
-- The table while the hole that a removed node leaves is being filled: one node moves into it.
use dulge.Base.{
  ℕ, suc, ◌+◌, ◌-◌, ◌≤◌, ◌<◌, ◌≡◌, ◌≢◌, ◌⊎◌, ◌↔◌, sym, ap, ◌∙◌, true, false, none, some, length,
  set, leb, arith, inl, inr, Bool-cases, length-set,
}
use native.Mathlib.Nat.{mod-eq_of_lt, mod-eq-sub-mod}
use dulge.Package.{hash_sdbm}
use dulge.PkgHash.{Node, Slots, slot, retreat}
use dulge.PkgHash.Insert.{InTable}
use dulge.PkgHash.Table.{
  occupied, pos, dist, home, dist-pos, dist-lt, pos-lt, load, slot-set_same, slot-set_other,
  load-set, load-clear,
}

-- A way from a home to its node may lead over the hole. `z` is the null bucket that ends the run of
-- occupied buckets behind the hole.
pub record IsHoled (b : ℕ) (t : Slots) (hole z : ℕ) : Type 0 where
  pub size : length t ≡ b
  pub hole_lt : hole < b
  pub z_lt : z < b
  pub null : occupied t hole ≡ false
  pub stop : occupied t z ≡ false
  pub apart : hole ≢ z
  pub run : (m : ℕ) → 0 < m → m < dist b hole z → occupied t (pos b hole m) ≡ true
  pub ways :
      (i : ℕ) (node : Node)
      → slot t i ≡ some node
      → (j : ℕ) → j < dist b (home b node) i
      → (occupied t (pos b (home b node) j) ≡ true) ⊎ (pos b (home b node) j ≡ hole)
  pub hashed :
      (i : ℕ) (node : Node) → slot t i ≡ some node → node.pkg.name_hash ≡ hash_sdbm node.pkg.name
  pub unique :
      (i j : ℕ) (m n : Node)
      → slot t i ≡ some m
      → slot t j ≡ some n
      → m.pkg.name ≡ n.pkg.name
      → i ≡ j

module _ (b : ℕ) where
  -- Ways that follow one another.
  pub dist-after :
      (h p i : ℕ)
      → h < b
      → p < b
      → i < b
      → dist b h p ≤ dist b h i
      → dist b p i ≡ dist b h i - dist b h p
  dist-after h p i x y z l = ground arith

  pub pos-pos :
      (h i j : ℕ) → h < b → i < b → j < b → i + j < b → pos b (pos b h i) j ≡ pos b h (i + j)
  pos-pos h i j x y z l = ground arith

  pub retreat-pos : (h m : ℕ) → h < b → suc m < b → retreat b (pos b h (suc m)) ≡ pos b h m
  retreat-pos h m l k = elim (Bool-cases (leb 1 (pos b h (suc m)))) [
    | inl e ↦
        let ge : b ≤ b + pos b h (suc m) - 1 = ground arith in
        let lt : b + pos b h (suc m) - 1 - b < b = ground arith in
        mod-eq-sub-mod ge ∙ mod-eq_of_lt lt ∙ ground arith
    | inr e ↦ let lt : b + pos b h (suc m) - 1 < b = ground arith in mod-eq_of_lt lt ∙ ground arith
  ]

-- The node in bucket `e` goes into the hole.
abbrev pub refill : Slots → ℕ → Node → ℕ → Slots
refill t hole info e = set (set t hole (some info)) e none

module _ (b : ℕ) (t : Slots) (hole z : ℕ) (v : IsHoled b t hole z) (k : ℕ) (k_pos : 0 < k)
    (k_lt : k < dist b hole z) (info : Node) (there : slot t (pos b hole k) ≡ some info)
    (way : (j : ℕ)
      → j < dist b (home b info) hole
      → occupied t (pos b (home b info) j) ≡ true) where
  dz_lt : dist b hole z < b
  dz_lt = dist-lt b hole z v.hole_lt v.z_lt

  e : ℕ
  e = pos b hole k

  e_lt : e < b
  unfolding e
  e_lt = pos-lt b hole k v.hole_lt (omega (arith, dz_lt))

  e-ne-hole : hole ≢ e
  unfolding e
  e-ne-hole same = omega (
    arith,
    dz_lt,
    dist-pos b hole k v.hole_lt (omega (arith, dz_lt)),
    ap (dist b hole) same,
    zero_dist,
  )
    where
      zero_dist : dist b hole hole ≡ 0
      zero_dist = ground arith

  e-ne-z : e ≢ z
  unfolding e
  e-ne-z same =
      omega (arith, dist-pos b hole k v.hole_lt (omega (arith, dz_lt)), ap (dist b hole) same)

  at_e : slot t e ≡ some info
  unfolding e
  at_e = there

  t₁ : Slots
  t₁ = set t hole (some info)

  t' : Slots
  unfolding e t₁
  t' = refill t hole info e

  size₁ : length t₁ ≡ b
  unfolding t₁
  size₁ = length-set t hole (some info) ∙ v.size

  in_hole : slot t' hole ≡ some info
  unfolding t' t₁
  in_hole =
      slot-set_other t₁ e none (omega (arith, e_lt, size₁)) hole (λ q. e-ne-hole (sym q))
      ∙ slot-set_same t hole (some info) (omega (arith, v.hole_lt, v.size))

  in_e : slot t' e ≡ none
  unfolding t' t₁
  in_e = slot-set_same t₁ e none (omega (arith, e_lt, size₁))

  elsewhere : (i : ℕ) → hole ≢ i → e ≢ i → slot t' i ≡ slot t i
  unfolding t' t₁
  elsewhere i m n =
      slot-set_other t₁ e none (omega (arith, e_lt, size₁)) i n
      ∙ slot-set_other t hole (some info) (omega (arith, v.hole_lt, v.size)) i m

  eq_or_ne : (i j : ℕ) → (i ≡ j) ⊎ (i ≢ j)
  eq_or_ne i j = omega arith

  kept : (i : ℕ) → occupied t i ≡ true → (occupied t' i ≡ true) ⊎ (i ≡ e)
  kept i u = elim (eq_or_ne e i) [
    | inl q ↦ inr (sym q)
    | inr n ↦ elim (eq_or_ne hole i) [
      | inl q ↦ inl (rw (← q, in_hole))
      | inr m ↦ inl (rw (elsewhere i m n) u)
    ]
  ]

  -- Where a node of the new table comes from.
  data Origin (i : ℕ) (m : Node) : Type 0 where
    moved : hole ≡ i → m ≡ info → Origin i m
    stayed : hole ≢ i → e ≢ i → slot t i ≡ some m → Origin i m

  origin : (i : ℕ) (m : Node) → slot t' i ≡ some m → Origin i m
  origin i m h = elim (eq_or_ne hole i) [
    | inl q ↦ moved q (some_info m (rw (← q, in_hole) at h))
    | inr n ↦ elim (eq_or_ne e i) [
      | inl q ↦ absurd (clash m (rw (← q, in_e) at h))
      | inr n' ↦ stayed n n' (sym (elsewhere i n n') ∙ h)
    ]
  ]
    where
      some_info : (m : Node) → some info ≡ some m → m ≡ info
      some_info m q = cc

      clash : (m : Node) → none ≡ some m → ⊥
      clash m q = cc

  dist_eq : dist b hole e ≡ k
  unfolding e
  dist_eq = dist-pos b hole k v.hole_lt (omega (arith, dz_lt))

  -- The hole comes nearer to the end of the run.
  dist_rest : dist b e z ≡ dist b hole z - k
  dist_rest =
      dist-after b hole e z v.hole_lt e_lt v.z_lt (omega (arith, dist_eq))
      ∙ ap (λ d. dist b hole z - d) dist_eq

  pos_eq : (m : ℕ) → k + m < b → pos b e m ≡ pos b hole (k + m)
  unfolding e
  pos_eq m l = pos-pos b hole k m v.hole_lt (omega arith) (omega arith) l

  new_run : (m : ℕ) → 0 < m → m < dist b e z → occupied t' (pos b e m) ≡ true
  new_run m l n =
      let le : k + m < dist b hole z = omega (arith, dist_rest) in
      elim (kept (pos b hole (k + m)) (v.run (k + m) (omega arith) le)) [
        | inl u ↦ rw (pos_eq m (omega (arith, dz_lt))) u
        | inr q ↦ absurd (differ le q)
      ]
    where
      differ : k + m < dist b hole z → pos b hole (k + m) ≡ e → ⊥
      differ le q = omega (
        arith,
        dz_lt,
        dist_eq,
        ap (dist b hole) q,
        dist-pos b hole (k + m) v.hole_lt (omega (arith, dz_lt)),
      )

  new_ways :
      (i : ℕ) (node : Node)
      → slot t' i ≡ some node
      → (j : ℕ) → j < dist b (home b node) i
      → (occupied t' (pos b (home b node) j) ≡ true) ⊎ (pos b (home b node) j ≡ e)
  new_ways i node h j l = elim (origin i node h) [
    | moved q m ↦ kept _ (rw m (way j (rw (m, ← q) at l)))
    | stayed n n' h' ↦ elim (v.ways i node h' j l) [
      | inl u ↦ kept _ u
      | inr q ↦ inl (rw (q, in_hole))
    ]
  ]

  new_unique :
      (i j : ℕ) (x y : Node)
      → slot t' i ≡ some x
      → slot t' j ≡ some y
      → x.pkg.name ≡ y.pkg.name
      → i ≡ j
  new_unique i j x y h g q = elim (origin i x h) [
    | moved p m ↦ elim (origin j y g) [
      | moved p' m' ↦ sym p ∙ p'
      | stayed n n' g' ↦
          absurd (n' (v.unique e j info y at_e g' (ap (λ (w : Node). w.pkg.name) (sym m) ∙ q)))
    ]
    | stayed n n' h' ↦ elim (origin j y g) [
      | moved p' m' ↦
          absurd (n' (sym (v.unique i e x info h' at_e (q ∙ ap (λ (w : Node). w.pkg.name) m'))))
      | stayed o o' g' ↦ v.unique i j x y h' g' q
    ]
  ]

  new_hashed : (i : ℕ) (m : Node) → slot t' i ≡ some m → m.pkg.name_hash ≡ hash_sdbm m.pkg.name
  new_hashed i m h = elim (origin i m h) [
    | moved p q ↦ rw q (v.hashed e info at_e)
    | stayed n n' h' ↦ v.hashed i m h'
  ]

  pub refill-IsHoled : IsHoled b (refill t hole info (pos b hole k)) (pos b hole k) z
  unfolding t' t₁ e
  refill-IsHoled = record {
    size = length-set t₁ e none ∙ size₁;
    hole_lt = e_lt;
    z_lt = v.z_lt;
    null = rw in_e;
    stop = rw (elsewhere z v.apart e-ne-z) v.stop;
    apart = e-ne-z;
    run = new_run;
    ways = new_ways;
    hashed = new_hashed;
    unique = new_unique;
  }

  pub refill-nodes : (m : Node) → InTable (refill t hole info (pos b hole k)) m ↔ InTable t m
  unfolding t' t₁ e
  refill-nodes m = (
    λ (i, h). elim (origin i m h) [
      | moved p q ↦ (e, at_e ∙ ap some (sym q))
      | stayed n n' h' ↦ (i, h')
    ],
    λ (i, h). back i h,
  )
    where
      empty_hole : slot t hole ≡ some m → ⊥
      empty_hole h = let n = v.null in ground arith

      same : slot t e ≡ some m → m ≡ info
      same h = let q = at_e in cc

      back : (i : ℕ) → slot t i ≡ some m → InTable t' m
      back i h = elim (eq_or_ne hole i) [
        | inl q ↦ absurd (empty_hole (rw q h))
        | inr n ↦ elim (eq_or_ne e i) [
          | inl q ↦ (hole, in_hole ∙ ap some (sym (same (rw q h))))
          | inr n' ↦ (i, elsewhere i n n' ∙ h)
        ]
      ]

  pub refill-load : load (refill t hole info (pos b hole k)) ≡ load t
  unfolding t' t₁ e
  refill-load =
      let there₁ : occupied t₁ e ≡ true =
        rw (
          slot-set_other t hole (some info) (omega (arith, v.hole_lt, v.size)) e e-ne-hole,
          at_e,
        ) in
      omega (
        arith,
        load-clear t₁ e there₁,
        load-set t hole info (omega (arith, v.hole_lt, v.size)) v.null,
      )

  pub refill-dist : dist b (pos b hole k) z < dist b hole z
  unfolding e
  refill-dist = omega (arith, dist_rest)

-- ===== src/PkgHash/Rebin.antt =====
-- The loop of `rehash`: the nodes of the old table go into the new one.
use dulge.Base.{
  ℕ, zero, suc, ◌+◌, ◌<◌, ◌≡◌, ◌≢◌, ◌⊎◌, ◌↔◌, refl, sym, ap, ◌∙◌, Option, none, some, [], ◌∷◌, set,
  arith, inl, inr,
}
use dulge.Package.{hash_sdbm}
use dulge.PkgHash.{Node, Slots, slot, rebin}
use dulge.PkgHash.Find.{IsTable}
use dulge.PkgHash.Insert.{InTable, IsNew, Adds, insert_one}
use dulge.PkgHash.Table.{load}

-- The rest of an old table, whose nodes go into a new one.
pub record IsPending (old t : Slots) : Type 0 where
  pub distinct :
      (i j : ℕ) (m n : Node)
      → slot old i ≡ some m
      → slot old j ≡ some n
      → m.pkg.name ≡ n.pkg.name
      → i ≡ j
  pub hashed : (i : ℕ) (m : Node) → slot old i ≡ some m → m.pkg.name_hash ≡ hash_sdbm m.pkg.name
  pub apart :
      (i j : ℕ) (m n : Node) → slot old i ≡ some m → slot t j ≡ some n → m.pkg.name ≢ n.pkg.name

IsPending-tail : (x : Option Node) (old t : Slots) → IsPending (x ∷ old) t → IsPending old t
IsPending-tail x old t h = record {
  distinct = λ i j m n p q e. omega (arith, h.distinct (suc i) (suc j) m n p q e);
  hashed = λ i m p. h.hashed (suc i) m p;
  apart = λ i j m n p q. h.apart (suc i) j m n p q;
}

IsPending-next :
    (node : Node) (old t t' : Slots)
    → IsPending (some node ∷ old) t
    → Adds t node t'
    → IsPending old t'
IsPending-next node old t t' h a = record {
  distinct = λ i j m n p q e. omega (arith, h.distinct (suc i) (suc j) m n p q e);
  hashed = λ i m p. h.hashed (suc i) m p;
  apart = λ i j m n p q e. elim ((a n).0 (j, q)) [
    | inl same ↦
        let twice = h.distinct (suc i) 0 m node p refl (e ∙ ap (λ (z : Node). z.pkg.name) same) in
        absurd (omega arith)
    | inr (j', q') ↦ h.apart (suc i) j' m n p q' e
  ];
}

InTable-cons :
    (x : Option Node) (old : Slots) (m : Node)
    → InTable (x ∷ old) m ↔ ((x ≡ some m) ⊎ InTable old m)
InTable-cons x old m = (λ (i, h). at i h, elim [ inl e ↦ (0, e) | inr (i, h) ↦ (suc i, h) ])
  where
    at : (i : ℕ) → slot (x ∷ old) i ≡ some m → (x ≡ some m) ⊎ InTable old m
    at zero h = inl h
    at (suc i) h = inr (i, h)

-- What the loop of `rehash` returns.
pub record Rebinned (b : ℕ) (old t t' : Slots) : Type 0 where
  pub runs : rebin old t b ≡ some t'
  pub table : IsTable b t'
  pub counts : load t' ≡ load old + load t
  pub holds : (m : Node) → InTable t' m ↔ (InTable old m ⊎ InTable t m)

holds_skip :
    (old t t' : Slots) (m : Node)
    → InTable t' m ↔ (InTable old m ⊎ InTable t m)
    → InTable t' m ↔ (InTable (none ∷ old) m ⊎ InTable t m)
holds_skip old t t' m r = (
  λ q. elim (r.0 q) [ inl o ↦ inl ((InTable-cons none old m).1 (inr o)) | inr o ↦ inr o ],
  elim [
    | inr o ↦ r.1 (inr o)
    | inl o ↦ elim ((InTable-cons none old m).0 o) [
      | inl e ↦ absurd (ground arith)
      | inr o' ↦ r.1 (inl o')
    ]
  ],
)

holds_next :
    (node : Node) (old t t₁ t' : Slots) (m : Node)
    → InTable t₁ m ↔ ((m ≡ node) ⊎ InTable t m)
    → InTable t' m ↔ (InTable old m ⊎ InTable t₁ m)
    → InTable t' m ↔ (InTable (some node ∷ old) m ⊎ InTable t m)
holds_next node old t t₁ t' m a r = (
  λ q. elim (r.0 q) [
    | inl o ↦ inl (at.1 (inr o))
    | inr o ↦ elim (a.0 o) [ inl e ↦ inl (at.1 (inl (rw e))) | inr o' ↦ inr o' ]
  ],
  elim [
    | inr o ↦ r.1 (inr (a.1 (inr o)))
    | inl o ↦ elim (at.0 o) [ inl e ↦ r.1 (inr (a.1 (inl (same e)))) | inr o' ↦ r.1 (inl o') ]
  ],
)
  where
    at : InTable (some node ∷ old) m ↔ ((some node ≡ some m) ⊎ InTable old m)
    at = InTable-cons (some node) old m

    same : some node ≡ some m → m ≡ node
    same e = cc

pub rebin-Rebinned :
    (b : ℕ) (old t : Slots)
    → IsTable b t
    → IsPending old t
    → load old + load t < b
    → (t' : Slots) × Rebinned b old t t'
unfolding rebin
rebin-Rebinned b [] t v h l = (
  t,
  record {
    runs = refl;
    table = v;
    counts = omega arith;
    holds = λ m. (inr, elim [ inl (i, e) ↦ absurd (ground arith) | inr q ↦ q ]);
  },
)
rebin-Rebinned b (none ∷ old) t v h l =
    let (t', r) = rebin-Rebinned b old t v (IsPending-tail none old t h) l in
    (
      t',
      record {
        runs = r.runs;
        table = r.table;
        counts = r.counts;
        holds = λ m. holds_skip old t t' m (r.holds m);
      },
    )
rebin-Rebinned b (some node ∷ old) t v h l =
    let new : IsNew t node = record {
      hashed = h.hashed 0 node refl;
      other = λ i m e same. h.apart 0 i node m refl e (sym same);
    } in
    let (q, one) = insert_one b t node v new (omega arith) in
    let t₁ = set t q (some node) in
    let (t', r) =
      rebin-Rebinned b old t₁ one.table (IsPending-next node old t t₁ h one.adds)
        (omega (arith, one.counts)) in
    (
      t',
      record {
        runs = rw one.finds r.runs;
        table = r.table;
        counts = omega (arith, r.counts, one.counts);
        holds = λ m. holds_next node old t t₁ t' m (one.adds m) (r.holds m);
      },
    )

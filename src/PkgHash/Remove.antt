-- ===== src/PkgHash/Remove.antt =====
-- `_alpm_pkghash_remove` on a table that satisfies the invariant.
use dulge.Base.{
  ℕ, zero, suc, ◌+◌, ◌-◌, ◌≤◌, ◌<◌, ◌≡◌, ◌≢◌, ◌⊎◌, ◌↔◌, refl, sym, ap, ◌∙◌, true, false, Option,
  none, some, length, length-set, set, ◌==◌, arith, inl, inr, Option-cases, ◌>>=◌,
}
use dulge.Package.{Pkg}
use dulge.PkgHash.{Node, Slots, PkgHash, slot, advance, run_end, remove_at, remove_node, remove}
use dulge.PkgHash.Fill.{IsHoled}
use dulge.PkgHash.Find.{IsTable, IsValid, IsValid-room, locate_present, locate_absent}
use dulge.PkgHash.Insert.{InTable}
use dulge.PkgHash.Holes.{fill_holes-Filled}
use dulge.PkgHash.Table.{
  occupied, pos, dist, pos-dist, dist-pos, dist-lt, pos-lt, pos-zero, slot-lt, slot-set_same,
  slot-set_other, load-clear,
}

-- The null bucket that ends the search, and that there is none before.
pub record RunEnd (b : ℕ) (t : Slots) (p m d : ℕ) (result : Option ℕ) : Type 0 where
  pub k : ℕ
  pub near : k ≤ d
  pub runs : result ≡ some (pos b p (m + k))
  pub null : occupied t (pos b p (m + k)) ≡ false
  pub before : (j : ℕ) → m ≤ j → j < m + k → occupied t (pos b p j) ≡ true

module _ (b : ℕ) (t : Slots) (p : ℕ) (l : p < b) where
  run_end-RunEnd :
      (fuel m d : ℕ)
      → 0 < m
      → m + d < b
      → d < fuel
      → occupied t (pos b p (m + d)) ≡ false
      → RunEnd b t p m d (run_end fuel t b p (pos b p m))
  unfolding run_end
  run_end-RunEnd zero m d x y u e = absurd (omega arith)
  run_end-RunEnd (suc fuel) m d x y u e = elim (Option-cases (slot t (pos b p m))) [
    | inl n ↦ record {
      k = 0;
      near = omega arith;
      runs = rw (n, run_end, add_zero m);
      null = rw (add_zero m, n);
      before = λ j q r. absurd (omega arith);
    }
    | inr (node, n) ↦
        let (c, dc) = pred d (λ z. full z e n) in
        let rest =
          run_end-RunEnd fuel (suc m) c (omega arith) (omega arith) (omega arith)
            (rw (← shift m c, ← dc) e) in
        record {
          k = suc rest.k;
          near = omega (arith, rest.near);
          runs =
              rw (n, run_end, away, next)
                (rest.runs ∙ ap (λ q. some (pos b p q)) (sym (shift m rest.k)));
          null = rw (shift m rest.k) rest.null;
          before = λ j q r. before rest n j q r (eq_or_lt j q);
        }
  ]
    where
      add_zero : (m : ℕ) → m + 0 ≡ m
      add_zero m = omega arith

      shift : (m c : ℕ) → m + suc c ≡ suc m + c
      shift m c = omega arith

      full :
          {node : Node}
          → d ≡ 0
          → occupied t (pos b p (m + d)) ≡ false
          → slot t (pos b p m) ≡ some node
          → ⊥
      full z e n = let e' : occupied t (pos b p m) ≡ false = rw (z, add_zero m) at e in ground arith

      pred : (d : ℕ) → (d ≡ 0 → ⊥) → (c : ℕ) × (d ≡ suc c)
      pred zero h = absurd (h refl)
      pred (suc c) h = (c, refl)

      away : (pos b p m == p) ≡ false
      away = ground arith

      next : advance b (pos b p m) ≡ pos b p (suc m)
      next = ground arith

      eq_or_lt : (j : ℕ) → m ≤ j → (m ≡ j) ⊎ (suc m ≤ j)
      eq_or_lt j q = omega arith

      before :
          {node : Node} {c : ℕ} {r : Option ℕ} (rest : RunEnd b t p (suc m) c r)
          → slot t (pos b p m) ≡ some node
          → (j : ℕ) → m ≤ j
          → j < m + suc rest.k
          → (m ≡ j) ⊎ (suc m ≤ j)
          → occupied t (pos b p j) ≡ true
      before rest n j q r (inl s) = rw (← s, n)
      before rest n j q r (inr s) = rest.before j s (omega arith)

module _ (b : ℕ) (t₀ : Slots) (v : IsTable b t₀) (p : ℕ) (node : Node)
    (there : slot t₀ p ≡ some node) where
  p_lt : p < length t₀
  p_lt = slot-lt t₀ p (rw there)

  p_b : p < b
  p_b = omega (arith, p_lt, v.size)

  t : Slots
  t = set t₀ p none

  cleared : slot t p ≡ none
  unfolding t
  cleared = slot-set_same t₀ p none p_lt

  others : (i : ℕ) → p ≢ i → slot t i ≡ slot t₀ i
  unfolding t
  others = slot-set_other t₀ p none p_lt

  eq_or_ne : (i : ℕ) → (p ≡ i) ⊎ (p ≢ i)
  eq_or_ne i = omega arith

  -- A node that is left stood in the same bucket, which is not the cleared one.
  left : (i : ℕ) (m : Node) → slot t i ≡ some m → (p ≢ i) × (slot t₀ i ≡ some m)
  left i m h = elim (eq_or_ne i) [
    | inl q ↦ absurd (none_some m (rw (← q, cleared) at h))
    | inr n ↦ (n, sym (others i n) ∙ h)
  ]
    where
      none_some : (m : Node) → none ≡ some m → ⊥
      none_some m q = cc

  left_occupied : (i : ℕ) → occupied t₀ i ≡ true → (occupied t i ≡ true) ⊎ (i ≡ p)
  left_occupied i u = elim (eq_or_ne i) [ inl q ↦ inr (sym q) | inr n ↦ inl (rw (others i n) u) ]

  cleared-IsHoled :
      (z : ℕ)
      → z < b
      → p ≢ z
      → occupied t z ≡ false
      → ((m : ℕ) → 0 < m → m < dist b p z → occupied t (pos b p m) ≡ true)
      → IsHoled b t p z
  unfolding t
  cleared-IsHoled z l n e run = record {
    size = length-set t₀ p none ∙ v.size;
    hole_lt = p_b;
    z_lt = l;
    null = rw cleared;
    stop = e;
    apart = n;
    run = run;
    ways = λ i m h j q. left_occupied _ (v.chained i m (left i m h).1 j q);
    hashed = λ i m h. v.hashed i m (left i m h).1;
    unique = λ i j m n h g q. v.unique i j m n (left i m h).1 (left j n g).1 q;
  }

  -- What is left are the nodes of another name.
  left_nodes : (m : Node) → InTable t m ↔ (InTable t₀ m × (m.pkg.name ≢ node.pkg.name))
  left_nodes m = (
    λ (i, h). let (n, h₀) = left i m h in ((i, h₀), λ q. n (v.unique p i node m there h₀ (sym q))),
    λ ((i, h), differ). elim (eq_or_ne i) [
      | inl q ↦ absurd (differ (ap (λ (x : Node). x.pkg.name) (same (rw (← q) there) h)))
      | inr n ↦ (i, others i n ∙ h)
    ],
  )
    where
      same : {o : Option Node} → o ≡ some node → o ≡ some m → m ≡ node
      same a c = cc

  abbrev Found : Type 0
  Found = (e : ℕ) × (run_end b t b p (advance b p) ≡ some e) × IsHoled b t p e

  found_end : (c : ℕ) → 1 + c < b → RunEnd b t p 1 c (run_end b t b p (pos b p 1)) → Found
  found_end c l r =
      let kb : 1 + r.k < b = omega (arith, r.near) in
      let far = dist-pos b p (1 + r.k) p_b kb in
      (
        pos b p (1 + r.k),
        ap (run_end b t b p) first_step ∙ r.runs,
        cleared-IsHoled (pos b p (1 + r.k)) (pos-lt b p (1 + r.k) p_b kb)
            (λ q. omega (arith, far, ap (dist b p) q, zero_dist)) r.null
            (λ m x y. r.before m (omega arith) (omega (arith, far))),
      )
    where
      first_step : advance b p ≡ pos b p 1
      first_step = let q = p_b in ground arith

      zero_dist : dist b p p ≡ 0
      zero_dist = ground arith

  -- The search for the end of the run ends at a null bucket.
  search_end : (z : ℕ) → z < b → p ≢ z → occupied t z ≡ false → Found
  search_end z l n e =
      let d = dist-lt b p z p_b l in
      let (c, dc) = positive (dist b p z) refl in
      found_end c (omega arith) (
        run_end-RunEnd b t p p_b b 1 c (omega arith) (omega arith) (omega arith)
          (rw (← pos-dist b p z p_b l, dc) at e))
    where
      positive : (d : ℕ) → d ≡ dist b p z → (c : ℕ) × (dist b p z ≡ 1 + c)
      positive zero q = absurd (n (sym (pos-zero b p p_b) ∙ ap (pos b p) q ∙ pos-dist b p z p_b l))
      positive (suc c) q = (c, omega arith)

-- The outcome of removing the node of that name.
pub record Removed (h : PkgHash) (node : Node) (h' : PkgHash) : Type 0 where
  pub valid : IsValid h'
  pub entries : h'.entries + 1 ≡ h.entries
  pub nodes :
      (m : Node) → InTable h'.hash_table m ↔ (InTable h.hash_table m × (m.pkg.name ≢ node.pkg.name))
  pub list : h'.list ≡ remove_node node.ptr h.list

remove_at-Removed :
    (h : PkgHash) (p : ℕ) (node : Node)
    → IsValid h
    → slot h.hash_table p ≡ some node
    → (h' : PkgHash) × (remove_at h p node ≡ some h') × Removed h node h'
unfolding remove_at t
remove_at-Removed h p node v there =
    let b = h.buckets in
    let (z₀, l, e) = IsValid-room v in
    let apart = differ z₀ e in
    let free = others b h.hash_table v.table p node there z₀ apart in
    let (z, ends, holed) = search_end b h.hash_table v.table p node there z₀ l apart (rw free e) in
    let dz = dist-lt b p z holed.hole_lt holed.z_lt in
    let f = fill_holes-Filled b b (set h.hash_table p none) p z holed dz in
    let less = load-clear h.hash_table p (rw there) in
    (
      record h {
        hash_table = f.filled;
        list = remove_node node.ptr h.list;
        entries = h.entries - 1;
      },
      rw (ends, f.runs),
      record {
        valid = record {
          table = f.table;
          counted = omega (arith, f.counts, v.counted, less);
          below = omega (arith, v.below);
          roomy = v.roomy;
        };
        entries = omega (arith, v.counted, less);
        nodes = λ m.
            let left = left_nodes b h.hash_table v.table p node there m in
            (λ q. left.0 ((f.nodes m).0 q), λ q. (f.nodes m).1 (left.1 q));
        list = refl;
      },
    )
  where
    differ : (z : ℕ) → occupied h.hash_table z ≡ false → p ≢ z
    differ z e q = let n = rw q at there in ground arith

-- `_alpm_pkghash_remove` on a valid table with the name of one of its nodes ends, hands out the
-- package of that node, and leaves a valid table, with one entry less, of exactly the nodes of
-- other names; from the list it takes the node of that address.
pub remove-Removed :
    (h : PkgHash) (i : ℕ) (node : Node) (pkg : Pkg)
    → IsValid h
    → slot h.hash_table i ≡ some node
    → pkg.name ≡ node.pkg.name
    → pkg.name_hash ≡ node.pkg.name_hash
    → (h' : PkgHash) × (remove h pkg ≡ some (h', some node.pkg)) × Removed h node h'
unfolding remove
remove-Removed h i node pkg v there same same_hash =
    let found = locate_present h.buckets h.hash_table v.table i node there in
    let (h', run, removed) = remove_at-Removed h i node v there in
    (h', rw (same, same_hash, found, ◌>>=◌, there, run), removed)

-- `_alpm_pkghash_remove` on a valid table with a name that none of its nodes has ends, hands out
-- nothing and leaves the table as it is.
pub remove_absent :
    (h : PkgHash) (pkg : Pkg)
    → IsValid h
    → ((i : ℕ) (m : Node) → slot h.hash_table i ≡ some m → m.pkg.name ≢ pkg.name)
    → remove h pkg ≡ some (h, none)
unfolding remove
remove_absent h pkg v none_of =
    let (z, l, e) = IsValid-room v in
    rw (locate_absent h.buckets h.hash_table v.table pkg.name_hash z pkg.name l e none_of)

-- ===== src/PkgHash/Insert.antt =====
-- One more node in a bucket: the invariant of the table, and its nodes.
use dulge.Base.{
  ℕ, suc, ◌<◌, ◌≡◌, ◌≢◌, ◌⊎◌, ◌↔◌, sym, ap, ◌∙◌, true, false, some, length, set, arith, inl, inr,
  length-set,
}
use native.Mathlib.Nat.{mod-lt}
use dulge.Package.{hash_sdbm}
use dulge.PkgHash.{Node, Slots, slot, get_hash_position}
use dulge.PkgHash.Find.{IsTable}
use dulge.PkgHash.Probe.{FirstNull, get_hash_position-FirstNull}
use dulge.PkgHash.Table.{
  occupied, pos, dist, home, dist-pos, dist-lt, pos-lt, room, load, slot-set_same, slot-set_other,
  load-set,
}

-- The node stands in some bucket.
abbrev pub InTable : Slots → Node → Type 0
InTable t m = (i : ℕ) × (slot t i ≡ some m)

-- What has to hold of a node that is added.
pub record IsNew (t : Slots) (node : Node) : Type 0 where
  pub hashed : node.pkg.name_hash ≡ hash_sdbm node.pkg.name
  pub other : (i : ℕ) (m : Node) → slot t i ≡ some m → m.pkg.name ≢ node.pkg.name

-- `t'` holds what `t` holds and one more node.
abbrev pub Adds : Slots → Node → Slots → Type 0
Adds t node t' = (m : Node) → InTable t' m ↔ ((m ≡ node) ⊎ InTable t m)

module _ (b : ℕ) (t : Slots) (v : IsTable b t) (node : Node) (n : IsNew t node) (k : ℕ) (kb : k < b)
    (first : FirstNull b t (home b node) k) where
  p : ℕ
  p = pos b (home b node) k

  lt : p < length t
  unfolding p
  lt = omega (arith, pos-lt b (home b node) k (mod-lt node.pkg.name_hash (omega arith)) kb, v.size)

  t' : Slots
  unfolding p
  t' = set t p (some node)

  same : slot t' p ≡ some node
  unfolding t'
  same = slot-set_same t p (some node) lt

  other : (j : ℕ) → p ≢ j → slot t' j ≡ slot t j
  unfolding t'
  other = slot-set_other t p (some node) lt

  p-cases : (j : ℕ) → (p ≡ j) ⊎ (p ≢ j)
  p-cases j = omega arith

  kept : (j : ℕ) → occupied t j ≡ true → occupied t' j ≡ true
  kept j u = elim (p-cases j) [ inl e ↦ rw (← e, same) | inr e ↦ rw (other j e) u ]

  -- What stands in a bucket of the new table.
  source : (j : ℕ) (m : Node) → slot t' j ≡ some m → ((p ≡ j) × (m ≡ node)) ⊎ (slot t j ≡ some m)
  source j m h = elim (p-cases j) [
    | inl e ↦ inl (e, some_node m (rw (← e, same) at h))
    | inr e ↦ inr (rw (other j e) at h)
  ]
    where
      some_node : (m : Node) → some node ≡ some m → m ≡ node
      some_node m e = cc

  set-chained :
      (i : ℕ) (m : Node)
      → slot t' i ≡ some m
      → (j : ℕ) → j < dist b (home b m) i
      → occupied t' (pos b (home b m) j) ≡ true
  unfolding p
  set-chained i m h j l = elim (source i m h) [
    | inr old ↦ kept _ (v.chained i m old j l)
    | inl (e, em) ↦
        let hl : home b node < b = mod-lt node.pkg.name_hash (omega arith) in
        let l' : j < dist b (home b node) (pos b (home b node) k) = rw (em, ← e) at l in
        rw em (kept _ (first.before j (rw (dist-pos b (home b node) k hl kb) at l')))
  ]

  set-hashed : (i : ℕ) (m : Node) → slot t' i ≡ some m → m.pkg.name_hash ≡ hash_sdbm m.pkg.name
  set-hashed i m h = elim (source i m h) [
    | inr old ↦ v.hashed i m old
    | inl (e, em) ↦ rw em n.hashed
  ]

  set_unique :
      (i j : ℕ) (x y : Node)
      → slot t' i ≡ some x
      → slot t' j ≡ some y
      → x.pkg.name ≡ y.pkg.name
      → i ≡ j
  set_unique i j x y h g e = elim (source i x h) [
    | inr old ↦ elim (source j y g) [
      | inr old' ↦ v.unique i j x y old old' e
      | inl (q, ey) ↦ absurd (n.other i x old (e ∙ ap (λ (z : Node). z.pkg.name) ey))
    ]
    | inl (q, ex) ↦ elim (source j y g) [
      | inr old' ↦ absurd (n.other j y old' (sym e ∙ ap (λ (z : Node). z.pkg.name) ex))
      | inl (q', ey) ↦ sym q ∙ q'
    ]
  ]

  set-IsTable : IsTable b t'
  unfolding t'
  set-IsTable = record {
    size = length-set t p (some node) ∙ v.size;
    chained = set-chained;
    hashed = set-hashed;
    unique = set_unique;
  }

  set-Adds : Adds t node t'
  set-Adds m = (
    λ (i, h). elim (source i m h) [ inl (e, em) ↦ inl em | inr old ↦ inr (i, old) ],
    elim [
      | inl em ↦ (p, rw em same)
      | inr (i, old) ↦ elim (p-cases i) [
        | inl e ↦ absurd (clash i e old)
        | inr e ↦ (i, other i e ∙ old)
      ]
    ],
  )
    where
      clash : (i : ℕ) → p ≡ i → slot t i ≡ some m → ⊥
      clash i e h =
          let null : occupied t p ≡ false = unfold p in first.null in
          let full : occupied t p ≡ true = rw (e, h) in cc

  set-load : load t' ≡ suc (load t)
  unfolding t' p
  set-load = load-set t p node lt first.null

-- One insertion into a table that is not full, in the terms of the code.
pub record Inserted (b : ℕ) (t : Slots) (node : Node) (q : ℕ) : Type 0 where
  pub finds : get_hash_position node.pkg.name_hash t b ≡ some q
  pub table : IsTable b (set t q (some node))
  pub adds : Adds t node (set t q (some node))
  pub counts : load (set t q (some node)) ≡ suc (load t)

pub insert_one :
    (b : ℕ) (t : Slots) (node : Node)
    → IsTable b t
    → IsNew t node
    → load t < b
    → (q : ℕ) × Inserted b t node q
unfolding p t'
insert_one b t node v n l =
    let (z, zl, e) = room t (omega (arith, v.size)) in
    let zb : z < b = omega (arith, v.size) in
    let (k, le, run, first) = get_hash_position-FirstNull b t node.pkg.name_hash z zb e in
    let hl : home b node < b = mod-lt node.pkg.name_hash (omega arith) in
    let kb : k < b = omega (arith, dist-lt b (home b node) z hl zb) in
    (
      pos b (home b node) k,
      record {
        finds = run;
        table = set-IsTable b t v node n k kb first;
        adds = set-Adds b t v node n k kb first;
        counts = set-load b t v node n k kb first;
      },
    )

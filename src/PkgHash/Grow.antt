-- ===== src/PkgHash/Grow.antt =====
-- `_alpm_pkghash_create`, `rehash` and `pkghash_add_pkg`.
use dulge.Base.{
  ℕ, zero, suc, ◌+◌, ◌*◌, ◌/◌, ◌≤◌, ◌<◌, ◌≡◌, ◌⊎◌, ◌↔◌, refl, subst, Bool, Option, none, some, List,
  [], ◌∷◌, set, replicate, leb, if◌then◌else◌, arith, inl, inr, Option-cases, Bool-cases,
  length-replicate,
}
use dulge.AlpmList.{join, mmerge}
use dulge.PkgHash.{
  Node, Slots, PkgHash, slot, prime_list, prime_above, create, grown, rehash, place, node_cmp,
  pkghash_add_pkg,
}
use dulge.PkgHash.Find.{IsValid}
use dulge.PkgHash.Insert.{InTable, IsNew, insert_one}
use dulge.PkgHash.Rebin.{IsPending, Rebinned, rebin-Rebinned}
use dulge.PkgHash.Table.{load, slot-replicate}

prime_above-lt : (primes : List ℕ) (size p : ℕ) → prime_above primes size ≡ some p → size < p
unfolding prime_above
prime_above-lt [] size p h = cc
prime_above-lt (q ∷ primes) size p h = ground (arith, prime_above-lt primes size p)

load-replicate : (n : ℕ) → load (replicate n none) ≡ 0
load-replicate zero = refl
load-replicate (suc n) = load-replicate n

-- A new table is empty, satisfies the invariant, and has room for as many nodes as it was made for.
pub record IsFresh (size : ℕ) (h : PkgHash) : Type 0 where
  pub valid : IsValid h
  pub empty : load h.hash_table ≡ 0
  pub holds : size ≤ h.limit
  pub none_in : (i : ℕ) → slot h.hash_table i ≡ none

abbrev fresh : ℕ → PkgHash
fresh p = record {
  hash_table = replicate p none;
  list = [];
  buckets = p;
  entries = 0;
  limit = 17 * p / 25;
}

fresh-IsFresh : (size p : ℕ) → 50 * size / 29 + 1 < p → IsFresh size (fresh p)
fresh-IsFresh size p l = record {
  valid = record {
    table = record {
      size = length-replicate p none;
      chained = λ i m e. absurd (nothing i m e);
      hashed = λ i m e. absurd (nothing i m e);
      unique = λ i j m n e. absurd (nothing i m e);
    };
    counted = load-replicate p;
    below = omega arith;
    roomy = omega arith;
  };
  empty = load-replicate p;
  holds = omega arith;
  none_in = slot-replicate p;
}
  where
    nothing : (i : ℕ) (m : Node) → slot (replicate p none) i ≡ some m → ⊥
    nothing i m e = let n = slot-replicate p i in cc

-- Where `_alpm_pkghash_create` returns a table, it is empty and valid, and has a limit of at least
-- the size asked for.
pub create-IsFresh : (size : ℕ) (h : PkgHash) → create size ≡ some h → IsFresh size h
unfolding create
create-IsFresh size h e = elim (Option-cases (prime_above prime_list (50 * size / 29 + 1))) [
  | inl n ↦ absurd (none_some (rw n at e))
  | inr (p, n) ↦
      let big = prime_above-lt prime_list (50 * size / 29 + 1) p n in
      subst (IsFresh size) (same p (rw n at e)) (fresh-IsFresh size p big)
]
  where
    none_some : none ≡ some h → ⊥
    none_some e = cc

    same : (p : ℕ) → some (fresh p) ≡ some h → fresh p ≡ h
    same p e = cc

grown-ge : (b : ℕ) → b ≤ grown b
grown-ge b = ground arith

-- What an operation on a table keeps: the same nodes in a valid table.
pub record Rehashed (h h' : PkgHash) : Type 0 where
  pub runs : rehash h ≡ some h'
  pub valid : IsValid h'
  pub entries : h'.entries ≡ h.entries
  pub space : h'.entries < h'.limit
  pub nodes : (m : Node) → InTable h'.hash_table m ↔ InTable h.hash_table m

-- `rehash` of a valid table fails only where no table of the new size can be made, because there
-- is no greater prime; otherwise it ends with a valid table of the same nodes, with as many
-- entries, and with room for one more.
pub rehash-Rehashed :
    (h : PkgHash)
    → IsValid h
    → (create (grown h.buckets) ≡ none) × (rehash h ≡ none) ⊎ ((h' : PkgHash) × Rehashed h h')
unfolding rehash
rehash-Rehashed h v = elim (Option-cases (create (grown h.buckets))) [
  | inl e ↦ inl (e, rw e)
  | inr (c, e) ↦
      let f = create-IsFresh (grown h.buckets) c e in
      let pending : IsPending h.hash_table c.hash_table = record {
        distinct = v.table.unique;
        hashed = v.table.hashed;
        apart = λ i j m n p q. absurd (clash n (f.none_in j) q);
      } in
      let wide = grown-ge h.buckets in
      let room = f.holds in
      let less = f.valid.roomy in
      let (t, r) =
        rebin-Rebinned c.buckets h.hash_table c.hash_table f.valid.table pending
          (omega (arith, v.counted, v.below, v.roomy, f.empty)) in
      inr (
        record c { hash_table = t; list = h.list; entries = h.entries },
        record {
          runs = rw (e, r.runs);
          valid = record {
            table = r.table;
            counted = omega (arith, r.counts, v.counted, f.empty);
            below = omega (arith, v.below, v.roomy);
            roomy = less;
          };
          entries = refl;
          space = omega (arith, v.below, v.roomy);
          nodes = λ m. nodes c t r f m;
        },
      )
]
  where
    clash : {o : Option Node} (n : Node) → o ≡ none → o ≡ some n → ⊥
    clash n p q = cc

    nodes :
        (c : PkgHash) (t : Slots) (r : Rebinned c.buckets h.hash_table c.hash_table t)
        (f : IsFresh (grown h.buckets) c) (m : Node)
        → InTable t m ↔ InTable h.hash_table m
    nodes c t r f m = (
      λ q. elim ((r.holds m).0 q) [ inl o ↦ o | inr (i, e) ↦ absurd (clash m (f.none_in i) e) ],
      λ q. (r.holds m).1 (inl q),
    )

-- The outcome of adding a node.
pub record Added (h : PkgHash) (node : Node) (h' : PkgHash) : Type 0 where
  pub valid : IsValid h'
  pub entries : h'.entries ≡ h.entries + 1
  pub nodes : (m : Node) → InTable h'.hash_table m ↔ ((m ≡ node) ⊎ InTable h.hash_table m)

place-Added :
    (h : PkgHash) (node : Node) (sorted : Bool)
    → IsValid h
    → h.entries < h.limit
    → IsNew h.hash_table node
    → (h' : PkgHash) × (place h node sorted ≡ some h') × Added h node h'
unfolding place
place-Added h node sorted v l n =
    let (q, one) =
      insert_one h.buckets h.hash_table node v.table n (omega (arith, v.counted, v.roomy)) in
    (
      record h {
        hash_table = set h.hash_table q (some node);
        list = if sorted then mmerge node_cmp h.list (node ∷ []) else join h.list (node ∷ []);
        entries = h.entries + 1;
      },
      rw one.finds,
      record {
        valid = record {
          table = one.table;
          counted = omega (arith, one.counts, v.counted);
          below = omega arith;
          roomy = v.roomy;
        };
        entries = refl;
        nodes = one.adds;
      },
    )

IsNew-transfer :
    (t t' : Slots) (node : Node)
    → ((m : Node) → InTable t' m ↔ InTable t m)
    → IsNew t node
    → IsNew t' node
IsNew-transfer t t' node same n = record {
  hashed = n.hashed;
  other = λ i m e. let (j, e') = (same m).0 (i, e) in n.other j m e';
}

-- `pkghash_add_pkg` on a valid table, with a package of a new name, either ends with a valid table
-- that holds this node besides the old ones and nothing else, or fails, and then the table has
-- reached its limit and cannot be made larger.
pub pkghash_add_pkg-Added :
    (h : PkgHash) (node : Node) (sorted : Bool)
    → IsValid h
    → IsNew h.hash_table node
    → (pkghash_add_pkg h node sorted ≡ none)
        × (h.limit ≤ h.entries)
        × (create (grown h.buckets) ≡ none)
      ⊎ ((h' : PkgHash) × (pkghash_add_pkg h node sorted ≡ some h') × Added h node h')
unfolding pkghash_add_pkg
pkghash_add_pkg-Added h node sorted v n = elim (Bool-cases (leb h.limit h.entries)) [
  | inr e ↦ let (h', run, a) = place-Added h node sorted v (ground arith) n in inr (h', rw e run, a)
  | inl e ↦ elim (rehash-Rehashed h v) [
    | inl (c, r) ↦ inl (rw (e, r), ground arith, c)
    | inr (g, r) ↦
        let (h', run, a) =
          place-Added g node sorted r.valid r.space
            (IsNew-transfer h.hash_table g.hash_table node r.nodes n) in
        inr (
          h',
          rw (e, r.runs) run,
          record {
            valid = a.valid;
            entries = omega (arith, a.entries, r.entries);
            nodes = λ m. nodes g h' r a m;
          },
        )
  ]
]
  where
    nodes :
        (g h' : PkgHash) (r : Rehashed h g) (a : Added g node h') (m : Node)
        → InTable h'.hash_table m ↔ ((m ≡ node) ⊎ InTable h.hash_table m)
    nodes g h' r a m = (
      λ q. elim ((a.nodes m).0 q) [ inl o ↦ inl o | inr o ↦ inr ((r.nodes m).0 o) ],
      elim [ inl o ↦ (a.nodes m).1 (inl o) | inr o ↦ (a.nodes m).1 (inr ((r.nodes m).1 o)) ],
    )

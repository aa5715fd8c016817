-- ===== src/PkgHash/Find.antt =====
-- The invariant of the table, and `_alpm_pkghash_find` on a table that satisfies it.
use dulge.Base.{
  ℕ, zero, suc, ◌≤◌, ◌<◌, ◌≡◌, ◌≢◌, ◌⊎◌, refl, ap, ◌∙◌, Bool, true, false, Option, none, some, Str,
  length, arith, inl, inr, Option-cases, ◌%◌, str_eq_iff, ==_iff,
}
use native.Mathlib.Nat.{mod-lt}
use dulge.Package.{hash_sdbm, same_name}
use dulge.PkgHash.{Node, Slots, PkgHash, slot, advance, locate, find}
use dulge.PkgHash.Probe.{get_hash_position-FirstNull}
use dulge.PkgHash.Table.{
  occupied, pos, dist, home, pos-dist, dist-pos, dist-lt, pos-zero, advance-lt, pos-advance, room,
  slot-lt, load,
}

-- No bucket between the home of a node and the node is null, a node has the hash of its name, and
-- no two nodes have one name.
pub record IsTable (b : ℕ) (t : Slots) : Type 0 where
  pub size : length t ≡ b
  pub chained :
      (i : ℕ) (node : Node)
      → slot t i ≡ some node
      → (j : ℕ) → j < dist b (home b node) i
      → occupied t (pos b (home b node) j) ≡ true
  pub hashed :
      (i : ℕ) (node : Node) → slot t i ≡ some node → node.pkg.name_hash ≡ hash_sdbm node.pkg.name
  pub unique :
      (i j : ℕ) (m n : Node)
      → slot t i ≡ some m
      → slot t j ≡ some n
      → m.pkg.name ≡ n.pkg.name
      → i ≡ j

-- The whole structure: the counters describe the table, and the limit leaves a null bucket.
pub record IsValid (h : PkgHash) : Type 0 where
  pub table : IsTable h.buckets h.hash_table
  pub counted : load h.hash_table ≡ h.entries
  pub below : h.entries ≤ h.limit
  pub roomy : h.limit < h.buckets

pub IsValid-room :
    {h : PkgHash} → IsValid h → (z : ℕ) × (z < h.buckets) × (occupied h.hash_table z ≡ false)
IsValid-room {h} v =
    let (z, l, e) = room h.hash_table (omega (arith, v.counted, v.below, v.roomy, v.table.size)) in
    (z, omega (arith, v.table.size), e)

-- A node with this hash and this name.
abbrev pub matches : ℕ → Str → Node → Bool
matches hash name node = same_name node.pkg.name_hash node.pkg.name hash name

pub name_of_matches :
    (hash : ℕ) (name : Str) (node : Node) → matches hash name node ≡ true → node.pkg.name ≡ name
name_of_matches hash name node h = (str_eq_iff node.pkg.name name).0 (ground arith)

pub matches_of_name :
    (name : Str) (node : Node)
    → node.pkg.name_hash ≡ hash_sdbm node.pkg.name
    → node.pkg.name ≡ name
    → matches (hash_sdbm name) name node ≡ true
matches_of_name name node h e =
    let same = (str_eq_iff node.pkg.name name).1 e in
    let hash = (==_iff node.pkg.name_hash (hash_sdbm name)).1 (h ∙ ap hash_sdbm e) in
    rw (hash, same)

module _ (b : ℕ) (t : Slots) (hash : ℕ) (name : Str) where
  -- Where the loop ends, and what it says there.
  abbrev pub Ends : ℕ → Option ℕ → Type 0
  Ends q r =
      ((slot t q ≡ none) × (r ≡ none))
      ⊎ ((m : Node) × (slot t q ≡ some m) × (matches hash name m ≡ true) × (r ≡ some q))

  -- What the loop passes: nodes of another name.
  abbrev pub Passes : ℕ → Type 0
  Passes q = (m : Node) × (slot t q ≡ some m) × (matches hash name m ≡ false)

  locate_end : (fuel p : ℕ) (r : Option ℕ) → Ends p r → locate (suc fuel) t b hash name p ≡ some r
  unfolding locate
  locate_end fuel p r (inl (e, k)) = rw (e, locate, k)
  locate_end fuel p r (inr (m, e, same, k)) = rw (e, locate, same, k)

  pub locate-Ends :
      (fuel p d : ℕ) (r : Option ℕ)
      → p < b
      → d < b
      → d < fuel
      → ((j : ℕ) → j < d → Passes (pos b p j))
      → Ends (pos b p d) r
      → locate fuel t b hash name p ≡ some r
  unfolding locate
  locate-Ends zero p d r l m f pass e = absurd (omega arith)
  locate-Ends (suc fuel) p zero r l m f pass e = locate_end fuel p r (rw (pos-zero b p l) at e)
  locate-Ends (suc fuel) p (suc d) r l m f pass e =
      let (node, here, other) = rw (pos-zero b p l) at (pass 0 (omega arith)) in
      let rest =
        locate-Ends fuel (advance b p) d r (advance-lt b p l) (omega arith) (omega arith)
          (λ j k. rw (pos-advance b p j l (omega arith)) (pass (suc j) (omega arith)))
          (rw (pos-advance b p d l (omega arith)) e) in
      rw (here, locate, other) rest

  -- An occupied bucket whose node has another name is passed.
  pub occupied-Passes :
      (q : ℕ)
      → occupied t q ≡ true
      → ((m : Node) → slot t q ≡ some m → matches hash name m ≡ false)
      → Passes q
  occupied-Passes q u h = elim (Option-cases (slot t q)) [
    | inl e ↦ absurd (ground arith)
    | inr (m, e) ↦ (m, e, h m e)
  ]

not_true : (c : Bool) → (c ≡ true → ⊥) → c ≡ false
not_true true h = absurd (h refl)
not_true false h = refl

module _ (b : ℕ) (t : Slots) (v : IsTable b t) where
  -- The position of a node is found under its name.
  pub locate_present :
      (i : ℕ) (node : Node)
      → slot t i ≡ some node
      → locate b t b node.pkg.name_hash node.pkg.name (home b node) ≡ some (some i)
  locate_present i node e =
      let l : i < b = omega (arith, slot-lt t i (rw e), v.size) in
      let hl : home b node < b = mod-lt node.pkg.name_hash (omega arith) in
      let d = dist-lt b (home b node) i hl l in
      let there = pos-dist b (home b node) i hl l in
      locate-Ends b t node.pkg.name_hash node.pkg.name b (home b node) (dist b (home b node) i)
        (some i) hl d d
        (λ j k.
          occupied-Passes b t node.pkg.name_hash node.pkg.name _ (v.chained i node e j k) (λ m em.
            not_true _ (λ same.
              let q =
                v.unique _ i m node em e
                  (name_of_matches node.pkg.name_hash node.pkg.name m same) in
              omega
                (arith, dist-pos b (home b node) j hl (omega arith), ap (dist b (home b node)) q))))
        (rw there (inr (node, e, matches_self node, refl)))
    where
      matches_self : (n : Node) → matches n.pkg.name_hash n.pkg.name n ≡ true
      matches_self n = rw (
        (==_iff n.pkg.name_hash n.pkg.name_hash).1 refl,
        (str_eq_iff n.pkg.name n.pkg.name).1 refl,
      )

  -- A name that no node has is not found.
  pub locate_absent :
      (hash z : ℕ) (name : Str)
      → z < b
      → occupied t z ≡ false
      → ((i : ℕ) (m : Node) → slot t i ≡ some m → m.pkg.name ≢ name)
      → locate b t b hash name (hash % b) ≡ some none
  locate_absent hash z name l e none_of =
      let hl : hash % b < b = mod-lt hash (omega arith) in
      let (k, le, run, first) = get_hash_position-FirstNull b t hash z l e in
      let kb : k < b = omega (arith, dist-lt b (hash % b) z hl l) in
      locate-Ends b t hash name b (hash % b) k none hl kb kb
        (λ j lt.
          occupied-Passes b t hash name _ (first.before j lt)
            (λ m em. not_true _ (λ same. none_of _ m em (name_of_matches hash name m same))))
        (inl (empty _ first.null, refl))
    where
      empty : (q : ℕ) → occupied t q ≡ false → slot t q ≡ none
      empty q h = elim (Option-cases (slot t q)) [ inl n ↦ n | inr (m, n) ↦ absurd (ground arith) ]

-- In a valid table a lookup of the name of a node of the table ends, and returns the package of
-- that node.
pub find_present :
    (h : PkgHash) (i : ℕ) (node : Node)
    → IsValid h
    → slot h.hash_table i ≡ some node
    → find h node.pkg.name ≡ some (some node.pkg)
unfolding find
find_present h i node v e =
    let run = locate_present h.buckets h.hash_table v.table i node e in
    let hash = v.table.hashed i node e in rw (← hash, run, e)

-- In a valid table a lookup of a name that no package of the table has ends with no package.
pub find_absent :
    (h : PkgHash) (name : Str)
    → IsValid h
    → ((i : ℕ) (m : Node) → slot h.hash_table i ≡ some m → m.pkg.name ≢ name)
    → find h name ≡ some none
unfolding find
find_absent h name v none_of =
    let (z, l, e) = IsValid-room v in
    rw (locate_absent h.buckets h.hash_table v.table (hash_sdbm name) z name l e none_of)

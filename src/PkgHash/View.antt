-- ===== src/PkgHash/View.antt =====
-- The table as a partial function from names to packages.
use dulge.Base.{
  ℕ, zero, suc, ◌≡◌, ◌≢◌, ◌⊎◌, refl, sym, ap, ◌∙◌, Bool, false, subst, ◌≤◌, Option, none, some, [],
  ◌∷◌, Str, arith, inl, inr, Bool-cases, str_eq, str_eq_iff,
}
use dulge.Package.{Pkg}
use dulge.PkgHash.{Node, Slots, PkgHash, slot, find, create, grown, pkghash_add_pkg, remove}
use dulge.PkgHash.Find.{IsValid, find_present, find_absent}
use dulge.PkgHash.Grow.{Added, pkghash_add_pkg-Added}
use dulge.PkgHash.Insert.{InTable, IsNew}
use dulge.PkgHash.Remove.{Removed, remove-Removed}

abbrev Named : Slots → Str → Type 0
Named t name = (m : Node) × (m.pkg.name ≡ name) × InTable t m

-- Whether some node has the name.
Named-or_not :
    (t : Slots) (name : Str)
    → Named t name ⊎ ((i : ℕ) (m : Node) → slot t i ≡ some m → m.pkg.name ≢ name)
Named-or_not [] name = inr (λ i m e. absurd (ground arith))
Named-or_not (x ∷ t) name = elim (Named-or_not t name) [
  | inl (m, e, (i, h)) ↦ inl (m, e, (suc i, h))
  | inr none_of ↦ head x none_of
]
  where
    head :
        (x : Option Node)
        → ((i : ℕ) (m : Node) → slot t i ≡ some m → m.pkg.name ≢ name)
        → Named (x ∷ t) name ⊎ ((i : ℕ) (m : Node) → slot (x ∷ t) i ≡ some m → m.pkg.name ≢ name)
    head none k = inr (none_at k)
      where
        none_at :
            ((i : ℕ) (m : Node) → slot t i ≡ some m → m.pkg.name ≢ name)
            → (i : ℕ) (m : Node) → slot (none ∷ t) i ≡ some m
            → m.pkg.name ≢ name
        none_at k zero m e = absurd (ground arith)
        none_at k (suc i) m e = k i m e
    head (some y) k = elim (Bool-cases (str_eq y.pkg.name name)) [
      | inl e ↦ inl (y, (str_eq_iff y.pkg.name name).0 e, (0, refl))
      | inr e ↦ inr (other_at k e)
    ]
      where
        same_name : (m : Node) → some y ≡ some m → y.pkg.name ≡ m.pkg.name
        same_name m e = cc

        clash : y.pkg.name ≡ name → str_eq y.pkg.name name ≡ false → ⊥
        clash e d = let yes_eq = (str_eq_iff y.pkg.name name).1 e in cc

        other_at :
            ((i : ℕ) (m : Node) → slot t i ≡ some m → m.pkg.name ≢ name)
            → str_eq y.pkg.name name ≡ false
            → (i : ℕ) (m : Node) → slot (some y ∷ t) i ≡ some m
            → m.pkg.name ≢ name
        other_at k d zero m e same = clash (same_name m e ∙ same) d
        other_at k d (suc i) m e same = k i m e same

find_named :
    (h : PkgHash) (m : Node) (name : Str)
    → IsValid h
    → m.pkg.name ≡ name
    → InTable h.hash_table m
    → find h name ≡ some (some m.pkg)
find_named h m name v e (i, s) = rw (← e) (find_present h i m v s)

-- Lookups behind an addition.
find-Added :
    (h h' : PkgHash) (node : Node)
    → IsValid h
    → Added h node h'
    → (find h' node.pkg.name ≡ some (some node.pkg))
      × ((name : Str) → name ≢ node.pkg.name → find h' name ≡ find h name)
find-Added h h' node v a = (
  find_named h' node node.pkg.name a.valid refl ((a.nodes node).1 (inl refl)),
  λ name differ. elim (Named-or_not h.hash_table name) [
    | inl (m, e, q) ↦
        find_named h' m name a.valid e ((a.nodes m).1 (inr q)) ∙ sym (find_named h m name v e q)
    | inr none_of ↦
        find_absent h' name a.valid (λ i m s e. fresh name differ none_of i m s e)
        ∙ sym (find_absent h name v none_of)
  ],
)
  where
    fresh :
        (name : Str)
        → name ≢ node.pkg.name
        → ((i : ℕ) (m : Node) → slot h.hash_table i ≡ some m → m.pkg.name ≢ name)
        → (i : ℕ) (m : Node) → slot h'.hash_table i ≡ some m
        → m.pkg.name ≢ name
    fresh name differ none_of i m s e = elim ((a.nodes m).0 (i, s)) [
      | inl same ↦ differ (sym e ∙ ap (λ (z : Node). z.pkg.name) same)
      | inr (j, q) ↦ none_of j m q e
    ]

-- Lookups behind a removal.
find-Removed :
    (h h' : PkgHash) (node : Node)
    → IsValid h
    → Removed h node h'
    → (find h' node.pkg.name ≡ some none)
      × ((name : Str) → name ≢ node.pkg.name → find h' name ≡ find h name)
find-Removed h h' node v r = (
  find_absent h' node.pkg.name r.valid (λ i m s. ((r.nodes m).0 (i, s)).1),
  λ name differ. elim (Named-or_not h.hash_table name) [
    | inl (m, e, q) ↦
        find_named h' m name r.valid e ((r.nodes m).1 (q, λ same. differ (sym e ∙ same)))
        ∙ sym (find_named h m name v e q)
    | inr none_of ↦
        find_absent h' name r.valid (λ i m s. fresh none_of i m s)
        ∙ sym (find_absent h name v none_of)
  ],
)
  where
    fresh :
        {name : Str}
        → ((i : ℕ) (m : Node) → slot h.hash_table i ≡ some m → m.pkg.name ≢ name)
        → (i : ℕ) (m : Node) → slot h'.hash_table i ≡ some m
        → m.pkg.name ≢ name
    fresh none_of i m s = let (j, q) = ((r.nodes m).0 (i, s)).0 in none_of j m q

-- What a lookup of each name gives in the second table: this for the one name, and for every other
-- what it gave in the first table.
abbrev pub Updated : PkgHash → Str → Option Pkg → PkgHash → Type 0
Updated h name pkg h' =
    (find h' name ≡ some pkg) × ((other : Str) → other ≢ name → find h' other ≡ find h other)

-- `_alpm_pkghash_find` behind `pkghash_add_pkg`, for a node whose name is not in the valid table and
-- whose hash is that of its name: the addition ends. Either it fails, and the table was at its limit
-- and cannot be made larger, or it leaves a valid table in which the name of the node finds its
-- package, and any other name what it found before.
pub find-pkghash_add_pkg :
    (h : PkgHash) (node : Node) (sorted : Bool)
    → IsValid h
    → IsNew h.hash_table node
    → ((pkghash_add_pkg h node sorted ≡ none)
        × (h.limit ≤ h.entries)
        × (create (grown h.buckets) ≡ none))
      ⊎ ((h' : PkgHash) × (pkghash_add_pkg h node sorted ≡ some h')
          × IsValid h'
          × Updated h node.pkg.name (some node.pkg) h')
find-pkghash_add_pkg h node sorted v n = elim (pkghash_add_pkg-Added h node sorted v n) [
  | inl failed ↦ inl failed
  | inr (h', run, a) ↦ inr (h', run, a.valid, find-Added h h' node v a)
]

-- `_alpm_pkghash_find` behind `_alpm_pkghash_remove`, for a name that is in the valid table and a
-- package that has it with its hash: the removal ends, hands out the package that a lookup found, and
-- leaves a valid table in which that name finds nothing, and any other name what it found before.
pub find-remove :
    (h : PkgHash) (i : ℕ) (node : Node) (pkg : Pkg)
    → IsValid h
    → slot h.hash_table i ≡ some node
    → pkg.name ≡ node.pkg.name
    → pkg.name_hash ≡ node.pkg.name_hash
    → (h' : PkgHash) × (removed : Pkg) × (remove h pkg ≡ some (h', some removed))
      × (find h pkg.name ≡ some (some removed))
      × IsValid h'
      × Updated h pkg.name none h'
find-remove h i node pkg v there same same_hash =
    let (h', run, r) = remove-Removed h i node pkg v there same same_hash in
    (
      h',
      node.pkg,
      run,
      find_named h node pkg.name v (sym same) (i, there),
      r.valid,
      subst (λ name. Updated h name none h') (sym same) (find-Removed h h' node v r),
    )

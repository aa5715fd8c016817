-- ===== src/PkgHash/Cache.antt =====
-- The list of the nodes beside the table: a lookup in the table is a search of the list.
use dulge.AlpmList.{join, mmerge}
use dulge.Base.{
  ◌≡◌, ◌≢◌, ◌⊎◌, ◌↔◌, refl, sym, ap, ◌∙◌, Bool, true, false, none, some, List, [], ◌∷◌, ◌++◌, Str,
  arith, inl, inr, Bool-cases, Option-cases, if◌then◌else◌, str_eq_iff, ==_iff, map, is_gt, ◌>>=◌,
  leb,
}
use dulge.Package.{Pkg, hash_sdbm, same_name, pkg_find, pkg_find_hashed}
use dulge.PkgHash.{
  Node, PkgHash, create, place, rehash, node_cmp, find, pkghash_add_pkg, get_hash_position, grown,
  rebin,
}
use dulge.PkgHash.Find.{IsValid, find_present, find_absent}
use dulge.PkgHash.Grow.{Added}
use dulge.PkgHash.Insert.{InTable}

-- The node is in the list.
abbrev pub InList : List Node → Node → Type 0
InList [] m = ⊥
InList (x ∷ list) m = (x ≡ m) ⊎ InList list m

-- The list has the nodes of the table.
abbrev pub IsListed : PkgHash → Type 0
IsListed h = (m : Node) → InTable h.hash_table m ↔ InList h.list m

abbrev pub pkgs_of : PkgHash → List Pkg
pkgs_of h = map (λ (n : Node). n.pkg) h.list

-- What the search of a list of nodes finds.
search_list :
    (list : List Node) (name : Str)
    → ((m : Node) → InList list m → m.pkg.name_hash ≡ hash_sdbm m.pkg.name)
    → ((m : Node) × InList list m
        × (m.pkg.name ≡ name)
        × (pkg_find (map (λ (n : Node). n.pkg) list) name ≡ some m.pkg))
      ⊎ (((m : Node) → InList list m → m.pkg.name ≢ name)
          × (pkg_find (map (λ (n : Node). n.pkg) list) name ≡ none))
unfolding pkg_find pkg_find_hashed
search_list [] name hashed = inr (λ m h. absurd h, refl)
search_list (x ∷ list) name hashed =
    elim (Bool-cases (same_name x.pkg.name_hash x.pkg.name (hash_sdbm name) name)) [
      | inl e ↦ inl (x, inl refl, named e, rw e)
      | inr e ↦ elim (search_list list name (λ m h. hashed m (inr h))) [
        | inl (m, h, n, f) ↦ inl (m, inr h, n, rw e f)
        | inr (others, f) ↦ inr (λ m h. other e others m h, rw e f)
      ]
    ]
  where
    named : same_name x.pkg.name_hash x.pkg.name (hash_sdbm name) name ≡ true → x.pkg.name ≡ name
    named e = (str_eq_iff x.pkg.name name).0 (ground arith)

    not_named :
        same_name x.pkg.name_hash x.pkg.name (hash_sdbm name) name ≡ false → x.pkg.name ≢ name
    not_named e same =
        let s = (str_eq_iff x.pkg.name name).1 same in
        let q =
          (==_iff x.pkg.name_hash (hash_sdbm name)).1 (hashed x (inl refl) ∙ ap hash_sdbm same) in
        ground arith

    other :
        same_name x.pkg.name_hash x.pkg.name (hash_sdbm name) name ≡ false
        → ((m : Node) → InList list m → m.pkg.name ≢ name)
        → (m : Node) → (x ≡ m) ⊎ InList list m
        → m.pkg.name ≢ name
    other e others m (inl q) = λ same. not_named e (ap (λ (n : Node). n.pkg.name) q ∙ same)
    other e others m (inr h) = others m h

-- `_alpm_pkghash_find` on a valid table whose list has the same nodes ends with what
-- `alpm_pkg_find` finds in that list.
pub find-pkg_find :
    (h : PkgHash) (name : Str)
    → IsValid h
    → IsListed h
    → find h name ≡ some (pkg_find (pkgs_of h) name)
find-pkg_find h name v l =
    elim (search_list h.list name (λ m k. let (i, s) = (l m).1 k in v.table.hashed i m s)) [
      | inl (m, k, n, f) ↦
          let (i, s) = (l m).1 k in ap (find h) (sym n) ∙ find_present h i m v s ∙ ap some (sym f)
      | inr (others, f) ↦
          find_absent h name v (λ i m s. others m ((l m).0 (i, s))) ∙ ap some (sym f)
    ]

join-InList : (l r : List Node) (m : Node) → InList (join l r) m ↔ (InList l m ⊎ InList r m)
join-InList [] r m = (inr, elim [ inl h ↦ absurd h | inr h ↦ h ])
join-InList (x ∷ l) [] m = (inl, elim [ inl h ↦ h | inr h ↦ absurd h ])
join-InList (x ∷ l) (y ∷ r) m = append-InList (x ∷ l) (y ∷ r) m
  where
    append-InList : (l r : List Node) (m : Node) → InList (l ++ r) m ↔ (InList l m ⊎ InList r m)
    append-InList [] r m = (inr, elim [ inl h ↦ absurd h | inr h ↦ h ])
    append-InList (x ∷ l) r m = (
      elim [
        | inl q ↦ inl (inl q)
        | inr h ↦ elim ((append-InList l r m).0 h) [ inl k ↦ inl (inr k) | inr k ↦ inr k ]
      ],
      elim [
        | inl (inl q) ↦ inl q
        | inl (inr h) ↦ inr ((append-InList l r m).1 (inl h))
        | inr h ↦ inr ((append-InList l r m).1 (inr h))
      ],
    )

merge_one-InList :
    (l : List Node) (n m : Node) → InList (mmerge node_cmp l (n ∷ [])) m ↔ ((n ≡ m) ⊎ InList l m)
unfolding mmerge
merge_one-InList [] n m =
    (elim [ inl q ↦ inl q | inr h ↦ absurd h ], elim [ inl q ↦ inl q | inr h ↦ absurd h ])
merge_one-InList (x ∷ l) n m = elim (Bool-cases (is_gt (node_cmp x n))) [
  | inl e ↦ rw (e, mmerge, InList) (λ h. h, λ h. h)
  | inr e ↦
      let (to, from) = merge_one-InList l n m in
      rw (e, mmerge, InList)
        (
          elim [
            | inl q ↦ inr (inl q)
            | inr h ↦ elim (to h) [ inl q ↦ inl q | inr k ↦ inr (inr k) ]
          ],
          elim [
            | inl q ↦ inr (from (inl q))
            | inr (inl q) ↦ inl q
            | inr (inr h) ↦ inr (from (inr h))
          ],
        )
]

-- What `rehash` does to the list, and `pkghash_add_pkg`.
rehash_list : (h g : PkgHash) → rehash h ≡ some g → g.list ≡ h.list
unfolding rehash
rehash_list h g e = elim (Option-cases (create (grown h.buckets))) [
  | inl n ↦ absurd (nothing (rw n at e))
  | inr (c, n) ↦ elim (Option-cases (rebin h.hash_table c.hash_table c.buckets)) [
    | inl q ↦ absurd (nothing (rw (n, ◌>>=◌, q) at e))
    | inr (t, q) ↦ sym (ap_list (rw (n, ◌>>=◌, q) at e))
  ]
]
  where
    nothing : none ≡ some g → ⊥
    nothing q = cc

    ap_list : {r : PkgHash} → some r ≡ some g → r.list ≡ g.list
    ap_list q = ap (λ (x : PkgHash). x.list) (some_injective q)
      where
        some_injective : {r : PkgHash} → some r ≡ some g → r ≡ g
        some_injective q = cc

abbrev with_node : List Node → Node → Bool → List Node
with_node list node sorted =
    if sorted then mmerge node_cmp list (node ∷ []) else join list (node ∷ [])

place_list :
    (h h' : PkgHash) (node : Node) (sorted : Bool)
    → place h node sorted ≡ some h'
    → h'.list ≡ with_node h.list node sorted
unfolding place
place_list h h' node sorted e =
    elim (Option-cases (get_hash_position node.pkg.name_hash h.hash_table h.buckets)) [
      | inl n ↦ absurd (nothing (rw (n, ◌>>=◌) at e))
      | inr (p, n) ↦ sym (list_of (rw (n, ◌>>=◌) at e))
    ]
  where
    nothing : none ≡ some h' → ⊥
    nothing q = cc

    list_of : {r : PkgHash} → some r ≡ some h' → r.list ≡ h'.list
    list_of q = cc

add_list :
    (h h' : PkgHash) (node : Node) (sorted : Bool)
    → pkghash_add_pkg h node sorted ≡ some h'
    → h'.list ≡ with_node h.list node sorted
unfolding pkghash_add_pkg
add_list h h' node sorted e = elim (Bool-cases (leb h.limit h.entries)) [
  | inr f ↦ place_list h h' node sorted (rw (f, ◌>>=◌) at e)
  | inl f ↦ elim (Option-cases (rehash h)) [
    | inl n ↦ absurd (nothing (rw (f, n, ◌>>=◌) at e))
    | inr (g, n) ↦
        place_list g h' node sorted (rw (f, n, ◌>>=◌) at e)
        ∙ ap (λ l. with_node l node sorted) (rehash_list h g n)
  ]
]
  where
    nothing : none ≡ some h' → ⊥
    nothing q = cc

with_node-InList :
    (list : List Node) (node : Node) (sorted : Bool) (m : Node)
    → InList (with_node list node sorted) m ↔ ((m ≡ node) ⊎ InList list m)
with_node-InList list node true m =
    let (to, from) = merge_one-InList list node m in
    (
      λ h. elim (to h) [ inl q ↦ inl (sym q) | inr k ↦ inr k ],
      elim [ inl q ↦ from (inl (sym q)) | inr k ↦ from (inr k) ],
    )
with_node-InList list node false m =
    let (to, from) = join-InList list (node ∷ []) m in
    (
      λ h. elim (to h) [ inl k ↦ inr k | inr (inl q) ↦ inl (sym q) | inr (inr b) ↦ absurd b ],
      elim [ inl q ↦ from (inr (inl (sym q))) | inr k ↦ from (inl k) ],
    )

-- Adding a package keeps the list and the table together.
pub add-IsListed :
    (h h' : PkgHash) (node : Node) (sorted : Bool)
    → IsListed h
    → pkghash_add_pkg h node sorted ≡ some h'
    → Added h node h'
    → IsListed h'
add-IsListed h h' node sorted l e a m =
    let both = with_node-InList h.list node sorted m in
    let same = add_list h h' node sorted e in
    let old = l m in
    (
      λ q. rw same (both.1 (elim ((a.nodes m).0 q) [ inl o ↦ inl o | inr o ↦ inr (old.0 o) ])),
      λ q. (a.nodes m).1 (elim (both.0 (rw same at q)) [ inl o ↦ inl o | inr o ↦ inr (old.1 o) ]),
    )

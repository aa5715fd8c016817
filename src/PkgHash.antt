-- ===== src/PkgHash.antt =====
-- The hash table of packages, lib/libalpm/pkghash.c: open addressing with linear probing, and a
-- list of the same nodes. A probe that meets no null bucket would never end: such loops run on fuel,
-- one round for each bucket, and `none` says that the loop does not end (or reads a null node).
-- malloc does not fail; the address that it returns is an argument.
pub mod Table
pub mod Probe
pub mod Find
pub mod Insert
pub mod Rebin
pub mod Grow
pub mod View
pub mod Cache
pub mod Fill
pub mod Shift
pub mod Holes
pub mod Remove
mod Tests
use dulge.Base.{
  ℕ, zero, suc, ◌+◌, ◌-◌, ◌*◌, ◌/◌, ◌%◌, Ordering, Bool, true, false, ◌&&◌, Option, none, some,
  List, [], ◌∷◌, ◌++◌, Str, length, get_or, set, replicate, ltb, leb, ◌==◌, if◌then◌else◌, ◌>>=◌,
}
use dulge.Package.{Pkg, hash_sdbm, same_name, pkg_cmp}
use dulge.AlpmList.{join, mmerge}

abbrev pub prime_list : List ℕ
prime_list =
    11 ∷ 13 ∷ 17 ∷ 19 ∷ 23 ∷ 29 ∷ 31 ∷ 37 ∷ 41 ∷ 43 ∷ 47 ∷ 53 ∷ 59 ∷ 61 ∷ 67 ∷ 71 ∷ 73 ∷ 79 ∷ 83
    ∷ 89 ∷ 97 ∷ 103 ∷ 109 ∷ 113 ∷ 127 ∷ 137 ∷ 139 ∷ 149 ∷ 157 ∷ 167 ∷ 179 ∷ 193 ∷ 199 ∷ 211 ∷ 227
    ∷ 241 ∷ 257 ∷ 277 ∷ 293 ∷ 313 ∷ 337 ∷ 359 ∷ 383 ∷ 409 ∷ 439 ∷ 467 ∷ 503 ∷ 541 ∷ 577 ∷ 619 ∷ 661
    ∷ 709 ∷ 761 ∷ 823 ∷ 887 ∷ 953 ∷ 1031 ∷ 1109 ∷ 1193 ∷ 1289 ∷ 1381 ∷ 1493 ∷ 1613 ∷ 1741 ∷ 1879
    ∷ 2029 ∷ 2179 ∷ 2357 ∷ 2549 ∷ 2753 ∷ 2971 ∷ 3209 ∷ 3469 ∷ 3739 ∷ 4027 ∷ 4349 ∷ 4703 ∷ 5087
    ∷ 5503 ∷ 5953 ∷ 6427 ∷ 6949 ∷ 7517 ∷ 8123 ∷ 8783 ∷ 9497 ∷ 10273 ∷ 11113 ∷ 12011 ∷ 12983 ∷ 14033
    ∷ 15173 ∷ 16411 ∷ 17749 ∷ 19183 ∷ 20753 ∷ 22447 ∷ 24281 ∷ 26267 ∷ 28411 ∷ 30727 ∷ 33223 ∷ 35933
    ∷ 38873 ∷ 42043 ∷ 45481 ∷ 49201 ∷ 53201 ∷ 57557 ∷ 62233 ∷ 67307 ∷ 72817 ∷ 78779 ∷ 85229 ∷ 92203
    ∷ 99733 ∷ 107897 ∷ 116731 ∷ 126271 ∷ 136607 ∷ 147793 ∷ 159871 ∷ 172933 ∷ 187091 ∷ 202409
    ∷ 218971 ∷ 236897 ∷ 256279 ∷ 277261 ∷ 299951 ∷ 324503 ∷ 351061 ∷ 379787 ∷ 410857 ∷ 444487
    ∷ 480881 ∷ 520241 ∷ 562841 ∷ 608903 ∷ 658753 ∷ 712697 ∷ 771049 ∷ 834181 ∷ 902483 ∷ 976369 ∷ []

-- A node of `alpm_list_t` with its address.
pub record Node : Type 0 where
  pub ptr : ℕ
  pub pkg : Pkg

abbrev pub Slots : Type 0
Slots = List (Option Node)

-- `alpm_pkghash_t`
pub record PkgHash : Type 0 where
  pub hash_table : Slots
  pub list : List Node
  pub buckets : ℕ
  pub entries : ℕ
  pub limit : ℕ

-- hash_table[position]
abbrev pub slot : Slots → ℕ → Option Node
slot table position = get_or table position none

-- The first prime that is greater; `none` where the loop ends without one.
unfoldable pub prime_above : List ℕ → ℕ → Option ℕ
prime_above [] size = none
prime_above (p ∷ primes) size = if ltb size p then some p else prime_above primes size

-- `_alpm_pkghash_create`. For every size that is served the quotient by the double 0.58 is cut to
-- the same integer as 50 * size / 29, and the product with 0.68 to 17 * buckets / 25.
unfoldable pub create : ℕ → Option PkgHash
unfolding prime_above
create size = do
  p ← prime_above prime_list (50 * size / 29 + 1)
  some (record {
    hash_table = replicate p none;
    list = [];
    buckets = p;
    entries = 0;
    limit = 17 * p / 25;
  })

-- `position += stride` and the loop behind it; a position is less than `buckets`, so that the loop
-- makes one round at most.
abbrev pub advance : ℕ → ℕ → ℕ
advance buckets position =
    if leb buckets (position + 1) then position + 1 - buckets else position + 1

-- The loop of `get_hash_position`.
unfoldable pub probe : ℕ → Slots → ℕ → ℕ → Option ℕ
probe zero table buckets position = none
probe (suc fuel) table buckets position = elim (slot table position) [
  | none ↦ some position
  | some node ↦ probe fuel table buckets (advance buckets position)
]

abbrev pub get_hash_position : ℕ → Slots → ℕ → Option ℕ
get_hash_position name_hash table buckets = probe buckets table buckets (name_hash % buckets)

-- The new size that `rehash` asks for.
abbrev pub grown : ℕ → ℕ
grown buckets =
    if ltb buckets 500
    then buckets * 2
    else if ltb buckets 2000
    then buckets * 3 / 2
    else if ltb buckets 5000
    then buckets * 4 / 3
    else buckets + 1

-- The loop of `rehash` over the old table.
unfoldable pub rebin : Slots → Slots → ℕ → Option Slots
rebin [] table buckets = some table
rebin (none ∷ old) table buckets = rebin old table buckets
rebin (some node ∷ old) table buckets = do
  position ← get_hash_position node.pkg.name_hash table buckets
  rebin old (set table position (some node)) buckets

unfoldable pub rehash : PkgHash → Option PkgHash
unfolding create rebin
rehash oldhash = do
  newhash ← create (grown oldhash.buckets)
  table ← rebin oldhash.hash_table newhash.hash_table newhash.buckets
  some (record newhash { hash_table = table; list = oldhash.list; entries = oldhash.entries })

abbrev pub node_cmp : Node → Node → Ordering
node_cmp m n = pkg_cmp m.pkg n.pkg

-- What `pkghash_add_pkg` does with a table that has room.
unfoldable pub place : PkgHash → Node → Bool → Option PkgHash
place hash node sorted = do
  position ← get_hash_position node.pkg.name_hash hash.hash_table hash.buckets
  some (record hash {
    hash_table = set hash.hash_table position (some node);
    list = if sorted then mmerge node_cmp hash.list (node ∷ []) else join hash.list (node ∷ []);
    entries = hash.entries + 1;
  })

-- `pkghash_add_pkg`; `none` is the null result, where the table cannot grow.
unfoldable pub pkghash_add_pkg : PkgHash → Node → Bool → Option PkgHash
unfolding place rehash
pkghash_add_pkg hash node sorted =
    let room = if leb hash.limit hash.entries then rehash hash else some hash in
    do hash' ← room; place hash' node sorted

abbrev pub add : PkgHash → Node → Option PkgHash
add hash node = pkghash_add_pkg hash node false

abbrev pub add_sorted : PkgHash → Node → Option PkgHash
add_sorted hash node = pkghash_add_pkg hash node true

-- The loop that `_alpm_pkghash_find` and `_alpm_pkghash_remove` share: the position of the first
-- node of that name, or `none` at a null bucket.
unfoldable pub locate : ℕ → Slots → ℕ → ℕ → Str → ℕ → Option (Option ℕ)
locate zero table buckets name_hash name position = none
locate (suc fuel) table buckets name_hash name position = elim (slot table position) [
  | none ↦ some none
  | some node ↦
      let rest = locate fuel table buckets name_hash name (advance buckets position) in
      if same_name node.pkg.name_hash node.pkg.name name_hash name
      then some (some position)
      else rest
]

-- `_alpm_pkghash_find`
unfoldable pub find : PkgHash → Str → Option (Option Pkg)
unfolding locate
find hash name =
    let name_hash = hash_sdbm name in
    do
      found ←
          locate hash.buckets hash.hash_table hash.buckets name_hash name (name_hash % hash.buckets)
      some (elim found [
        | none ↦ none
        | some position ↦ elim (slot hash.hash_table position) [
          | none ↦ none
          | some node ↦ some node.pkg
        ]
      ])

-- One bucket back: `(hash->buckets + end - stride) % hash->buckets`.
abbrev pub retreat : ℕ → ℕ → ℕ
retreat buckets position = (buckets + position - 1) % buckets

-- `move_one_entry`: the table and the position where the search ended.
unfoldable pub move_one_entry : ℕ → Slots → ℕ → ℕ → ℕ → Option (Slots × ℕ)
move_one_entry zero table buckets start end = none
move_one_entry (suc fuel) table buckets start end =
    let rest = move_one_entry fuel table buckets start (retreat buckets end) in
    let here : Option (Slots × ℕ) = elim (slot table end) [
      | none ↦ none
      | some info ↦ do
        new_position ← get_hash_position info.pkg.name_hash table buckets
        if new_position == start
            then some (set (set table start (some info)) end none, end)
            else rest
    ] in
    if end == start then some (table, end) else here

-- `while((prev = move_one_entry(hash, position, stop)) != position) position = prev;`
unfoldable pub fill_holes : ℕ → Slots → ℕ → ℕ → ℕ → Option Slots
unfolding move_one_entry
fill_holes zero table buckets position stop = none
fill_holes (suc fuel) table buckets position stop = do
  (table', prev) ← move_one_entry (suc buckets) table buckets position stop
  let rest = fill_holes fuel table' buckets prev stop
  if prev == position then some table' else rest

-- The loop that looks for the next null bucket, from the one behind `position`.
unfoldable pub run_end : ℕ → Slots → ℕ → ℕ → ℕ → Option ℕ
run_end zero table buckets position stop = none
run_end (suc fuel) table buckets position stop = elim (slot table stop) [
  | none ↦ some stop
  | some node ↦
      let rest = run_end fuel table buckets position (advance buckets stop) in
      if stop == position then some stop else rest
]

-- `alpm_list_remove_item` on the node at that address.
unfoldable pub remove_node : ℕ → List Node → List Node
remove_node ptr [] = []
remove_node ptr (node ∷ list) = if node.ptr == ptr then list else node ∷ remove_node ptr list

-- `_alpm_pkghash_remove`: the table, and the package that `*data` points to.
unfoldable pub remove_at : PkgHash → ℕ → Node → Option PkgHash
unfolding run_end fill_holes remove_node
remove_at hash position node = do
  let table = set hash.hash_table position none
  let buckets = hash.buckets
  end ← run_end buckets table buckets position (advance buckets position)
  table' ← fill_holes buckets table buckets position (retreat buckets end)
  some (record hash {
    hash_table = table';
    list = remove_node node.ptr hash.list;
    entries = hash.entries - 1;
  })

unfoldable pub remove : PkgHash → Pkg → Option (PkgHash × Option Pkg)
unfolding locate remove_at
remove hash pkg = do
  found ←
      locate hash.buckets hash.hash_table hash.buckets pkg.name_hash pkg.name
        (pkg.name_hash % hash.buckets)
  elim found [
    | none ↦ some (hash, none)
    | some position ↦ elim (slot hash.hash_table position) [
      | none ↦ some (hash, none)
      | some node ↦ do hash' ← remove_at hash position node; some (hash', some node.pkg)
    ]
  ]

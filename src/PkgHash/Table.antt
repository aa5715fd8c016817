-- ===== src/PkgHash/Table.antt =====
-- Positions on the ring of buckets, and what the table holds.
use dulge.Base.{
  ℕ, zero, suc, ◌+◌, ◌-◌, ◌<◌, ◌≡◌, ◌≢◌, refl, ap, Bool, true, false, Option, none, some, [], ◌∷◌,
  length, set, replicate, ltb, leb, ◌==◌, ◌&&◌, if◌then◌else◌, arith, ◌%◌,
}
use dulge.PkgHash.{Node, Slots, slot, advance}

abbrev pub is_some {ℓ} : {A : Type ℓ} → Option A → Bool
is_some none = false
is_some (some a) = true

abbrev pub occupied : Slots → ℕ → Bool
occupied table p = is_some (slot table p)

-- The position `j` buckets behind `p`, and the way from `h` to `p`.
abbrev pub pos : ℕ → ℕ → ℕ → ℕ
pos b p j = if ltb (p + j) b then p + j else p + j - b

abbrev pub dist : ℕ → ℕ → ℕ → ℕ
dist b h p = if leb h p then p - h else p + b - h

-- The bucket that the name of a node asks for.
abbrev pub home : ℕ → Node → ℕ
home b node = node.pkg.name_hash % b

module _ (b : ℕ) where
  pub pos-dist : (h p : ℕ) → h < b → p < b → pos b h (dist b h p) ≡ p
  pos-dist h p l k = ground arith

  pub dist-pos : (h j : ℕ) → h < b → j < b → dist b h (pos b h j) ≡ j
  dist-pos h j l k = ground arith

  pub dist-lt : (h p : ℕ) → h < b → p < b → dist b h p < b
  dist-lt h p l k = ground arith

  pub pos-lt : (h j : ℕ) → h < b → j < b → pos b h j < b
  pos-lt h j l k = ground arith

  pub pos-zero : (h : ℕ) → h < b → pos b h 0 ≡ h
  pos-zero h l = ground arith

  pub advance-lt : (p : ℕ) → p < b → advance b p < b
  advance-lt p l = ground arith

  pub pos-advance : (p j : ℕ) → p < b → j < b → pos b (advance b p) j ≡ pos b p (suc j)
  pos-advance p j l k = ground arith

  pub dist-eq_zero : (h p : ℕ) → h < b → p < b → dist b h p ≡ 0 → h ≡ p
  dist-eq_zero h p l k e = ground arith

  pub pos_injective : (h i j : ℕ) → h < b → i < b → j < b → pos b h i ≡ pos b h j → i ≡ j
  pos_injective h i j l m n e = ground arith

-- Reading behind a write.
pub slot-set :
    (t : Slots) (i j : ℕ) (v : Option Node)
    → slot (set t i v) j ≡ (if i == j && ltb j (length t) then v else slot t j)
slot-set [] i j v = ground arith
slot-set (x ∷ t) zero zero v = ground arith
slot-set (x ∷ t) zero (suc j) v = ground arith
slot-set (x ∷ t) (suc i) zero v = ground arith
slot-set (x ∷ t) (suc i) (suc j) v = ground (arith, slot-set t i j v)

module _ (t : Slots) (i : ℕ) (v : Option Node) (h : i < length t) where
  pub slot-set_same : slot (set t i v) i ≡ v
  slot-set_same = ground (arith, slot-set t i i v)

  pub slot-set_other : (j : ℕ) → i ≢ j → slot (set t i v) j ≡ slot t j
  slot-set_other j n = ground (arith, slot-set t i j v)

pub slot-lt : (t : Slots) (i : ℕ) → occupied t i ≡ true → i < length t
slot-lt [] i h = cc
slot-lt (x ∷ t) zero h = omega arith
slot-lt (x ∷ t) (suc i) h = omega (arith, slot-lt t i h)

pub slot-replicate : (n i : ℕ) → slot (replicate n none) i ≡ none
slot-replicate zero i = refl
slot-replicate (suc n) zero = refl
slot-replicate (suc n) (suc i) = slot-replicate n i

-- How many buckets are not null.
abbrev pub load : Slots → ℕ
load [] = 0
load (none ∷ t) = load t
load (some x ∷ t) = suc (load t)

pub load-set :
    (t : Slots) (i : ℕ) (x : Node)
    → i < length t
    → occupied t i ≡ false
    → load (set t i (some x)) ≡ suc (load t)
load-set [] i x h e = absurd (omega arith)
load-set (none ∷ t) zero x h e = refl
load-set (some y ∷ t) zero x h e = cc
load-set (none ∷ t) (suc i) x h e = load-set t i x (omega arith) e
load-set (some y ∷ t) (suc i) x h e = ap suc (load-set t i x (omega arith) e)

pub load-clear : (t : Slots) (i : ℕ) → occupied t i ≡ true → suc (load (set t i none)) ≡ load t
load-clear [] i e = cc
load-clear (none ∷ t) zero e = cc
load-clear (some y ∷ t) zero e = refl
load-clear (none ∷ t) (suc i) e = load-clear t i e
load-clear (some y ∷ t) (suc i) e = ap suc (load-clear t i e)

-- A table that is not full has a null bucket.
pub room : (t : Slots) → load t < length t → (z : ℕ) × (z < length t) × (occupied t z ≡ false)
room [] h = absurd (omega arith)
room (none ∷ t) h = (0, omega arith, refl)
room (some x ∷ t) h = let (z, l, e) = room t (omega arith) in (suc z, omega arith, e)

-- ===== src/PkgHash/Probe.antt =====
-- The loop of `get_hash_position`, and the first null bucket.
use dulge.Base.{
  ℕ, zero, suc, ◌≤◌, ◌<◌, ◌≡◌, true, false, none, some, arith, inl, inr, Option-cases, ◌%◌,
}
use native.Mathlib.Nat.{mod-lt}
use dulge.PkgHash.{Slots, slot, advance, probe, get_hash_position}
use dulge.PkgHash.Table.{occupied, pos, dist, pos-dist, dist-lt, pos-zero, advance-lt, pos-advance}

-- The first null bucket behind `p` is `k` buckets away.
pub record FirstNull (b : ℕ) (t : Slots) (p k : ℕ) : Type 0 where
  pub null : occupied t (pos b p k) ≡ false
  pub before : (j : ℕ) → j < k → occupied t (pos b p j) ≡ true

module _ (b : ℕ) (t : Slots) where
  unoccupied : (p : ℕ) → occupied t p ≡ false → slot t p ≡ none
  unoccupied p h = elim (Option-cases (slot t p)) [
    | inl e ↦ e
    | inr (node, e) ↦ absurd (ground arith)
  ]

  FirstNull-step :
      (p k : ℕ)
      → p < b
      → suc k < b
      → occupied t p ≡ true
      → FirstNull b t (advance b p) k
      → FirstNull b t p (suc k)
  FirstNull-step p k l m u h = record {
    null = rw (← pos-advance b p k l (omega arith)) h.null;
    before = before;
  }
    where
      before : (j : ℕ) → j < suc k → occupied t (pos b p j) ≡ true
      before zero n = rw (pos-zero b p l) u
      before (suc j) n = rw (← pos-advance b p j l (omega arith)) (h.before j (omega arith))

  -- With a null bucket within the fuel the loop ends, and its result is the first null bucket.
  pub probe-FirstNull :
      (fuel p d : ℕ)
      → p < b
      → d < b
      → d < fuel
      → occupied t (pos b p d) ≡ false
      → (k : ℕ) × (k ≤ d) × (probe fuel t b p ≡ some (pos b p k)) × FirstNull b t p k
  unfolding probe
  probe-FirstNull zero p d l m f e = absurd (omega arith)
  probe-FirstNull (suc fuel) p zero l m f e =
      let n = unoccupied p (rw (pos-zero b p l) at e) in
      (
        0,
        omega arith,
        rw (n, probe, pos-zero b p l),
        record { null = e; before = λ j lt. absurd (omega arith) },
      )
  probe-FirstNull (suc fuel) p (suc d) l m f e = elim (Option-cases (slot t p)) [
    | inl n ↦ (
      0,
      omega arith,
      rw (n, probe, pos-zero b p l),
      record { null = rw (pos-zero b p l, n); before = λ j lt. absurd (omega arith) },
    )
    | inr (node, n) ↦
        let (k, le, run, first) =
          probe-FirstNull fuel (advance b p) d (advance-lt b p l) (omega arith) (omega arith)
            (rw (pos-advance b p d l (omega arith)) e) in
        (
          suc k,
          omega arith,
          rw (n, probe, run, pos-advance b p k l (omega arith)),
          FirstNull-step p k l (omega arith) (rw n) first,
        )
  ]

  -- In a table with a null bucket `get_hash_position` returns the first null bucket from the home
  -- of the hash on.
  pub get_hash_position-FirstNull :
      (name_hash z : ℕ)
      → z < b
      → occupied t z ≡ false
      → (k : ℕ) × (k ≤ dist b (name_hash % b) z)
        × (get_hash_position name_hash t b ≡ some (pos b (name_hash % b) k))
        × FirstNull b t (name_hash % b) k
  get_hash_position-FirstNull name_hash z l e =
      let h : name_hash % b < b = mod-lt name_hash (omega arith) in
      let d = dist-lt b (name_hash % b) z h l in
      probe-FirstNull b (name_hash % b) (dist b (name_hash % b) z) h d d
        (rw (pos-dist b (name_hash % b) z h l) e)

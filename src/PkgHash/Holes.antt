-- ===== src/PkgHash/Holes.antt =====
-- Removal: the loop round `move_one_entry`.
use dulge.Base.{
  ℕ, zero, suc, ◌-◌, ◌≤◌, ◌<◌, ◌≡◌, ◌⊎◌, ◌↔◌, refl, sym, ap, ◌∙◌, subst, false, Option, some, ◌==◌,
  if◌then◌else◌, arith, inl, inr, ◌>>=◌, ==_iff,
}
use dulge.PkgHash.{Node, Slots, retreat, move_one_entry, fill_holes}
use dulge.PkgHash.Fill.{
  IsHoled, refill, refill-IsHoled, refill-nodes, refill-load, refill-dist, retreat-pos,
}
use dulge.PkgHash.Find.{IsTable}
use dulge.PkgHash.Insert.{InTable}
use dulge.PkgHash.Table.{occupied, pos, dist, pos-dist, dist-lt, pos-zero, load}
use dulge.PkgHash.Shift.{
  Settled, bucket_lt, outside-Settled, Outcome, kept, moved, move_one_entry-Outcome,
}

module _ (b : ℕ) (t : Slots) (hole z : ℕ) (v : IsHoled b t hole z) where
  -- If no node behind the hole asks for it, the hole does no harm.
  all_Settled :
      ((k : ℕ) → 0 < k → suc k ≤ dist b hole z → Settled b t (pos b hole k))
      → (i : ℕ) → Settled b t i
  all_Settled inside i node e =
      let l = bucket_lt b t hole z v i node e in
      let back = pos-dist b hole i v.hole_lt l in
      let back_z = pos-dist b hole z v.hole_lt v.z_lt in
      elim (place (dist b hole i)) [
        | inl d ↦
            absurd
              (null_here hole v.null (sym back ∙ ap (pos b hole) d ∙ pos-zero b hole v.hole_lt))
        | inr (inl (p, q)) ↦ subst (Settled b t) back (inside (dist b hole i) p q) node e
        | inr (inr (inl d)) ↦ absurd (null_here z v.stop (sym back ∙ ap (pos b hole) d ∙ back_z))
        | inr (inr (inr d)) ↦ outside-Settled b t hole z v i l d node e
      ]
    where
      place :
          (d : ℕ)
          → (d ≡ 0)
            ⊎ (((0 < d) × (suc d ≤ dist b hole z)) ⊎ ((d ≡ dist b hole z) ⊎ (dist b hole z < d)))
      place d = omega arith

      null_here : (q : ℕ) → occupied t q ≡ false → i ≡ q → ⊥
      null_here q n same = let m = rw (same) at e in ground arith

  Settled-IsTable : ((i : ℕ) → Settled b t i) → IsTable b t
  Settled-IsTable all = record {
    size = v.size;
    chained = λ i node e j l. all i node e j l;
    hashed = v.hashed;
    unique = v.unique;
  }

  -- The bucket before the end of the run.
  last : (m : ℕ) → dist b hole z ≡ suc m → retreat b z ≡ pos b hole m
  last m d =
      let dz = dist-lt b hole z v.hole_lt v.z_lt in
      ap (retreat b) (sym (pos-dist b hole z v.hole_lt v.z_lt) ∙ ap (pos b hole) d)
      ∙ retreat-pos b hole m v.hole_lt (omega arith)

  gap : (m : ℕ) × (dist b hole z ≡ suc m)
  gap = (dist b hole z - 1, omega (arith, positive (dist b hole z) refl))
    where
      positive : (d : ℕ) → d ≡ dist b hole z → 0 < d
      positive zero q = absurd (
          v.apart (
            sym (pos-zero b hole v.hole_lt)
            ∙ ap (pos b hole) q
            ∙ pos-dist b hole z v.hole_lt v.z_lt))
      positive (suc d) q = omega arith

-- The loop ends with a table of the same nodes.
pub record Filled (b : ℕ) (t : Slots) (result : Option Slots) : Type 0 where
  pub filled : Slots
  pub runs : result ≡ some filled
  pub table : IsTable b filled
  pub nodes : (m : Node) → InTable filled m ↔ InTable t m
  pub counts : load filled ≡ load t

module _ (b : ℕ) (t : Slots) (hole z : ℕ) (v : IsHoled b t hole z) (m : ℕ)
    (d : dist b hole z ≡ suc m) where
  -- The round starts at the end of the run.
  first_Outcome : Outcome b t hole z v m (move_one_entry (suc b) t b hole (retreat b z))
  first_Outcome =
      let dz = dist-lt b hole z v.hole_lt v.z_lt in
      subst (λ q. Outcome b t hole z v m (move_one_entry (suc b) t b hole q))
        (sym (last b t hole z v m d))
        (move_one_entry-Outcome b t hole z v m (suc b) (omega arith) (omega arith))

  -- What the loop does with the result of one round, `ih` being its next round.
  after_round :
      (fuel : ℕ) (r : Option (Slots × ℕ))
      → ((t' : Slots) (e : ℕ)
          → IsHoled b t' e z
          → dist b e z < dist b hole z
          → Filled b t' (fill_holes fuel t' b e (retreat b z)))
      → Outcome b t hole z v m r
      → Filled b t (
          r >>= λ x.
          let rest = fill_holes fuel x.0 b x.1 (retreat b z) in
          if x.1 == hole then some x.0 else rest)
  after_round fuel r ih (kept q settled) = record {
    filled = t;
    runs = rw (q, (==_iff hole hole).1 refl);
    table =
        Settled-IsTable b t hole z v
          (all_Settled b t hole z v (λ k p l. settled k p (omega (arith, d))));
    nodes = λ n. (λ h. h, λ h. h);
    counts = refl;
  }
  after_round fuel r ih (moved k info p l h w q) =
      let lt : k < dist b hole z = omega (arith, d) in
      let dz = dist-lt b hole z v.hole_lt v.z_lt in
      let rest =
        ih (refill t hole info (pos b hole k)) (pos b hole k)
          (refill-IsHoled b t hole z v k p lt info h w)
          (refill-dist b t hole z v k p lt info h w) in
      let same = refill-nodes b t hole z v k p lt info h w in
      record {
        filled = rest.filled;
        runs = rw (q, away dz) rest.runs;
        table = rest.table;
        nodes = λ n. (λ x. (same n).0 ((rest.nodes n).0 x), λ x. (rest.nodes n).1 ((same n).1 x));
        counts = rest.counts ∙ refill-load b t hole z v k p lt info h w;
      }
    where
      away : dist b hole z < b → (pos b hole k == hole) ≡ false
      away dz = ground arith

pub fill_holes-Filled :
    (b fuel : ℕ) (t : Slots) (hole z : ℕ)
    → IsHoled b t hole z
    → dist b hole z < fuel
    → Filled b t (fill_holes fuel t b hole (retreat b z))
unfolding fill_holes
fill_holes-Filled b zero t hole z v l = absurd (omega arith)
fill_holes-Filled b (suc fuel) t hole z v l =
    let (m, d) = gap b t hole z v in
    after_round b t hole z v m d fuel (move_one_entry (suc b) t b hole (retreat b z))
      (λ t' e v' lt. fill_holes-Filled b fuel t' e z v' (omega arith))
      (first_Outcome b t hole z v m d)

-- ===== src/PkgHash/Shift.antt =====
-- Removal: `move_one_entry`.
use dulge.Base.{
  ℕ, zero, suc, ◌+◌, ◌≤◌, ◌<◌, ◌≡◌, ◌≢◌, ◌⊎◌, refl, sym, ap, ◌∙◌, true, false, Option, none, some,
  ◌==◌, arith, inl, inr, Option-cases, Bool-cases, ==_iff,
}
use native.Mathlib.Nat.{mod-lt}
use dulge.PkgHash.{Node, Slots, slot, move_one_entry}
use dulge.PkgHash.Fill.{IsHoled, refill, dist-after, pos-pos, retreat-pos}
use dulge.PkgHash.Probe.{FirstNull, get_hash_position-FirstNull}
use dulge.PkgHash.Table.{occupied, pos, dist, home, pos-dist, dist-pos, dist-lt, pos-zero, slot-lt}

-- The way to the node in bucket `i`, if there is one, does not lead over a null bucket.
abbrev pub Settled : ℕ → Slots → ℕ → Type 0
Settled b t i =
    (node : Node)
    → slot t i ≡ some node
    → (j : ℕ) → j < dist b (home b node) i
    → occupied t (pos b (home b node) j) ≡ true

module _ (b : ℕ) (t : Slots) (hole z : ℕ) (v : IsHoled b t hole z) where
  home_lt : (node : Node) → home b node < b
  home_lt node = mod-lt node.pkg.name_hash (omega (arith, v.hole_lt))

  pub bucket_lt : (i : ℕ) (node : Node) → slot t i ≡ some node → i < b
  bucket_lt i node h = omega (arith, slot-lt t i (rw h), v.size)

  -- Behind the end of the run a way that leads over the hole would lead over that end.
  pub outside-Settled : (i : ℕ) → i < b → dist b hole z < dist b hole i → Settled b t i
  outside-Settled i l d node h j k = elim (v.ways i node h j k) [
    | inl u ↦ u
    | inr over ↦ absurd (leads_over over)
  ]
    where
      clash : occupied t z ≡ true → ⊥
      clash u = let n = v.stop in cc

      leads_over : pos b (home b node) j ≡ hole → ⊥
      leads_over over =
          let hl = home_lt node in
          let il = dist-lt b (home b node) i hl l in
          let hj : dist b (home b node) hole ≡ j =
            ap (dist b (home b node)) (sym over) ∙ dist-pos b (home b node) j hl (omega arith) in
          let rest = dist-after b (home b node) hole i hl v.hole_lt l (omega arith) in
          let further : j + dist b hole z < dist b (home b node) i = omega arith in
          let dz = dist-lt b hole z v.hole_lt v.z_lt in
          let at_z : pos b (home b node) (j + dist b hole z) ≡ z =
            sym (pos-pos b (home b node) j (dist b hole z) hl (omega arith) dz (omega arith))
            ∙ ap (λ q. pos b q (dist b hole z)) over
            ∙ pos-dist b hole z v.hole_lt v.z_lt in
          elim (v.ways i node h (j + dist b hole z) further) [
            | inl u ↦ clash (rw at_z at u)
            | inr q ↦ v.apart (sym q ∙ at_z)
          ]

  -- The first null bucket from the home of a node is the hole, or its way is whole.
  probe-Settled :
      (i k : ℕ) (node : Node)
      → slot t i ≡ some node
      → k < b
      → FirstNull b t (home b node) k
      → pos b (home b node) k ≢ hole
      → Settled b t i
  probe-Settled i k node h kb first differ other g j l =
      let near : dist b (home b node) i ≤ k = near_enough (lt_or_le k (dist b (home b node) i)) in
      let same = sym (one_node (sym h ∙ g)) in
      rw same (first.before j (omega (arith, near, ap (λ (m : Node). dist b (home b m) i) same)))
    where
      one_node : some node ≡ some other → node ≡ other
      one_node q = cc

      lt_or_le : (m n : ℕ) → (m < n) ⊎ (n ≤ m)
      lt_or_le m n = omega arith

      clash : occupied t (pos b (home b node) k) ≡ true → ⊥
      clash u = let n = first.null in cc

      near_enough :
          (k < dist b (home b node) i) ⊎ (dist b (home b node) i ≤ k) → dist b (home b node) i ≤ k
      near_enough (inr q) = q
      near_enough (inl q) = elim (v.ways i node h k q) [
        | inl u ↦ absurd (clash u)
        | inr p ↦ absurd (differ p)
      ]

  -- The result of `move_one_entry` that starts `m` buckets behind the hole: no node in between asks
  -- for the hole, or one of them was moved into it.
  pub data Outcome (m : ℕ) (result : Option (Slots × ℕ)) : Type 0 where
    kept :
        result ≡ some (t, hole)
        → ((k : ℕ) → 0 < k → k ≤ m → Settled b t (pos b hole k))
        → Outcome m result
    moved :
        (k : ℕ) (info : Node)
        → 0 < k
        → k ≤ m
        → slot t (pos b hole k) ≡ some info
        → ((j : ℕ) → j < dist b (home b info) hole → occupied t (pos b (home b info) j) ≡ true)
        → result ≡ some (refill t hole info (pos b hole k), pos b hole k)
        → Outcome m result

  pub move_one_entry-Outcome :
      (m fuel : ℕ)
      → m < fuel
      → m < dist b hole z
      → Outcome m (move_one_entry fuel t b hole (pos b hole m))
  unfolding move_one_entry
  move_one_entry-Outcome m zero l n = absurd (omega arith)
  move_one_entry-Outcome zero (suc fuel) l n =
      kept (rw (pos-zero b hole v.hole_lt, (==_iff hole hole).1 refl))
        (λ k p q. absurd (omega arith))
  move_one_entry-Outcome (suc m) (suc fuel) l n =
      elim (Option-cases (slot t (pos b hole (suc m)))) [
        | inl e ↦ absurd (full (v.run (suc m) (omega arith) n) e)
        | inr (info, e) ↦
            let (k, le, run, first) =
              get_hash_position-FirstNull b t info.pkg.name_hash z v.z_lt v.stop in
            let dz = dist-lt b hole z v.hole_lt v.z_lt in
            let kb : k < b = omega (arith, dist-lt b (home b info) z (home_lt info) v.z_lt) in
            elim (Bool-cases (pos b (home b info) k == hole)) [
              | inl q ↦
                  moved (suc m) info (omega arith) (omega arith) e
                    (λ j lt.
                      first.before j
                        (nearer info k kb ((==_iff (pos b (home b info) k) hole).0 q) j lt))
                    (rw (behind dz, e, move_one_entry, run, q))
              | inr q ↦
                  one_more info e
                    (probe-Settled (pos b hole (suc m)) k info e kb first (λ p. unequal info k q p))
                    (rw
                      (
                        behind dz,
                        e,
                        move_one_entry,
                        run,
                        q,
                        retreat-pos b hole m v.hole_lt (omega arith),
                      )
                      refl)
                    (move_one_entry-Outcome m fuel (omega arith) (omega arith))
            ]
      ]
    where
      full : occupied t (pos b hole (suc m)) ≡ true → slot t (pos b hole (suc m)) ≡ none → ⊥
      full u e = ground arith

      behind : dist b hole z < b → (pos b hole (suc m) == hole) ≡ false
      behind dz = ground arith

      unequal :
          (info : Node) (k : ℕ)
          → (pos b (home b info) k == hole) ≡ false
          → pos b (home b info) k ≡ hole
          → ⊥
      unequal info k q p = let r = (==_iff (pos b (home b info) k) hole).1 p in cc

      nearer :
          (info : Node) (k : ℕ)
          → k < b
          → pos b (home b info) k ≡ hole
          → (j : ℕ) → j < dist b (home b info) hole
          → j < k
      nearer info k kb q j lt =
          omega (arith, dist-pos b (home b info) k (home_lt info) kb, ap (dist b (home b info)) q)

      last_or_less : (k : ℕ) → k ≤ suc m → (k ≡ suc m) ⊎ (k ≤ m)
      last_or_less k q = omega arith

      one_more :
          (info : Node)
          → slot t (pos b hole (suc m)) ≡ some info
          → Settled b t (pos b hole (suc m))
          → move_one_entry (suc fuel) t b hole (pos b hole (suc m))
            ≡ move_one_entry fuel t b hole (pos b hole m)
          → Outcome m (move_one_entry fuel t b hole (pos b hole m))
          → Outcome (suc m) (move_one_entry (suc fuel) t b hole (pos b hole (suc m)))
      one_more info e here same (kept r rest) =
          kept (same ∙ r)
            (λ k p q. elim (last_or_less k q) [ inl w ↦ rw w here | inr w ↦ rest k p w ])
      one_more info e here same (moved k x p q h w r) = moved k x p (omega arith) h w (same ∙ r)

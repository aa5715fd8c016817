-- ===== src/Deps/Closure.antt =====
-- The closure that `_alpm_recursedeps` computes by a loop over a growing list.
use mathlib.Core.List.{append_assoc, append-nil}
use dulge.Base.{
  ℕ, zero, suc, ◌+◌, ◌≤◌, ◌≡◌, refl, sym, ap, ◌∙◌, subst, ◌||◌, Bool, true, false, List, [], ◌∷◌,
  ◌++◌, length, arith, length-append, Bool-cases, inl, inr,
}
use dulge.Deps.{is_selected, select_loop, select_depends, select_closure}
use dulge.Deps.Check.{AllIn, count_if, count_if-append}
use dulge.Package.{Pkg}
use dulge.Deps.Recurse.{
  AllIn-zip, AllIn-const, Unmoved, select_cases, depends_left, depends_length, closure_AllIn,
}

module _ (f : Pkg → Bool) (pkg : Pkg) (include_explicit : Bool) where
  loop-count :
      (from : List Pkg)
      → count_if f (select_loop pkg include_explicit from).0
          + count_if f (select_loop pkg include_explicit from).1
        ≡ count_if f from
  unfolding select_loop
  loop-count [] = refl
  loop-count (q ∷ from) =
      let ih = loop-count from in
      elim (Bool-cases (is_selected pkg include_explicit q)) [
        | inl e ↦ rw e (omega (arith, ih))
        | inr e ↦ rw e (omega (arith, ih))
      ]

  depends-count :
      (from : List Pkg)
      → count_if f (select_depends pkg include_explicit from).0
          + count_if f (select_depends pkg include_explicit from).1
        ≡ count_if f from
  depends-count from = elim (select_cases pkg include_explicit from) [
    | inl (e, n) ↦ rw e (omega arith)
    | inr e ↦ rw e (loop-count from)
  ]

module _ (pkg : Pkg) (include_explicit : Bool) where
  abbrev Moved : Pkg → Type 0
  Moved q = is_selected pkg include_explicit q ≡ true

  loop-Moved : (from : List Pkg) → AllIn Moved (select_loop pkg include_explicit from).0
  unfolding select_loop
  loop-Moved [] = tt
  loop-Moved (q ∷ from) = elim (Bool-cases (is_selected pkg include_explicit q)) [
    | inl e ↦ rw (e, AllIn) (e, loop-Moved from)
    | inr e ↦ rw (e, AllIn) (loop-Moved from)
  ]

  depends-Moved : (from : List Pkg) → AllIn Moved (select_depends pkg include_explicit from).0
  depends-Moved from = elim (select_cases pkg include_explicit from) [
    | inl (e, n) ↦ rw e tt
    | inr e ↦ rw e (loop-Moved from)
  ]

-- The package is not selected by any of these.
abbrev pub Spared : Bool → List Pkg → Pkg → Type 0
Spared include_explicit done q = AllIn (λ (p : Pkg). is_selected p include_explicit q ≡ false) done

-- The package is selected by one of these.
abbrev any_selects : Bool → List Pkg → Pkg → Bool
any_selects include_explicit [] q = false
any_selects include_explicit (p ∷ ps) q =
    is_selected p include_explicit q || any_selects include_explicit ps q

-- Every package of the second list is selected by one of the first, or by one that stands before it
-- in the second.
abbrev Earned : Bool → List Pkg → List Pkg → Type 0
Earned include_explicit before [] = Unit
Earned include_explicit before (q ∷ rest) =
    (any_selects include_explicit before q ≡ true)
    × Earned include_explicit (before ++ (q ∷ [])) rest

-- `left` and `done` are the closure of `pending` in `from`: the packages looked at are the pending
-- ones and, behind them, packages that are taken out of `from`, each because one looked at before it
-- selects it; and none of those left is selected by any that was looked at.
pub record IsClosure (include_explicit : Bool) (from pending left done : List Pkg) : Type 0 where
  pub rest : List Pkg
  pub looked_at : done ≡ pending ++ rest
  pub counted : (f : Pkg → Bool) → count_if f rest + count_if f left ≡ count_if f from
  pub earned : Earned include_explicit pending rest
  pub spared : AllIn (Spared include_explicit done) left

Earned-cons :
    (e : Bool) (p : Pkg) (before rest : List Pkg)
    → Earned e before rest
    → Earned e (p ∷ before) rest
Earned-cons e p before [] h = tt
Earned-cons e p before (q ∷ rest) h =
    (or_right (is_selected p e q) h.0, Earned-cons e p (before ++ (q ∷ [])) rest h.1)
  where
    or_right : (b : Bool) {c : Bool} → c ≡ true → (b || c) ≡ true
    or_right b h = ground arith

-- What the package at the head selects.
Earned-Moved :
    (e : Bool) (pkg : Pkg) (before moved : List Pkg)
    → AllIn (Moved pkg e) moved
    → Earned e (pkg ∷ before) moved
Earned-Moved e pkg before [] h = tt
Earned-Moved e pkg before (q ∷ moved) h =
    (rw h.0 refl, Earned-Moved e pkg (before ++ (q ∷ [])) moved h.1)

Earned-append :
    (e : Bool) (before xs ys : List Pkg)
    → Earned e before xs
    → Earned e (before ++ xs) ys
    → Earned e before (xs ++ ys)
Earned-append e before [] ys h k = subst (λ b. Earned e b ys) (append-nil before) k
Earned-append e before (x ∷ xs) ys h k = (
  h.0,
  Earned-append e (before ++ (x ∷ [])) xs ys h.1
      (subst (λ b. Earned e b ys) (sym (append_assoc before (x ∷ []) xs)) k),
)

-- The loop of `_alpm_recursedeps` over a list to which it appends what it moves, with at least as
-- much fuel as there are packages in the two lists, computes the closure of the list: it looks at
-- the packages of the list in order and behind them at those that it moves; it moves a package only
-- if one that it has looked at before selects it; every package of `from` is moved once or left; and
-- no package that it leaves is selected by any that it looked at, the moved ones included, so that
-- another round would move nothing.
pub select_closure-IsClosure :
    (fuel : ℕ) (include_explicit : Bool) (from pending : List Pkg)
    → length from + length pending ≤ fuel
    → IsClosure include_explicit from pending
        (select_closure fuel include_explicit from pending).0
        (select_closure fuel include_explicit from pending).1
unfolding select_closure
select_closure-IsClosure fuel e from [] h = record {
  rest = [];
  looked_at = refl;
  counted = λ f. omega arith;
  earned = tt;
  spared = AllIn-const _ (λ q. tt) from;
}
select_closure-IsClosure zero e from (pkg ∷ pending) h = absurd (omega arith)
select_closure-IsClosure (suc fuel) e from (pkg ∷ pending) h =
    let moved = (select_depends pkg e from).0 in
    let left = (select_depends pkg e from).1 in
    let ih =
      select_closure-IsClosure fuel e left (pending ++ moved)
        (omega (arith, length-append pending moved, depends_length pkg e from)) in
    record {
      rest = moved ++ ih.rest;
      looked_at = ap (λ ps. pkg ∷ ps) (ih.looked_at ∙ append_assoc pending moved ih.rest);
      counted = λ f.
          omega (arith, count_if-append f moved ih.rest, ih.counted f, depends-count f pkg e from);
      earned =
          Earned-append e (pkg ∷ pending) moved ih.rest
            (Earned-Moved e pkg pending moved (depends-Moved pkg e from))
            (Earned-cons e pkg (pending ++ moved) ih.rest ih.earned);
      spared =
          AllIn-zip _ _ _
            (closure_AllIn (Unmoved pkg e) fuel e left (pending ++ moved) (depends_left pkg e from))
            ih.spared;
    }

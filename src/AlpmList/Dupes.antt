-- ===== src/AlpmList/Dupes.antt =====
-- `alpm_list_remove_dupes`, `alpm_list_reverse`, `alpm_list_remove` and `alpm_list_nth`.
use mathlib.Core.List.{reverse, reverse-append}
use dulge.Base.{
  ℕ, ◌+◌, ◌≤◌, ◌<◌, Ordering, ◌≡◌, ◌≢◌, refl, sym, ap, ◌∙◌, ◌↔◌, Bool, true, false, ◌||◌, none,
  some, List, [], ◌∷◌, ◌++◌, is_eq, Bool-cases, inl, inr, arith, ◌==◌, ◌⊎◌,
}
use dulge.AlpmList.{add, backwards, list_reverse, remove, find_ptr, remove_dupes_onto, remove_dupes}
use dulge.AlpmList.Order.{to_nat}
use dulge.AlpmList.Diff.{copy_onto-eq}

abbrev pub occurrences : ℕ → List ℕ → ℕ
occurrences p [] = 0
occurrences p (q ∷ l) = to_nat (q == p) + occurrences p l

find_ptr-append : (p : ℕ) (l r : List ℕ) → find_ptr (l ++ r) p ≡ (find_ptr l p || find_ptr r p)
unfolding find_ptr
find_ptr-append p [] r = refl
find_ptr-append p (q ∷ l) r = ground (arith, find_ptr-append p l r)

-- A pointer that is not null is found exactly if it occurs.
find_ptr-pos : (p : ℕ) (l : List ℕ) → p ≢ 0 → (find_ptr l p ≡ true) ↔ (0 < occurrences p l)
unfolding find_ptr
find_ptr-pos p [] h = (λ e. absurd (ground arith), λ e. absurd (omega arith))
find_ptr-pos p (q ∷ l) h = ground (arith, find_ptr-pos p l h)

occurrences-append :
    (p : ℕ) (l r : List ℕ) → occurrences p (l ++ r) ≡ occurrences p l + occurrences p r
occurrences-append p [] r = omega arith
occurrences-append p (q ∷ l) r = omega (arith, occurrences-append p l r)

once_onto :
    (p : ℕ) (new l : List ℕ)
    → p ≢ 0
    → occurrences p new ≤ 1
    → occurrences p (remove_dupes_onto new l) ≤ 1
unfolding remove_dupes_onto
once_onto p new [] h k = k
once_onto p new (q ∷ l) h k = elim (Bool-cases (find_ptr new q)) [
  | inl e ↦ rw e (once_onto p new l h k)
  | inr e ↦ rw e (
      once_onto p (add new q) l h
        (rw (occurrences-append p new (q ∷ [])) (ground (arith, find_ptr-pos p new h))))
]

find_onto :
    (p : ℕ) (new l : List ℕ)
    → find_ptr (remove_dupes_onto new l) p ≡ (find_ptr new p || find_ptr l p)
unfolding remove_dupes_onto find_ptr
find_onto p new [] = ground arith
find_onto p new (q ∷ l) = elim (Bool-cases (find_ptr new q)) [
  | inl e ↦ rw e (find_onto p new l ∙ ground arith)
  | inr e ↦ rw e (find_onto p (add new q) l ∙ rw (find_ptr-append p new (q ∷ [])) (ground arith))
]

exactly : (b f : Bool) (n : ℕ) → n ≤ 1 → (f ≡ true) ↔ (0 < n) → f ≡ b → n ≡ to_nat b
exactly true f n h k e = omega (arith, k.0 e)
exactly false true n h k e = cc
exactly false false n h k e = zero_of n h (λ p. cc (k.1 p))
  where
    zero_of : (n : ℕ) → n ≤ 1 → (0 < n → ⊥) → n ≡ 0
    zero_of n h k = omega arith

-- `alpm_list_remove_dupes` keeps every pointer that is not null and occurs in the list, and keeps
-- it once; it adds no other such pointer.
pub remove_dupes_once :
    (l : List ℕ) (p : ℕ)
    → p ≢ 0
    → (find_ptr (remove_dupes l) p ≡ find_ptr l p)
      × (occurrences p (remove_dupes l) ≡ to_nat (find_ptr l p))
unfolding find_ptr
remove_dupes_once l p h =
    let once = once_onto p [] l h (omega arith) in
    let found = find_onto p [] l in
    let pos = find_ptr-pos p (remove_dupes l) h in
    (found, exactly (find_ptr l p) _ _ once pos found)

pub backwards-eq {ℓ} : {A : Type ℓ} (l : List A) → backwards l ≡ reverse l
unfolding backwards
backwards-eq [] = refl
backwards-eq (x ∷ l) = rw (backwards-eq l) (sym (reverse-append (x ∷ []) l))

-- `alpm_list_reverse`, which walks the `prev` links, reverses.
pub list_reverse-eq {ℓ} : {A : Type ℓ} (l : List A) → list_reverse l ≡ reverse l
unfolding list_reverse
list_reverse-eq l = copy_onto-eq [] (backwards l) ∙ backwards-eq l

module _ {ℓ κ} {A : Type ℓ} {N : Type κ} (fn : A → N → Ordering) where
  -- No element of the list equals the needle.
  abbrev pub Avoids : List A → N → Type 0
  Avoids [] needle = Unit
  Avoids (x ∷ l) needle = (is_eq (fn x needle) ≡ false) × Avoids l needle

  -- A list that is cut at its first element that equals the needle.
  pub record Cut (l : List A) (needle : N) (rest : List A) (x : A) : Type ℓ where
    pub before : List A
    pub after : List A
    pub whole : l ≡ before ++ x ∷ after
    pub left : rest ≡ before ++ after
    pub equal : is_eq (fn x needle) ≡ true
    pub first : Avoids before needle

  -- `alpm_list_remove` takes out the first element that equals the needle and no other, and
  -- leaves a list without such an element as it is.
  pub remove_first :
      (l : List A) (needle : N)
      → ((remove fn l needle ≡ (l, none)) × Avoids l needle)
        ⊎ ((rest : List A) × (x : A) × (remove fn l needle ≡ (rest, some x)) × Cut l needle rest x)
  unfolding remove
  remove_first [] needle = inl (refl, tt)
  remove_first (x ∷ l) needle = elim (Bool-cases (is_eq (fn x needle))) [
    | inl e ↦ inr (
      l,
      x,
      rw e,
      record { before = []; after = l; whole = refl; left = refl; equal = e; first = tt },
    )
    | inr e ↦ elim (remove_first l needle) [
      | inl (same, none_of) ↦ inl (rw (e, same), (e, none_of))
      | inr (rest, y, found, cut) ↦ inr (
        x ∷ rest,
        y,
        rw (e, found),
        record {
          before = x ∷ cut.before;
          after = cut.after;
          whole = ap (λ t. x ∷ t) cut.whole;
          left = ap (λ t. x ∷ t) cut.left;
          equal = cut.equal;
          first = (e, cut.first);
        },
      )
    ]
  ]

-- ===== src/AlpmList/Order.antt =====
-- What the comparisons that sort a list have to satisfy, and counting up to their equality.
use dulge.Base.{
  ℕ, ◌+◌, Ordering, ◌≡◌, Bool, true, false, List, [], ◌∷◌, flip, is_eq, is_gt, strcmp, strcmp-flip,
  strcmp_trans, eq_of_strcmp,
}

-- A comparison function: it swaps with its arguments, `lt` is transitive, and elements that
-- compare equal compare alike with everything.
pub record IsOrder {ℓ} {A : Type ℓ} (fn : A → A → Ordering) : Type ℓ where
  pub swap : (a b : A) → fn b a ≡ flip (fn a b)
  pub lt_trans : (a b c : A) → fn a b ≡ Ordering.lt → fn b c ≡ Ordering.lt → fn a c ≡ Ordering.lt
  pub congr : (a b c : A) → fn a b ≡ Ordering.eq → fn a c ≡ fn b c

pub strcmp-IsOrder : IsOrder strcmp
strcmp-IsOrder = record {
  swap = strcmp-flip;
  lt_trans = strcmp_trans;
  congr = λ a b c e. rw (eq_of_strcmp a b e);
}

abbrev pub to_nat : Bool → ℕ
to_nat true = 1
to_nat false = 0

module _ {ℓ} {A : Type ℓ} (fn : A → A → Ordering) where
  -- How many elements compare equal to `a`.
  abbrev pub count : A → List A → ℕ
  count a [] = 0
  count a (x ∷ xs) = to_nat (is_eq (fn a x)) + count a xs

  -- `a` is not greater than any element.
  abbrev pub LeAll : A → List A → Type 0
  LeAll a [] = Unit
  LeAll a (x ∷ xs) = (is_gt (fn a x) ≡ false) × LeAll a xs

  abbrev pub IsSorted : List A → Type 0
  IsSorted [] = Unit
  IsSorted (x ∷ xs) = LeAll x xs × IsSorted xs

-- ===== src/LocalDb/Ends.antt =====
-- Reading the files of a package in the local database ends (lib/libalpm/be_local.c).
use dulge.Base.{
  ℕ, zero, suc, ◌+◌, ◌≤◌, ◌<◌, ◌≡◌, refl, ◌⊎◌, inl, inr, Bool, true, false, Option, some, List, [],
  ◌∷◌, Str, length, ◌==◌, arith, Bool-cases, subst,
}
use dulge.LocalDb.Lines.{
  File, is_nil, take_line, fgets_of, fgets, strip_newline, strip_line, more_lines, read_lines,
  read_all,
}

-- What `take_line` splits has the length of the line.
length-take_line :
    (n : ℕ) (s : Str) → length (take_line n s).0 + length (take_line n s).1 ≡ length s
unfolding take_line
length-take_line zero s = omega arith
length-take_line (suc n) [] = omega arith
length-take_line (suc n) (c ∷ s) =
    let rest = length-take_line n s in
    elim (Bool-cases (c == b'\n')) [
      | inl e ↦ rw e (omega arith)
      | inr e ↦ rw e (omega (arith, rest))
    ]

take_line_nil : (n : ℕ) (s : Str) → (take_line (suc n) s).0 ≡ [] → s ≡ []
unfolding take_line
take_line_nil n [] h = refl
take_line_nil n (c ∷ s) h = ground arith

-- Behind `f`: at the end, or with less left.
abbrev pub Later : File → File → Type 0
Later f f' = ((f'.eof ≡ true) × (f'.rest ≡ [])) ⊎ (length f'.rest < length f.rest)

pub Later-le : (f f' : File) → Later f f' → length f'.rest ≤ length f.rest
Later-le f f' (inl (e, r)) = rw r (omega arith)
Later-le f f' (inr h) = omega (arith, h)

pub Later-trans : (f g h : File) → Later f g → Later g h → Later f h
Later-trans f g h l (inl k) = inl k
Later-trans f g h (inl (e, r)) (inr k) =
    absurd (none_below (subst (λ s. length h.rest < length s) r k))
  where
    none_below : {n : ℕ} → n < 0 → ⊥
    none_below b = omega (arith, b)
Later-trans f g h (inr l) (inr k) = inr (omega (arith, l, k))

-- What `fgets_of` gives for a split with these lengths.
module _ (f : File) where
  fgets_of-Later :
      (t : Str × Str × Bool)
      → length t.0 + length t.1 ≡ length f.rest
      → (t.0 ≡ [] → f.rest ≡ [])
      → Later f (fgets_of f t).0
  fgets_of-Later ([], rest, eof) h n = inl (refl, n refl)
  fgets_of-Later (c ∷ taken, rest, eof) h n = inr (omega (arith, h))

  fgets_of-true :
      (t : Str × Str × Bool)
      → length t.0 + length t.1 ≡ length f.rest
      → (fgets_of f t).1 ≡ true
      → length (fgets_of f t).0.rest < length f.rest
  fgets_of-true ([], rest, eof) h e = cc
  fgets_of-true (c ∷ taken, rest, eof) h e = omega (arith, h)

  pub fgets-Later : Later f (fgets f).0
  unfolding fgets
  fgets-Later =
      fgets_of-Later (take_line 1023 f.rest) (length-take_line 1023 f.rest)
        (take_line_nil 1022 f.rest)

  pub fgets-true : (fgets f).1 ≡ true → length (fgets f).0.rest < length f.rest
  unfolding fgets
  fgets-true = fgets_of-true (take_line 1023 f.rest) (length-take_line 1023 f.rest)

-- The lines up to an empty one are read, and the reading goes on behind them.
read_lines_ends :
    (fuel : ℕ) (f : File)
    → length f.rest < fuel
    → (f' : File) × (lines : List Str) × (read_lines fuel f ≡ some (f', lines)) × Later f f'
unfolding read_lines
read_lines_ends zero f h = absurd (omega (arith, h))
read_lines_ends (suc fuel) f h =
    at_line (λ g k. read_lines_ends fuel g k) (fgets f) (fgets-Later f) (fgets-true f)
  where
    Result : File → Option (File × List Str) → Type 0
    Result g o = (f' : File) × (lines : List Str) × (o ≡ some (f', lines)) × Later g f'

    at_line :
        ((g : File) → length g.rest < fuel → Result g (read_lines fuel g))
        → (r : File × Bool) → Later f r.0
        → (r.1 ≡ true → length r.0.rest < length f.rest)
        → Result f (more_lines (λ g. read_lines fuel g) r)
    at_line rec (g, false) l s = (g, [], refl, l)
    at_line rec (g, true) l s = elim (Bool-cases (is_nil (strip_newline g.line))) [
      | inl e ↦ rw e (strip_line g, [], refl, l)
      | inr e ↦
          let (f', lines, q, l') = rec (strip_line g) (omega (arith, h, s refl)) in
          rw (e, q) (f', strip_newline g.line ∷ lines, refl, Later-trans f (strip_line g) f' l l')
    ]

pub read_all_ends :
    (f : File) → (f' : File) × (lines : List Str) × (read_all f ≡ some (f', lines)) × Later f f'
read_all_ends f = read_lines_ends (suc (length f.rest)) f (omega arith)

-- ===== src/LocalDb/Sections.antt =====
-- The sections of the files of the local database, as `local_db_read` of lib/libalpm/be_local.c reads
-- what `_alpm_local_db_write` writes.
use dulge.Base.{
  ℕ, zero, suc, ◌≤◌, ◌<◌, ◌≡◌, refl, ap, ◌∙◌, true, false, Option, some, List, [], ◌∷◌, ◌++◌, Str,
  length, length-append, not-true, ◌==◌, arith, ◌>>=◌,
}
use mathlib.Core.List.{append_assoc}
use dulge.LocalDb.Lines.{
  File, is_nil, take_line, fgets_of, fgets, strip_newline, strip_line, read_next, more_lines,
  read_lines, read_all,
}
use dulge.LocalDb.Write.{text_lines}
use dulge.Version.Parse.{Without}

-- A line that the buffer holds: no newline, and room for one and for the null.
pub record IsLine (s : Str) : Type 0 where
  pub plain : Without b'\n' s
  pub fits : length s ≤ 1022

-- The lines of a list, which an empty line would end.
abbrev pub AreLines : List Str → Type 0
AreLines [] = Unit
AreLines (s ∷ ss) = IsLine s × (is_nil s ≡ false) × AreLines ss

-- The file in which `rest` is left, behind `line`.
abbrev pub behind : Str → Str → File
behind rest line = record { rest = rest; eof = false; line = line }

take_line-append :
    (n : ℕ) (s t : Str)
    → Without b'\n' s
    → length s < n
    → take_line n (s ++ b'\n' ∷ t) ≡ (s ++ b'\n' ∷ [], t, false)
unfolding take_line
take_line-append zero s t w h = absurd (omega (arith, h))
take_line-append (suc n) [] t w h = refl
take_line-append (suc n) (c ∷ s) t w h =
    rw (not-true (c == b'\n') w.0, take_line-append n s t w.1 (omega (arith, h)))

pub fgets-behind :
    (s t line : Str)
    → IsLine s
    → fgets (behind (s ++ b'\n' ∷ t) line) ≡ (behind t (s ++ b'\n' ∷ []), true)
unfolding fgets
fgets-behind s t line h =
    ap (fgets_of (behind (s ++ b'\n' ∷ t) line))
      (take_line-append 1023 s t h.plain (omega (arith, h.fits)))
    ∙ taken s
  where
    taken :
        (s : Str)
        → fgets_of (behind (s ++ b'\n' ∷ t) line) (s ++ b'\n' ∷ [], t, false)
          ≡ (behind t (s ++ b'\n' ∷ []), true)
    taken [] = refl
    taken (c ∷ s) = refl

strip_newline-append : (s : Str) → Without b'\n' s → strip_newline (s ++ b'\n' ∷ []) ≡ s
unfolding strip_newline
strip_newline-append [] w = refl
strip_newline-append (c ∷ s) w = rw (not-true (c == b'\n') w.0, strip_newline-append s w.1)

pub read_next-behind :
    (s t line : Str) → IsLine s → read_next (behind (s ++ b'\n' ∷ t) line) ≡ behind t s
unfolding read_next
read_next-behind s t line h =
    ap (λ r. strip_line r.0) (fgets-behind s t line h)
    ∙ ap (behind t) (strip_newline-append s h.plain)

more_lines-text :
    (rest : File → Option (File × List Str)) (s t line : Str)
    → IsLine s
    → is_nil s ≡ false
    → more_lines rest (fgets (behind (s ++ b'\n' ∷ t) line))
      ≡ (rest (behind t s) >>= (λ (f, lines). some (f, s ∷ lines)))
more_lines-text rest s t line h n =
    ap (more_lines rest) (fgets-behind s t line h) ∙ rw (strip_newline-append s h.plain, n) refl

read_lines-text :
    (fuel : ℕ) (lines : List Str) (t line : Str)
    → AreLines lines
    → length lines < fuel
    → read_lines fuel (behind (text_lines lines ++ t) line) ≡ some (behind t [], lines)
unfolding read_lines
read_lines-text zero lines t line h b = absurd (omega (arith, b))
read_lines-text (suc fuel) [] t line h b =
    ap (more_lines (λ f. read_lines fuel f))
      (fgets-behind [] t line (record { plain = tt; fits = omega arith }))
read_lines-text (suc fuel) (s ∷ lines) t line (h, n, hs) b =
    ap (λ u. more_lines (λ f. read_lines fuel f) (fgets (behind u line)))
      (append_assoc s (b'\n' ∷ text_lines lines) t)
    ∙ (more_lines-text (λ f. read_lines fuel f) s (text_lines lines ++ t) line h n
        ∙ ap (λ o. o >>= (λ (f, lines). some (f, s ∷ lines)))
            (read_lines-text fuel lines t s hs (omega (arith, b))))

length-text_lines : (lines : List Str) → length lines ≤ length (text_lines lines)
length-text_lines [] = omega arith
length-text_lines (s ∷ lines) =
    rw (length-append s (b'\n' ∷ text_lines lines)) (omega (arith, length-text_lines lines))

pub read_all-text :
    (lines : List Str) (t line : Str)
    → AreLines lines
    → read_all (behind (text_lines lines ++ t) line) ≡ some (behind t [], lines)
read_all-text lines t line h =
    read_lines-text (suc (length (text_lines lines ++ t))) lines t line h
      (rw (length-append (text_lines lines) t) (omega (arith, length-text_lines lines)))

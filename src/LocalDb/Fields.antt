-- ===== src/LocalDb/Fields.antt =====
-- The fields of one line, as `local_db_read` of lib/libalpm/be_local.c reads what
-- `_alpm_local_db_write` writes.
use dulge.Base.{
  zero, suc, ◌≡◌, refl, ap, ◌∙◌, Bool, true, false, not, ◌&&◌, Option, none, some, [], ◌∷◌, Str,
  codes, length, ◌==◌, ltb, arith, subst,
}
use dulge.LocalDb.Desc.{Key, k_reason, keys, key_in, is_single, store_line}
use dulge.LocalDb.Info.{Info}
use dulge.LocalDb.Lines.{is_nil}
use dulge.LocalDb.Rounds.{Reads, Reads-nil, Reads-line, IsHeader}
use dulge.LocalDb.Sections.{IsLine}
use dulge.LocalDb.Write.{write_text, write_int, write_reason}
use dulge.Numbers.{ℤ, pos, negsuc, print_int}
use dulge.Numbers.Decimal.{InRange, length-print_int, print_int-Without}
use dulge.Package.{Reason, explicit_reason, depend_reason, unknown_reason}
use dulge.Version.Parse.{Without}

-- A string without newlines that a line of the file holds, as a test.
abbrev no_newline : Str → Bool
no_newline [] = true
no_newline (c ∷ s) = not (c == b'\n') && no_newline s

no_newline-Without : (s : Str) → no_newline s ≡ true → Without b'\n' s
no_newline-Without [] h = tt
no_newline-Without (c ∷ s) h = (ground (arith, h), no_newline-Without s (ground (arith, h)))

pub no_newline-IsLine : (s : Str) → no_newline s ≡ true → ltb (length s) 1023 ≡ true → IsLine s
no_newline-IsLine s h b = record { plain = no_newline-Without s h; fits = ground (arith, b) }

pub key_in-IsHeader :
    (key : Key) (s : Str)
    → no_newline s ≡ true
    → ltb (length s) 1023 ≡ true
    → is_nil s ≡ false
    → key_in keys s ≡ key
    → IsHeader key s
key_in-IsHeader key s h b n k = record { line = no_newline-IsLine s h b; full = n; known = k }

-- A field that may be null.
abbrev pub IsOptional : Option Str → Type 0
IsOptional none = Unit
IsOptional (some s) = IsLine s

pub Reads-text :
    {key : Key} {s : Str} {i : Info} (set_field : Info → Option Str → Info) (v : Option Str)
    → IsHeader key s
    → is_single key ≡ true
    → i ≡ set_field i none
    → ((line : Str) → store_line key line i ≡ set_field i (some line))
    → IsOptional v
    → Reads (write_text s v) i (set_field i v)
unfolding write_text
Reads-text {i = i} set_field none h e p q l = subst (Reads [] i) p (Reads-nil i)
Reads-text {s = s} {i} set_field (some v) h e p q l = subst (Reads _ i) (q v) (Reads-line v i h e l)

print_int-IsLine : (z : ℤ) → InRange z → IsLine (print_int z)
print_int-IsLine z r = record {
  plain = print_int-Without z;
  fits = omega (arith, length-print_int z r);
}

-- A number; 0 is not written.
pub Reads-int :
    {key : Key} {s : Str} {i : Info} (set_field : Info → ℤ → Info) (parse : Str → ℤ) (z : ℤ)
    → IsHeader key s
    → is_single key ≡ true
    → InRange z
    → i ≡ set_field i (pos 0)
    → ((line : Str) → store_line key line i ≡ set_field i (parse line))
    → parse (print_int z) ≡ z
    → Reads (write_int s z) i (set_field i z)
unfolding write_int
Reads-int {i = i} set_field parse (pos zero) h e r p q o = subst (Reads [] i) p (Reads-nil i)
Reads-int {i = i} set_field parse (pos (suc n)) h e r p q o =
    subst (Reads _ i) (q _ ∙ ap (set_field i) o)
      (Reads-line _ i h e (print_int-IsLine (pos (suc n)) r))
Reads-int {i = i} set_field parse (negsuc n) h e r p q o =
    subst (Reads _ i) (q _ ∙ ap (set_field i) o)
      (Reads-line _ i h e (print_int-IsLine (negsuc n) r))

IsHeader-reason : IsHeader k_reason (codes "%REASON%")
unfolding key_in
IsHeader-reason = key_in-IsHeader k_reason (codes "%REASON%") refl refl refl refl

pub Reads-reason :
    (r : Reason) (i : Info)
    → i.reason ≡ explicit_reason
    → Reads (write_reason r) i (record i { reason = r })
unfolding write_reason store_line
Reads-reason explicit_reason i h = subst (λ r. Reads [] i (record i { reason = r })) h (Reads-nil i)
Reads-reason depend_reason i h =
    Reads-line (codes "1") i IsHeader-reason refl (no_newline-IsLine (codes "1") refl refl)
Reads-reason unknown_reason i h =
    Reads-line (codes "2") i IsHeader-reason refl (no_newline-IsLine (codes "2") refl refl)

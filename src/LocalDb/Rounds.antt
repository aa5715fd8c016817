-- ===== src/LocalDb/Rounds.antt =====
-- The rounds in which `local_db_read` of lib/libalpm/be_local.c reads the sections of a desc file.
use dulge.Base.{
  ℕ, zero, suc, ◌≡◌, refl, sym, ap, ◌∙◌, ◌≢◌, Bool, true, false, List, [], ◌∷◌, ◌++◌, Str, arith,
  subst, if_true, if_false, if◌then◌else◌,
}
use mathlib.Core.List.{append_assoc}
use dulge.LocalDb.Desc.{
  Key, keys, key_in, is_single, store_line, store_lines, go_on, failed, with_lines, read_key,
  round_at, desc_round, loaded, load_unfinished, after_round, desc_loop,
}
use dulge.LocalDb.Info.{Info}
use dulge.LocalDb.Lines.{File, is_nil}
use dulge.LocalDb.Sections.{IsLine, AreLines, behind, read_next-behind, read_all-text}
use dulge.LocalDb.Write.{text_lines, write_line, write_list}

-- From the first file and package the rounds lead to the others.
pub data Steps : File → Info → File → Info → Type 0 where
  stop : {f : File} {i : Info} → Steps f i f i
  step :
      {f f' f'' : File} {i i' i'' : Info}
      → f.eof ≡ false
      → desc_round f i ≡ go_on f' i'
      → Steps f' i' f'' i''
      → Steps f i f'' i''

pub Steps-trans :
    {f f' f'' : File} {i i' i'' : Info} → Steps f i f' i' → Steps f' i' f'' i'' → Steps f i f'' i''
Steps-trans stop s = s
Steps-trans (step e q r) s = step e q (Steps-trans r s)

-- A loop that ends has come through all the rounds.
pub Steps-loop :
    (fuel : ℕ) {f f' : File} {i i' : Info}
    → Steps f i f' i'
    → f'.eof ≡ true
    → desc_loop fuel f i ≢ load_unfinished
    → desc_loop fuel f i ≡ loaded i'
unfolding desc_loop
Steps-loop zero s e n = absurd (n refl)
Steps-loop (suc fuel) {f} stop e n = if_true f.eof _ _ e
Steps-loop (suc fuel) {f} {i = i} (step e' q s) e n =
    let here : desc_loop (suc fuel) f i ≡ desc_loop fuel _ _ =
      if_false f.eof _ _ e' ∙ ap (after_round (λ g j. desc_loop fuel g j)) q in
    here ∙ Steps-loop fuel s e (subst (λ r. r ≢ load_unfinished) here n)

-- The rounds take this text and lead from one state of the package to the other.
pub record Reads (s : Str) (i i' : Info) : Type 0 where
  pub steps : (t : Str) → Steps (behind (s ++ t) []) i (behind t []) i'

pub Reads-nil : (i : Info) → Reads [] i i
Reads-nil i = record { steps = λ t. stop }

pub Reads-append :
    {s r : Str} {i i' i'' : Info} → Reads s i i' → Reads r i' i'' → Reads (s ++ r) i i''
Reads-append {s} {r} {i} {i'' = i''} a b = record {
  steps = λ t.
      subst (λ u. Steps (behind u []) i (behind t []) i'') (sym (append_assoc s r t))
        (Steps-trans (a.steps (r ++ t)) (b.steps t));
}

-- The line of a key.
pub record IsHeader (key : Key) (s : Str) : Type 0 where
  pub line : IsLine s
  pub full : is_nil s ≡ false
  pub known : key_in keys s ≡ key

empty-IsLine : IsLine []
empty-IsLine = record { plain = tt; fits = omega arith }

blank_round :
    (t line : Str) (i : Info) → desc_round (behind (b'\n' ∷ t) line) i ≡ go_on (behind t []) i
unfolding desc_round
blank_round t line i = ap (λ f. round_at f i) (read_next-behind [] t line empty-IsLine)

key_round :
    {key : Key} {s : Str} (u line : Str) (i : Info)
    → IsHeader key s
    → desc_round (behind (s ++ b'\n' ∷ u) line) i ≡ read_key key (behind u s) i
unfolding desc_round
key_round {key} {s} u line i h =
    ap (λ f. round_at f i) (read_next-behind s u line h.line)
    ∙ (if_false (is_nil s) _ _ h.full ∙ ap (λ k. read_key k (behind u s) i) h.known)

-- The section of a single line.
pub Reads-line :
    {key : Key} {s : Str} (line : Str) (i : Info)
    → IsHeader key s
    → is_single key ≡ true
    → IsLine line
    → Reads (write_line s line) i (store_line key line i)
unfolding write_line
Reads-line {key} {s} line i h e l = record {
  steps = λ t.
      let text : write_line s line ++ t ≡ s ++ b'\n' ∷ (line ++ b'\n' ∷ b'\n' ∷ t) =
        append_assoc s _ t ∙ ap (λ u. s ++ b'\n' ∷ u) (append_assoc line _ t) in
      let value = read_next-behind line (b'\n' ∷ t) s l in
      subst (λ u. Steps (behind u []) i (behind t []) (store_line key line i)) (sym text)
        (step refl
          (key_round _ [] i h
            ∙ (if_true (is_single key) _ _ e ∙ ap (λ f. go_on f (store_line key f.line i)) value))
          (step refl (blank_round t line _) stop));
}

-- The section of a list.
pub Reads-list :
    {key : Key} {s : Str} (lines : List Str) {i i' : Info}
    → IsHeader key s
    → is_single key ≡ false
    → AreLines lines
    → store_lines key lines i ≡ (i', true)
    → Reads (s ++ b'\n' ∷ text_lines lines) i i'
Reads-list {key} {s} lines {i} {i'} h e l q = record {
  steps = λ t.
      subst (λ u. Steps (behind u []) i (behind t []) i') (sym (append_assoc s _ t))
        (step refl
          (key_round _ [] i h
            ∙ (if_false (is_single key) _ _ e
                ∙ (ap (with_lines key i) (read_all-text lines t s l)
                    ∙ stored t (store_lines key lines i) q)))
          stop);
}
  where
    stored :
        (t : Str) (r : Info × Bool)
        → r ≡ (i', true)
        → (let (j, done) = r in if done then go_on (behind t []) j else failed j)
          ≡ go_on (behind t []) i'
    stored t (j, true) q = ap (λ r. go_on (behind t []) r.0) q
    stored t (j, false) q = cc

-- The section is left out where the list is empty.
pub Reads-write_list :
    {key : Key} {s : Str} (lines : List Str) {i i' : Info}
    → IsHeader key s
    → is_single key ≡ false
    → AreLines lines
    → store_lines key [] i ≡ (i, true)
    → store_lines key lines i ≡ (i', true)
    → Reads (write_list s lines) i i'
unfolding write_list
Reads-write_list [] {i} h e l p q = subst (Reads [] i) (ap (λ r. r.0) (sym p ∙ q)) (Reads-nil i)
Reads-write_list (line ∷ lines) h e l p q = Reads-list (line ∷ lines) h e l q

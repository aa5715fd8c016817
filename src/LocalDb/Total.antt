-- ===== src/LocalDb/Total.antt =====
-- The loops of `local_db_read` in lib/libalpm/be_local.c end on every text.
use dulge.Base.{
  ℕ, zero, suc, ◌≤◌, ◌<◌, ◌≡◌, refl, sym, if_true, if_false, ◌≢◌, ◌⊎◌, inl, inr, true, false, some,
  List, ◌++◌, map, Str, codes, str_eq, length, arith, Bool-cases, subst,
}
use dulge.LocalDb.Desc.{
  Key, keys, key_in, is_single, store_lines, Round, go_on, failed, unfinished, with_lines, read_key,
  desc_round, Loaded, loaded, load_failed, load_unfinished, desc_loop, read_desc, after_round,
}
use dulge.LocalDb.Ends.{Later, Later-trans, Later-le, fgets-Later, fgets-true, read_all_ends}
use dulge.LocalDb.Files.{files_line, files_loop, read_files, filelist_sort, split_backup}
use dulge.LocalDb.Info.{Info}
use dulge.LocalDb.Lines.{File, is_nil, fgets, strip_line, read_next, open_file}

-- A round comes to an end, and takes something where the loop goes on.
abbrev pub Goes : File → Round → Type 0
Goes f (go_on f' info) = Later f f'
Goes f (failed info) = Unit
Goes f unfinished = ⊥

Goes-with_lines :
    (f f' : File) (key : Key) (info : Info) (lines : List Str)
    → Later f f'
    → Goes f (with_lines key info (some (f', lines)))
Goes-with_lines f f' key info lines l = elim (Bool-cases (store_lines key lines info).1) [
  | inl e ↦ rw e l
  | inr e ↦ rw e tt
]

Goes-read_key : (f f' : File) (key : Key) (info : Info) → Later f f' → Goes f (read_key key f' info)
unfolding read_next
Goes-read_key f f' key info l = elim (Bool-cases (is_single key)) [
  | inl e ↦ rw e (Later-trans f f' (fgets f').0 l (fgets-Later f'))
  | inr e ↦
      let (f'', lines, q, l') = read_all_ends f' in
      rw (e, q) (Goes-with_lines f f'' key info lines (Later-trans f f' f'' l l'))
]

desc_round-Goes : (f : File) (info : Info) → Goes f (desc_round f info)
unfolding desc_round
desc_round-Goes f info =
    let f' = strip_line (fgets f).0 in
    elim (Bool-cases (is_nil f'.line)) [
      | inl e ↦ rw e (fgets-Later f)
      | inr e ↦ rw e (Goes-read_key f f' (key_in keys f'.line) info (fgets-Later f))
    ]

desc_loop_ends :
    (fuel : ℕ) (f : File) (info : Info)
    → ((f.eof ≡ true) × (0 < fuel)) ⊎ (suc (length f.rest) < fuel)
    → desc_loop fuel f info ≢ load_unfinished
unfolding desc_loop
desc_loop_ends zero f info (inl (e, h)) = absurd (omega (arith, h))
desc_loop_ends zero f info (inr h) = absurd (omega (arith, h))
desc_loop_ends (suc fuel) f info h = elim (Bool-cases f.eof) [
  | inl e ↦ subst (λ r. r ≢ load_unfinished) (sym (if_true f.eof _ _ e)) (λ q. cc)
  | inr e ↦
      subst (λ r. r ≢ load_unfinished) (sym (if_false f.eof _ _ e))
        (at_round (λ g i k. desc_loop_ends fuel g i k) (left e h) (desc_round f info)
          (desc_round-Goes f info))
]
  where
    left :
        f.eof ≡ false
        → ((f.eof ≡ true) × (0 < suc fuel)) ⊎ (suc (length f.rest) < suc fuel)
        → suc (length f.rest) < suc fuel
    left e (inl (e', k)) = cc
    left e (inr k) = k

    at_round :
        ((g : File) (i : Info)
          → ((g.eof ≡ true) × (0 < fuel)) ⊎ (suc (length g.rest) < fuel)
          → desc_loop fuel g i ≢ load_unfinished)
        → suc (length f.rest) < suc fuel
        → (r : Round) → Goes f r
        → after_round (λ g i. desc_loop fuel g i) r ≢ load_unfinished
    at_round rec b (go_on f' info') (inl (e, n)) = rec f' info' (inl (e, omega (arith, b)))
    at_round rec b (go_on f' info') (inr k) = rec f' info' (inr (omega (arith, b, k)))
    at_round rec b (failed info') g = λ q. cc
    at_round rec b unfinished g = absurd g

pub read_desc_ends : (text : Str) (info : Info) → read_desc text info ≢ load_unfinished
unfolding read_desc
read_desc_ends text info =
    desc_loop_ends (suc (suc (length text))) (open_file text) info (inr (omega arith))

-- Every text of a desc file is read to its end or to an error.
pub read_desc_total :
    (text : Str) (info : Info)
    → ((info' : Info) × (read_desc text info ≡ loaded info'))
      ⊎ ((info' : Info) × (read_desc text info ≡ load_failed info'))
read_desc_total text info = cases (read_desc text info) (read_desc_ends text info)
  where
    cases :
        (r : Loaded)
        → r ≢ load_unfinished
        → ((info' : Info) × (r ≡ loaded info')) ⊎ ((info' : Info) × (r ≡ load_failed info'))
    cases (loaded info') h = inl (info', refl)
    cases (load_failed info') h = inr (info', refl)
    cases load_unfinished h = absurd (h refl)

-- A line of the file `files`, and the lists behind it.
files_line_ends :
    (qsort : List Str → List Str) (f : File) (info : Info)
    → (f' : File) × (info' : Info) × (files_line qsort f info ≡ some (f', info'))
      × (length f'.rest ≤ length f.rest)
unfolding files_line
files_line_ends qsort f info =
    let (f', lines, q, l) = read_all_ends f in
    let le = Later-le f f' l in
    elim (Bool-cases (str_eq f.line (codes "%FILES%"))) [
      | inl e ↦ rw (e, q) (f', record info { files = filelist_sort qsort lines }, refl, le)
      | inr e ↦ elim (Bool-cases (str_eq f.line (codes "%BACKUP%"))) [
        | inl e' ↦
            rw (e, e', q)
              (f', record info { backup = info.backup ++ map split_backup lines }, refl, le)
        | inr e' ↦ rw (e, e') (f, info, refl, omega arith)
      ]
    ]

files_loop_ends :
    (qsort : List Str → List Str) (fuel : ℕ) (f : File) (info : Info)
    → length f.rest < fuel
    → (info' : Info) × (files_loop qsort fuel f info ≡ some info')
unfolding files_loop
files_loop_ends qsort zero f info h = absurd (omega (arith, h))
files_loop_ends qsort (suc fuel) f info h =
    let (f', info', q, le) = files_line_ends qsort (strip_line (fgets f).0) info in
    elim (Bool-cases (fgets f).1) [
      | inl e ↦
          rw (e, q) (files_loop_ends qsort fuel f' info' (omega (arith, h, le, fgets-true f e)))
      | inr e ↦ rw e (info, refl)
    ]

-- Every text of the file `files` is read to its end.
pub read_files_total :
    (qsort : List Str → List Str) (text : Str) (info : Info)
    → (info' : Info) × (read_files qsort text info ≡ some info')
unfolding read_files
read_files_total qsort text info =
    files_loop_ends qsort (suc (length text)) (open_file text) info (omega arith)

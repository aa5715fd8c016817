-- ===== src/LocalDb/Keep.antt =====
-- `local_db_read` of lib/libalpm/be_local.c does not change what it has read before.
use dulge.Base.{
  ℕ, zero, suc, ◌≡◌, refl, sym, ◌∙◌, inl, inr, Bool, true, false, Option, none, some, List, Str,
  codes, str_eq, length, Bool-cases, Option-cases, subst, if_true, if_false,
}
use dulge.LocalDb.Desc.{
  Key, k_base, keys, key_in, is_single, store_line, store_lines, Round, go_on, failed, unfinished,
  with_lines, read_key, desc_round, Loaded, loaded, load_failed, load_unfinished, after_round,
  desc_loop, read_desc,
}
use dulge.LocalDb.Files.{files_line, next_line, files_loop, read_files}
use dulge.LocalDb.Info.{Level, Info}
use dulge.LocalDb.Lines.{File, is_nil, fgets, strip_line, read_next, read_all, open_file}

store_line-infolevel :
    (key : Key) (line : Str) (info : Info) → (store_line key line info).infolevel ≡ info.infolevel
unfolding store_line
store_line-infolevel key line info =
    elim key as (λ k. (store_line k line info).infolevel ≡ info.infolevel) [
      | k_base ↦ refl
      | _ ↦ refl
    ]

store_lines-infolevel :
    (key : Key) (lines : List Str) (info : Info)
    → (store_lines key lines info).0.infolevel ≡ info.infolevel
unfolding store_lines
store_lines-infolevel key lines info =
    elim key as (λ k. (store_lines k lines info).0.infolevel ≡ info.infolevel) [
      | k_base ↦ refl
      | _ ↦ refl
    ]

-- The levels of what a round, a loop or a text leaves.
module _ (level : Level) where
  abbrev KeepsRound : Round → Type 0
  KeepsRound (go_on file info) = info.infolevel ≡ level
  KeepsRound (failed info) = info.infolevel ≡ level
  KeepsRound unfinished = Unit

  abbrev pub Keeps : Loaded → Type 0
  Keeps (loaded info) = info.infolevel ≡ level
  Keeps (load_failed info) = info.infolevel ≡ level
  Keeps load_unfinished = Unit

  abbrev pub KeepsOption : Option Info → Type 0
  KeepsOption none = Unit
  KeepsOption (some info) = info.infolevel ≡ level

  with_lines-Keeps :
      (key : Key) (info : Info) (o : Option (File × List Str))
      → info.infolevel ≡ level
      → KeepsRound (with_lines key info o)
  with_lines-Keeps key info none h = tt
  with_lines-Keeps key info (some (file, lines)) h =
      let kept = store_lines-infolevel key lines info ∙ h in
      elim (Bool-cases (store_lines key lines info).1) [ inl e ↦ rw e kept | inr e ↦ rw e kept ]

  read_key-Keeps :
      (key : Key) (file : File) (info : Info)
      → info.infolevel ≡ level
      → KeepsRound (read_key key file info)
  read_key-Keeps key file info h = elim (Bool-cases (is_single key)) [
    | inl e ↦ rw e (store_line-infolevel key (read_next file).line info ∙ h)
    | inr e ↦ rw e (with_lines-Keeps key info (read_all file) h)
  ]

  desc_round-Keeps :
      (file : File) (info : Info) → info.infolevel ≡ level → KeepsRound (desc_round file info)
  unfolding desc_round
  desc_round-Keeps file info h =
      let f = strip_line (fgets file).0 in
      elim (Bool-cases (is_nil f.line)) [
        | inl e ↦ rw e h
        | inr e ↦ rw e (read_key-Keeps (key_in keys f.line) f info h)
      ]

  after_round-Keeps :
      (rest : File → Info → Loaded)
      → ((f : File) (i : Info) → i.infolevel ≡ level → Keeps (rest f i))
      → (r : Round) → KeepsRound r
      → Keeps (after_round rest r)
  after_round-Keeps rest h (go_on file info) k = h file info k
  after_round-Keeps rest h (failed info) k = k
  after_round-Keeps rest h unfinished k = k

  desc_loop-Keeps :
      (fuel : ℕ) (file : File) (info : Info)
      → info.infolevel ≡ level
      → Keeps (desc_loop fuel file info)
  unfolding desc_loop
  desc_loop-Keeps zero file info h = tt
  desc_loop-Keeps (suc fuel) file info h = elim (Bool-cases file.eof) [
    | inl e ↦ subst Keeps (sym (if_true file.eof _ _ e)) h
    | inr e ↦ subst Keeps (sym (if_false file.eof _ _ e)) (
        after_round-Keeps (λ f i. desc_loop fuel f i) (λ f i k. desc_loop-Keeps fuel f i k)
          (desc_round file info) (desc_round-Keeps file info h))
  ]

  pub read_desc-Keeps :
      (text : Str) (info : Info) → info.infolevel ≡ level → Keeps (read_desc text info)
  unfolding read_desc
  read_desc-Keeps text info h = desc_loop-Keeps (suc (suc (length text))) (open_file text) info h

  abbrev KeepsLine : Option (File × Info) → Type 0
  KeepsLine none = Unit
  KeepsLine (some (file, info)) = info.infolevel ≡ level

  module _ (qsort : List Str → List Str) where
    files_line-Keeps :
        (file : File) (info : Info)
        → info.infolevel ≡ level
        → KeepsLine (files_line qsort file info)
    unfolding files_line
    files_line-Keeps file info h = elim (Option-cases (read_all file)) [
      | inl e ↦ elim (Bool-cases (str_eq file.line (codes "%FILES%"))) [
        | inl e' ↦ rw (e', e) tt
        | inr e' ↦ elim (Bool-cases (str_eq file.line (codes "%BACKUP%"))) [
          | inl e'' ↦ rw (e', e'', e) tt
          | inr e'' ↦ rw (e', e'') h
        ]
      ]
      | inr ((file', lines), e) ↦ elim (Bool-cases (str_eq file.line (codes "%FILES%"))) [
        | inl e' ↦ rw (e', e) h
        | inr e' ↦ elim (Bool-cases (str_eq file.line (codes "%BACKUP%"))) [
          | inl e'' ↦ rw (e', e'', e) h
          | inr e'' ↦ rw (e', e'') h
        ]
      ]
    ]

    next_line-Keeps :
        (rest : File → Info → Option Info)
        → ((f : File) (i : Info) → i.infolevel ≡ level → KeepsOption (rest f i))
        → (info : Info) → info.infolevel ≡ level
        → (more : Bool) (o : Option (File × Info)) → KeepsLine o
        → KeepsOption (next_line rest info more o)
    next_line-Keeps rest h info k false o l = k
    next_line-Keeps rest h info k true none l = tt
    next_line-Keeps rest h info k true (some (file, info')) l = h file info' l

    files_loop-Keeps :
        (fuel : ℕ) (file : File) (info : Info)
        → info.infolevel ≡ level
        → KeepsOption (files_loop qsort fuel file info)
    unfolding files_loop
    files_loop-Keeps zero file info h = tt
    files_loop-Keeps (suc fuel) file info h =
        next_line-Keeps (λ f i. files_loop qsort fuel f i) (λ f i k. files_loop-Keeps fuel f i k)
          info h (fgets file).1 _ (files_line-Keeps (strip_line (fgets file).0) info h)

    pub read_files-Keeps :
        (text : Str) (info : Info)
        → info.infolevel ≡ level
        → KeepsOption (read_files qsort text info)
    unfolding read_files
    read_files-Keeps text info h = files_loop-Keeps (suc (length text)) (open_file text) info h

-- ===== src/LocalDb/Again.antt =====
-- `local_db_read` of lib/libalpm/be_local.c, called once more.
use dulge.Base.{
  ◌≡◌, sym, ap, ◌∙◌, inl, inr, Bool, true, false, not, ◌&&◌, ◌||◌, none, some, List, Str,
  Bool-cases, subst, if_true, if_false,
}
use dulge.LocalDb.Info.{Level, Info}
use dulge.LocalDb.Load.{Disk, covers, Result, and_then, local_db_read}
use dulge.LocalDb.Levels.{
  with_error, with_desc, with_files, with_scriptlet, Left, settled, covers_desc, covers_files,
  covers_scriptlet, desc_part-Left, files_part-Left, scriptlet_part-Left, last, next, read_nothing,
  read_error,
}

-- What a further call gives, whatever has become of the files.
abbrev Again : Level → Info × Bool → Type 0
Again inforeq (i, ok) =
    (qsort : List Str → List Str) (dbpath : Str) (disk : Disk)
    → local_db_read qsort dbpath disk inforeq i ≡ some (i, ok)

abbrev AgainOption : Level → Result → Type 0
AgainOption inforeq none = Unit
AgainOption inforeq (some r) = Again inforeq r

module _ (qsort : List Str → List Str) (dbpath : Str) (disk : Disk) (inforeq : Level) where
  gave_up :
      (info i : Info)
      → i.infolevel ≡ with_error info.infolevel
      → covers (with_error info.infolevel) inforeq ≡ false
      → Again inforeq (i, false)
  gave_up info i l c =
      λ q p k. read_error q p k inforeq i (ap (λ v. covers v inforeq) l ∙ c) (ap (λ v. v.error) l)

  after_scriptlet :
      (info : Info)
      → info.infolevel.error ≡ false
      → (inforeq.desc && not info.infolevel.desc) ≡ false
      → (inforeq.files && not info.infolevel.files) ≡ false
      → (r : Result)
      → Left info.infolevel
          (with_scriptlet (info.infolevel.scriptlet || inforeq.scriptlet) info.infolevel)
          (inforeq.scriptlet && not info.infolevel.scriptlet)
          r
      → AgainOption inforeq r
  after_scriptlet info e d f none l = tt
  after_scriptlet info e d f (some (i, true)) l = λ q p k.
      read_nothing q p k inforeq i (ap (λ v. v.error) l ∙ e)
        (ap (λ v. inforeq.desc && not v.desc) l ∙ d) (ap (λ v. inforeq.files && not v.files) l ∙ f)
        (ap (λ v. inforeq.scriptlet && not v.scriptlet) l
          ∙ settled info.infolevel.scriptlet inforeq.scriptlet)
  after_scriptlet info e d f (some (i, false)) (l, w) =
      gave_up info i l (covers_scriptlet info.infolevel inforeq w)

  after_files :
      (info : Info)
      → info.infolevel.error ≡ false
      → (inforeq.desc && not info.infolevel.desc) ≡ false
      → (r : Result)
      → Left info.infolevel
          (with_files (info.infolevel.files || inforeq.files) info.infolevel)
          (inforeq.files && not info.infolevel.files)
          r
      → AgainOption inforeq (and_then r (last qsort dbpath disk inforeq))
  after_files info e d none l = tt
  after_files info e d (some (i, true)) l =
      after_scriptlet i (ap (λ v. v.error) l ∙ e) (ap (λ v. inforeq.desc && not v.desc) l ∙ d)
        (ap (λ v. inforeq.files && not v.files) l ∙ settled info.infolevel.files inforeq.files) _
        (scriptlet_part-Left qsort dbpath disk inforeq i)
  after_files info e d (some (i, false)) (l, w) =
      gave_up info i l (covers_files info.infolevel inforeq w)

  after_desc :
      (info : Info)
      → info.infolevel.error ≡ false
      → (r : Result)
      → Left info.infolevel
          (with_desc (info.infolevel.desc || inforeq.desc) info.infolevel)
          (inforeq.desc && not info.infolevel.desc)
          r
      → AgainOption inforeq (and_then r (next qsort dbpath disk inforeq))
  after_desc info e none l = tt
  after_desc info e (some (i, true)) l =
      after_files i (ap (λ v. v.error) l ∙ e)
        (ap (λ v. inforeq.desc && not v.desc) l ∙ settled info.infolevel.desc inforeq.desc) _
        (files_part-Left qsort dbpath disk inforeq i)
  after_desc info e (some (i, false)) (l, w) =
      gave_up info i l (covers_desc info.infolevel inforeq w)

  again : (info : Info) → AgainOption inforeq (local_db_read qsort dbpath disk inforeq info)
  unfolding local_db_read
  again info = elim (Bool-cases (covers info.infolevel inforeq)) [
    | inl c ↦
        subst (AgainOption inforeq) (sym (if_true (covers info.infolevel inforeq) _ _ c))
          (λ q p k. covered q p k info c)
    | inr c ↦
        subst (AgainOption inforeq) (sym (if_false (covers info.infolevel inforeq) _ _ c))
          (elim (Bool-cases info.infolevel.error) [
            | inl e ↦
                subst (AgainOption inforeq) (sym (if_true info.infolevel.error _ _ e))
                  (λ q p k. read_error q p k inforeq info c e)
            | inr e ↦
                subst (AgainOption inforeq) (sym (if_false info.infolevel.error _ _ e))
                  (after_desc info e _ (desc_part-Left qsort dbpath disk inforeq info))
          ])
  ]
    where
      covered :
          (q : List Str → List Str) (p : Str) (k : Disk) (info : Info)
          → covers info.infolevel inforeq ≡ true
          → local_db_read q p k inforeq info ≡ some (info, true)
      covered q p k info c = if_true (covers info.infolevel inforeq) _ _ c

  -- The result of `local_db_read` stands: called once more with the same request, it gives the same
  -- package and the same result, an error included, whatever has become of the files, of the path of
  -- the database and of the sort.
  pub local_db_read_again :
      (info info' : Info) (ok : Bool)
      → local_db_read qsort dbpath disk inforeq info ≡ some (info', ok)
      → (qsort' : List Str → List Str) (dbpath' : Str) (disk' : Disk)
      → local_db_read qsort' dbpath' disk' inforeq info' ≡ some (info', ok)
  local_db_read_again info info' ok h = subst (AgainOption inforeq) h (again info)

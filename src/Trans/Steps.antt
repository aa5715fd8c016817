-- ===== src/Trans/Steps.antt =====
-- The calls on a handle as steps, and the phases of its transaction over one step.
use dulge.Base.{
  ◌≤◌, ◌≡◌, refl, ◌∙◌, Bool, true, false, not, Option, none, some, List, [], ◌∷◌, Str,
  if◌then◌else◌, arith,
}
use dulge.Package.{Pkg}
use dulge.Removal
use dulge.Trans.{
  TransState, idle, initialized, prepared, downloading, committing, committed, interrupted,
  TransFlags, Trans, Errno, ok, Handle, checked, ret_err, Outcome, Calls, nothing_to_do, is_empty,
  with_trans, with_current, init_with, trans_init, handle_lock_file, proceed, check_arch,
  sorted_lists, is_initialized, is_prepared, may_interrupt, prepare_trans, trans_prepare,
  trans_commit, trans_interrupt, trans_remove_pkg,
}
use dulge.Trans.Phases.{
  phase, IsSteady, Goes, with_trans-Goes, proceed-Goes, same_phase, load_trans-Goes,
}

with_current-Goes :
    (h : Handle) (t : Trans) (k : Trans → Handle × Bool) (o : Option Trans)
    → o ≡ some t
    → Goes h.locked h.lockfile h.on_disk t (k t).0
    → Goes h.locked h.lockfile h.on_disk t (with_current h k o).0
with_current-Goes h t k none q g = cc
with_current-Goes h t k (some t') q g = rw (some_injective q) g
  where
    some_injective : some t' ≡ some t → t' ≡ t
    some_injective e = cc

-- The calls on a handle that do not end its transaction. The Boolean of a call says whether it
-- succeeded, and is left out.
pub data Step (calls : Calls) (h : Handle) : Handle → Type 0 where
  init : (granted : Bool) (flags : TransFlags) → Step calls h (trans_init granted flags h).0
  add_target : (pkg : Pkg) → Step calls h (trans_remove_pkg pkg h).0
  prepare : Step calls h (trans_prepare calls h).0
  commit : Step calls h (trans_commit calls h).0
  interrupt : Step calls h (trans_interrupt h).0

-- A test of the code.
if-Goes :
    (l f d : Bool) (t : Trans) (b : Bool) (x y : Handle × Bool)
    → (b ≡ true → Goes l f d t x.0)
    → (b ≡ false → Goes l f d t y.0)
    → Goes l f d t (if b then x else y).0
if-Goes l f d t true x y p q = p refl
if-Goes l f d t false x y p q = q refl

prepared_phase : (s : TransState) → not (is_prepared s) ≡ false → phase s ≤ 3
prepared_phase prepared e = omega arith
prepared_phase idle e = omega arith
prepared_phase initialized e = omega arith
prepared_phase downloading e = omega arith
prepared_phase committing e = cc
prepared_phase committed e = cc
prepared_phase interrupted e = cc

initialized_phase : (s : TransState) → not (is_initialized s) ≡ false → phase s ≤ 2
initialized_phase initialized e = omega arith
initialized_phase prepared e = omega arith
initialized_phase idle e = omega arith
initialized_phase downloading e = cc
initialized_phase committing e = cc
initialized_phase committed e = cc
initialized_phase interrupted e = cc

interrupt_phase : (s : TransState) → may_interrupt s ≡ true → phase s ≤ 5
interrupt_phase committing e = omega arith
interrupt_phase interrupted e = omega arith
interrupt_phase idle e = omega arith
interrupt_phase initialized e = omega arith
interrupt_phase prepared e = omega arith
interrupt_phase downloading e = omega arith
interrupt_phase committed e = cc

module _ (calls : Calls) (steady : IsSteady calls) (h : Handle) (t : Trans)
    (current : h.trans ≡ some t) where
  -- The handle of a call that changes nothing but the error.
  unchanged :
      (e : Errno) (r : Bool) → Goes h.locked h.lockfile h.on_disk t (record h { pm_errno = e })
  unchanged e r = record {
    t' = t;
    has = current;
    flags = refl;
    later = omega arith;
    lock = refl;
    file = refl;
    disk = refl;
  }

  trans_commit-Goes : Goes h.locked h.lockfile h.on_disk t (trans_commit calls h).0
  unfolding trans_commit
  trans_commit-Goes = with_current-Goes (checked h) t _ h.trans current (
      if-Goes h.locked h.lockfile h.on_disk t (not (is_prepared t.state)) _ _
        (λ e. unchanged Errno.trans_not_prepared false)
        (λ e.
          if-Goes h.locked h.lockfile h.on_disk t t.flags.nolock _ _
            (λ n. unchanged Errno.trans_not_locked false)
            (λ n.
              if-Goes h.locked h.lockfile h.on_disk t (nothing_to_do t) _ _ (λ m. unchanged ok true)
                (λ m.
                  load_trans-Goes calls steady (checked h) t current (prepared_phase t.state e)))))

  prepare_trans-Goes :
      phase t.state ≤ 2 → Goes h.locked h.lockfile h.on_disk t (prepare_trans calls (checked h) t).0
  unfolding prepare_trans
  prepare_trans-Goes l = by_arch (check_arch h.architectures t.add)
    where
      sorted_flags : (t' : Trans) → (sorted_lists calls t').flags ≡ t'.flags
      sorted_flags t' = ground arith

      first :
          (b : Bool)
          → ((if b then calls.remove_prepare t else calls.sync_prepare t).after.flags ≡ t.flags)
            × ((if b then calls.remove_prepare t else calls.sync_prepare t).after.state ≡ t.state)
      first true = steady.remove_prepare t
      first false = steady.sync_prepare t

      by_arch :
          (invalid : List Str)
          → Goes h.locked h.lockfile h.on_disk t
              (elim invalid as (λ x. Handle × Bool) [
                | a ∷ invalid ↦ ret_err (checked h) Errno.pkg_invalid_arch
                | [] ↦
                    proceed
                      (checked h)
                      (if is_empty t.add then calls.remove_prepare t else calls.sync_prepare t)
                      (λ h' t'.
                        (with_trans h' (record (sorted_lists calls t') { state = prepared }), true))
              ]).0
      by_arch (a ∷ invalid) = unchanged Errno.pkg_invalid_arch false
      by_arch [] =
          let o : Outcome =
            if is_empty t.add then calls.remove_prepare t else calls.sync_prepare t in
          let (f, s) = first (is_empty t.add) in
          proceed-Goes (checked h) t o.after o.failed _ f (same_phase t.state o.after.state s) (
            with_trans-Goes (with_trans (checked h) o.after) t
              (record (sorted_lists calls o.after) { state = prepared }) (sorted_flags o.after ∙ f)
              l)

  trans_prepare-Goes : Goes h.locked h.lockfile h.on_disk t (trans_prepare calls h).0
  unfolding trans_prepare
  trans_prepare-Goes = with_current-Goes (checked h) t _ h.trans current (
      if-Goes h.locked h.lockfile h.on_disk t (not (is_initialized t.state)) _ _
        (λ e. unchanged Errno.trans_not_initialized false)
        (λ e.
          if-Goes h.locked h.lockfile h.on_disk t (nothing_to_do t) _ _ (λ m. unchanged ok true)
            (λ m. prepare_trans-Goes (initialized_phase t.state e))))

  trans_interrupt-Goes : Goes h.locked h.lockfile h.on_disk t (trans_interrupt h).0
  unfolding trans_interrupt
  trans_interrupt-Goes = with_current-Goes (checked h) t _ h.trans current (
      if-Goes h.locked h.lockfile h.on_disk t (may_interrupt t.state) _ _
        (λ e.
          with_trans-Goes (checked h) t (record t { state = interrupted }) refl
            (interrupt_phase t.state e))
        (λ e. unchanged Errno.trans_type false))

  trans_remove_pkg-Goes :
      (pkg : Pkg) → Goes h.locked h.lockfile h.on_disk t (trans_remove_pkg pkg h).0
  unfolding trans_remove_pkg
  trans_remove_pkg-Goes pkg = with_current-Goes (checked h) t _ h.trans current (
      if-Goes h.locked h.lockfile h.on_disk t (is_initialized t.state) _ _
        (λ e.
          with_trans-Goes (checked h) t (record t { remove = Removal.remove_pkg t.remove pkg }) refl
            (omega arith))
        (λ e. unchanged Errno.trans_not_initialized false))

  -- A call of `alpm_trans_init` is refused while there is a transaction.
  trans_init-Goes :
      (granted : Bool) (flags : TransFlags)
      → Goes h.locked h.lockfile h.on_disk t (trans_init granted flags h).0
  unfolding trans_init
  trans_init-Goes granted flags =
      refused (if flags.nolock then (checked h, true) else handle_lock_file granted (checked h))
        (record { flags = flags; state = initialized; add = []; remove = [] }) h.trans current
    where
      clash : none ≡ some t → ⊥
      clash e = cc

      refused :
          (l : Handle × Bool) (new : Trans) (o : Option Trans)
          → o ≡ some t
          → Goes h.locked h.lockfile h.on_disk t (init_with (checked h) l new o).0
      refused l new none e = absurd (clash e)
      refused l new (some x) e = unchanged Errno.trans_not_null false

  pub Step-Goes : {h' : Handle} → Step calls h h' → Goes h.locked h.lockfile h.on_disk t h'
  Step-Goes (init granted flags) = trans_init-Goes granted flags
  Step-Goes (add_target pkg) = trans_remove_pkg-Goes pkg
  Step-Goes prepare = trans_prepare-Goes
  Step-Goes commit = trans_commit-Goes
  Step-Goes interrupt = trans_interrupt-Goes

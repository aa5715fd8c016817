-- ===== src/Trans/Phases.antt =====
-- The phases of a transaction: no call but the release goes back.
use dulge.Base.{
  ℕ, ◌≤◌, ◌≡◌, ◌⊎◌, refl, ap, ◌∙◌, Bool, true, false, not, ◌&&◌, Option, none, some, inl, inr,
  if◌then◌else◌, arith, Bool-cases,
}
use dulge.Trans.{
  TransState, idle, initialized, prepared, downloading, committing, committed, interrupted, Trans,
  Errno, Handle, ret_err, Outcome, Calls, is_empty, with_trans, proceed, proceed_with, commit_trans,
  load_trans,
}

abbrev pub phase : TransState → ℕ
phase idle = 0
phase initialized = 1
phase prepared = 2
phase downloading = 3
phase committing = 4
phase interrupted = 5
phase committed = 6

-- The calls that are made keep the flags, and set no state but these: the download (line 772 of
-- lib/libalpm/sync.c) and the interruption (line 689 of lib/libalpm/add.c, and the signal handler
-- of the front end).
pub record IsSteady (calls : Calls) : Type 0 where
  pub remove_prepare :
      (t : Trans)
      → ((calls.remove_prepare t).after.flags ≡ t.flags)
        × ((calls.remove_prepare t).after.state ≡ t.state)
  pub sync_prepare :
      (t : Trans)
      → ((calls.sync_prepare t).after.flags ≡ t.flags)
        × ((calls.sync_prepare t).after.state ≡ t.state)
  pub sync_load :
      (t : Trans)
      → ((calls.sync_load t).after.flags ≡ t.flags)
        × (((calls.sync_load t).after.state ≡ t.state)
            ⊎ ((calls.sync_load t).after.state ≡ downloading))
  pub sync_check :
      (t : Trans)
      → ((calls.sync_check t).after.flags ≡ t.flags) × ((calls.sync_check t).after.state ≡ t.state)
  pub remove_packages :
      (t : Trans)
      → ((calls.remove_packages t).after.flags ≡ t.flags)
        × (((calls.remove_packages t).after.state ≡ t.state)
            ⊎ ((calls.remove_packages t).after.state ≡ interrupted))
  pub sync_commit :
      (t : Trans)
      → ((calls.sync_commit t).after.flags ≡ t.flags)
        × (((calls.sync_commit t).after.state ≡ t.state)
            ⊎ ((calls.sync_commit t).after.state ≡ interrupted))

-- The handle still has the transaction, in the same phase or a later one, and the same
-- lock and lock file.
pub record Goes (locked lockfile on_disk : Bool) (t : Trans) (h' : Handle) : Type 0 where
  pub t' : Trans
  pub has : h'.trans ≡ some t'
  pub flags : t'.flags ≡ t.flags
  pub later : phase t.state ≤ phase t'.state
  pub lock : h'.locked ≡ locked
  pub file : h'.lockfile ≡ lockfile
  pub disk : h'.on_disk ≡ on_disk

ret_err-Goes :
    (h : Handle) (t : Trans) (e : Errno)
    → h.trans ≡ some t
    → Goes h.locked h.lockfile h.on_disk t (ret_err h e).0
ret_err-Goes h t e q = record {
  t' = t;
  has = q;
  flags = refl;
  later = omega arith;
  lock = refl;
  file = refl;
  disk = refl;
}

pub with_trans-Goes :
    (h : Handle) (t t' : Trans)
    → t'.flags ≡ t.flags
    → phase t.state ≤ phase t'.state
    → Goes h.locked h.lockfile h.on_disk t (with_trans h t')
with_trans-Goes h t t' f l = record {
  t' = t';
  has = refl;
  flags = f;
  later = l;
  lock = refl;
  file = refl;
  disk = refl;
}

-- A failure leaves the transaction as the failed call did; a success goes on with it.
pub proceed-Goes :
    (h : Handle) (t t' : Trans) (failed : Option Errno) (k : Handle → Trans → Handle × Bool)
    → t'.flags ≡ t.flags
    → phase t.state ≤ phase t'.state
    → Goes h.locked h.lockfile h.on_disk t (k (with_trans h t') t').0
    → Goes h.locked h.lockfile h.on_disk t (proceed_with h t' failed k).0
proceed-Goes h t t' none k f l g = g
proceed-Goes h t t' (some err) k f l g = with_trans-Goes (record h { pm_errno = err }) t t' f l

-- Two stretches of a call.
pub Goes-trans :
    (h : Handle) (t t' : Trans) (r : Handle)
    → t'.flags ≡ t.flags
    → phase t.state ≤ phase t'.state
    → Goes h.locked h.lockfile h.on_disk t' r
    → Goes h.locked h.lockfile h.on_disk t r
Goes-trans h t t' r f l g = record {
  t' = g.t';
  has = g.has;
  flags = g.flags ∙ f;
  later = omega (arith, l, g.later);
  lock = g.lock;
  file = g.file;
  disk = g.disk;
}

pub same_phase : (s s' : TransState) → s' ≡ s → phase s ≤ phase s'
same_phase s s' e = omega (arith, ap (λ x. phase x) e)

later_phase :
    (s s' s'' : TransState) → phase s ≤ phase s'' → (s' ≡ s) ⊎ (s' ≡ s'') → phase s ≤ phase s'
later_phase s s' s'' l (inl e) = omega (arith, ap (λ x. phase x) e)
later_phase s s' s'' l (inr e) = omega (arith, ap (λ x. phase x) e)

from_committing :
    (t : Trans)
    → t.state ≡ committing
    → (s : TransState) → (s ≡ t.state) ⊎ (s ≡ interrupted)
    → 4 ≤ phase s
from_committing t e s (inl q) = omega (arith, ap (λ x. phase x) (q ∙ e))
from_committing t e s (inr q) = omega (arith, ap (λ x. phase x) q)

module _ (calls : Calls) (steady : IsSteady calls) where
  commit_trans-Goes :
      (h : Handle) (t : Trans)
      → h.trans ≡ some t
      → phase t.state ≤ 4
      → Goes h.locked h.lockfile h.on_disk t (commit_trans calls h t).0
  unfolding commit_trans
  commit_trans-Goes h t q l =
      let started : Trans = record t { state = committing } in
      let o : Outcome =
        if is_empty t.add then calls.remove_packages started else calls.sync_commit started in
      let keeps : (o.after.flags ≡ t.flags) × (4 ≤ phase o.after.state) =
        outcome started (is_empty t.add) refl in
      let finished : Handle × Bool =
        proceed h o (λ h' t'. (with_trans h' (record t' { state = committed }), true)) in
      elim (Bool-cases (not t.flags.nohooks && not (calls.pre_hooks_pass t))) [
        | inl e ↦ rw e (
            with_trans-Goes (record h { pm_errno = Errno.trans_hook_failed }) t t refl
              (omega arith))
        | inr e ↦ rw e (
            proceed-Goes h t o.after o.failed _ keeps.0 (omega (arith, keeps.1)) (
              with_trans-Goes (with_trans h o.after) t (record o.after { state = committed })
                keeps.0 (omega arith)))
      ]
    where
      outcome :
          (started : Trans) (b : Bool)
          → started.state ≡ committing
          → ((if b then calls.remove_packages started else calls.sync_commit started).after.flags
              ≡ started.flags)
            × (4
                ≤ phase
                    (if b
                      then calls.remove_packages started
                      else calls.sync_commit started).after.state)
      outcome started true e =
          let (f, s) = steady.remove_packages started in
          (f, from_committing started e (calls.remove_packages started).after.state s)
      outcome started false e =
          let (f, s) = steady.sync_commit started in
          (f, from_committing started e (calls.sync_commit started).after.state s)

  pub load_trans-Goes :
      (h : Handle) (t : Trans)
      → h.trans ≡ some t
      → phase t.state ≤ 3
      → Goes h.locked h.lockfile h.on_disk t (load_trans calls h t).0
  unfolding load_trans
  load_trans-Goes h t q l = pick (is_empty t.add)
    where
      loading :
          (t : Trans)
          → phase t.state ≤ 3
          → (s : TransState) → (s ≡ t.state) ⊎ (s ≡ downloading)
          → phase s ≤ 3
      loading t l s (inl e) = omega (arith, ap (λ x. phase x) e)
      loading t l s (inr e) = omega (arith, ap (λ x. phase x) e)

      check :
          (t' : Trans)
          → phase t'.state ≤ 3
          → (h' : Handle) → h'.trans ≡ some t'
          → Goes h'.locked h'.lockfile h'.on_disk t'
              (if t'.flags.downloadonly
                then (h', true)
                else proceed h' (calls.sync_check t') (λ h'' t''. commit_trans calls h'' t'')).0
      check t' l h' q = elim (Bool-cases t'.flags.downloadonly) [
        | inl e ↦ simp e (with_same h' t' q)
        | inr e ↦
            let done = calls.sync_check t' in
            let (f, s) = steady.sync_check t' in
            let same = same_phase t'.state done.after.state s in
            simp e (
              proceed-Goes h' t' done.after done.failed _ f same (
                Goes-trans h' t' done.after _ f same (
                  commit_trans-Goes (with_trans h' done.after) done.after refl
                    (omega (arith, ap (λ x. phase x) s)))))
      ]
        where
          with_same :
              (h' : Handle) (t' : Trans)
              → h'.trans ≡ some t'
              → Goes h'.locked h'.lockfile h'.on_disk t' h'
          with_same h' t' q = record {
            t' = t';
            has = q;
            flags = refl;
            later = omega arith;
            lock = refl;
            file = refl;
            disk = refl;
          }

      pick :
          (b : Bool)
          → Goes h.locked h.lockfile h.on_disk t
              (if b
                then commit_trans calls h t
                else proceed h (calls.sync_load t) (λ h' t'.
                  if t'.flags.downloadonly
                  then (h', true)
                  else proceed h' (calls.sync_check t') (λ h'' t''. commit_trans calls h'' t''))).0
      pick true = commit_trans-Goes h t q (omega arith)
      pick false =
          let loaded = calls.sync_load t in
          let (f, s) = steady.sync_load t in
          let up = later_phase t.state loaded.after.state downloading l s in
          proceed-Goes h t loaded.after loaded.failed _ f up (
            Goes-trans h t loaded.after _ f up (
              check loaded.after (loading t l loaded.after.state s) (with_trans h loaded.after)
                refl))

-- ===== src/Trans/Locked.antt =====
-- What holds along every sequence of calls without a release: the phase of a transaction.
use dulge.Base.{◌≤◌, ◌≡◌, refl, ap, ◌∙◌, Bool, true, not, Option, none, some, arith}
use dulge.Trans.{
  TransState, Trans, trans_not_prepared, Handle, checked, ret_err, Calls, with_current, is_prepared,
  trans_commit,
}
use dulge.Trans.Phases.{phase, IsSteady, Goes}
use dulge.Trans.Steps.{Step, Step-Goes}

-- Sequences of calls without a release.
pub data Reach (calls : Calls) (h : Handle) : Handle → Type 0 where
  here : Reach calls h h
  next : {h' h'' : Handle} → Reach calls h h' → Step calls h' h'' → Reach calls h h''

-- The transaction of the handle.
pub with_current-some :
    (h : Handle) (t : Trans) (k : Trans → Handle × Bool) (o : Option Trans)
    → o ≡ some t
    → with_current h k o ≡ k t
with_current-some h t k none e = cc
with_current-some h t k (some t') e = ap k (cc)

module _ (calls : Calls) (steady : IsSteady calls) where
  -- A transaction goes through its phases in order: after any sequence of calls without a release
  -- the handle has a transaction with the same flags, in the same phase or a later one, and its
  -- lock and the lock file are as they were.
  pub Reach-Goes :
      {h h' : Handle} (t : Trans)
      → h.trans ≡ some t
      → Reach calls h h'
      → Goes h.locked h.lockfile h.on_disk t h'
  Reach-Goes {h} t q here = record {
    t' = t;
    has = q;
    flags = refl;
    later = omega arith;
    lock = refl;
    file = refl;
    disk = refl;
  }
  Reach-Goes {h} t q (next {h' = m} r s) =
      let first = Reach-Goes t q r in
      let then_ = Step-Goes calls steady m first.t' first.has s in
      record {
        t' = then_.t';
        has = then_.has;
        flags = then_.flags ∙ first.flags;
        later = omega (arith, first.later, then_.later);
        lock = then_.lock ∙ first.lock;
        file = then_.file ∙ first.file;
        disk = then_.disk ∙ first.disk;
      }

  -- A transaction is committed once: when it has gone past `prepared`, then after any sequence of
  -- alpm_trans_init, alpm_remove_pkg, alpm_trans_prepare, alpm_trans_commit and alpm_trans_interrupt,
  -- whose own calls keep to `IsSteady`, alpm_trans_commit fails because the transaction is not
  -- prepared, and changes nothing but `pm_errno`.
  pub Reach-trans_commit :
      {h h' : Handle} (t : Trans)
      → h.trans ≡ some t
      → 3 ≤ phase t.state
      → Reach calls h h'
      → trans_commit calls h' ≡ ret_err h' trans_not_prepared
  unfolding trans_commit
  Reach-trans_commit {h} {h'} t q l r =
      let goes = Reach-Goes t q r in refused h' goes.t' goes.has (omega (arith, l, goes.later))
    where
      not_prepared : (s : TransState) → 3 ≤ phase s → not (is_prepared s) ≡ true
      not_prepared s l = ground arith

      refused :
          (h : Handle) (t : Trans)
          → h.trans ≡ some t
          → 3 ≤ phase t.state
          → trans_commit calls h ≡ ret_err h trans_not_prepared
      refused h t q l =
          rw (with_current-some (checked h) t _ h.trans q) (rw (not_prepared t.state l) refl)

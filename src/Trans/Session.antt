-- ===== src/Trans/Session.antt =====
-- Whole sessions of a front end on one handle: several transactions, with releases and updates of
-- the databases between them.
use dulge.Base.{◌≡◌, Bool, none, inl, inr, Option-cases}
use dulge.Trans.{
  Handle, checked, Calls, unlock, trans_commit, trans_remove_pkg, trans_prepare, trans_interrupt,
  trans_release, UpdateCalls, db_update,
}
use dulge.Trans.Phases.{IsSteady}
use dulge.Trans.Steps.{Step, Step-Goes}
use dulge.Trans.Lockfile.{IsAloof}
use dulge.Trans.Guarded.{
  IsGuarded, Goes-IsGuarded, none-IsGuarded, with_current-none, trans_init-IsGuarded,
  unlock-IsGuarded, release-IsGuarded, update-IsGuarded,
}

-- Sequences of calls, with `alpm_db_update` and `alpm_unlock` only while no transaction is open.
pub data Session (calls : Calls) (updates : UpdateCalls) (h : Handle) : Handle → Type 0 where
  start : Session calls updates h h
  call :
      {h' h'' : Handle}
      → Session calls updates h h'
      → Step calls h' h''
      → Session calls updates h h''
  release :
      {h' : Handle} (unlinked : Bool)
      → Session calls updates h h'
      → Session calls updates h (trans_release unlinked h').0
  update :
      {h' : Handle} (has_dbs granted unlinked : Bool)
      → Session calls updates h h'
      → h'.trans ≡ none
      → Session calls updates h (db_update updates has_dbs granted unlinked h').0
  let_go :
      {h' : Handle} (unlinked : Bool)
      → Session calls updates h h'
      → h'.trans ≡ none
      → Session calls updates h (unlock unlinked h')

module _ (calls : Calls) (updates : UpdateCalls) (steady : IsSteady calls)
    (aloof : IsAloof updates) where
  none_Step-IsGuarded :
      (h : Handle) {h' : Handle} → h.trans ≡ none → IsGuarded h → Step calls h h' → IsGuarded h'
  unfolding trans_remove_pkg trans_prepare trans_commit trans_interrupt
  none_Step-IsGuarded h q g (Step.init granted flags) =
      trans_init-IsGuarded granted flags h q g.backed
  none_Step-IsGuarded h q g (Step.add_target pkg) =
      rw (with_current-none (checked h) _ h.trans q) (none-IsGuarded _ q g.backed)
  none_Step-IsGuarded h q g Step.prepare =
      rw (with_current-none (checked h) _ h.trans q) (none-IsGuarded _ q g.backed)
  none_Step-IsGuarded h q g Step.commit =
      rw (with_current-none (checked h) _ h.trans q) (none-IsGuarded _ q g.backed)
  none_Step-IsGuarded h q g Step.interrupt =
      rw (with_current-none (checked h) _ h.trans q) (none-IsGuarded _ q g.backed)

  Step-IsGuarded : {h h' : Handle} → Step calls h h' → IsGuarded h → IsGuarded h'
  Step-IsGuarded {h} {h'} s g = elim (Option-cases h.trans) [
    | inl q ↦ none_Step-IsGuarded h q g s
    | inr (t, q) ↦ Goes-IsGuarded h h' t q g (Step-Goes calls steady h t q s)
  ]

  -- Along every sequence of alpm_trans_init, alpm_remove_pkg, alpm_trans_prepare,
  -- alpm_trans_commit, alpm_trans_interrupt and alpm_trans_release on a handle, and of
  -- alpm_db_update and alpm_unlock while no transaction is open, whether they succeed or not: a
  -- transaction that was begun without NOLOCK holds the lock, and a handle that holds the lock has
  -- its lock file on disk. This is so if it is so to begin with, if the calls that these make keep
  -- to `IsSteady` and `IsAloof`, and if nobody else removes the lock file.
  pub Session-IsGuarded : {h h' : Handle} → Session calls updates h h' → IsGuarded h → IsGuarded h'
  Session-IsGuarded Session.start g = g
  Session-IsGuarded (Session.call r s) g = Step-IsGuarded s (Session-IsGuarded r g)
  Session-IsGuarded (Session.release {h'} unlinked r) g =
      release-IsGuarded unlinked h' (Session-IsGuarded r g)
  Session-IsGuarded (Session.update {h'} has_dbs granted unlinked r q) g =
      update-IsGuarded updates has_dbs granted unlinked h' aloof q (Session-IsGuarded r g)
  Session-IsGuarded (Session.let_go {h'} unlinked r q) g =
      unlock-IsGuarded unlinked h' q (Session-IsGuarded r g).backed

-- ===== src/Trans/Release.antt =====
-- The end of a transaction, and the lock file after it.
use dulge.Base.{◌≤◌, ◌≡◌, refl, ap, ◌∙◌, Bool, true, false, not, ◌&&◌, ◌||◌, none, some, arith}
use dulge.Trans.{
  TransState, TransFlags, Trans, Handle, checked, Calls, handle_lock_file, trans_init, is_idle,
  trans_release, UpdateCalls, cleanup_update, db_update,
}
use dulge.Trans.Phases.{phase, IsSteady}
use dulge.Trans.Locked.{Reach, Reach-Goes, with_current-some}
use dulge.Trans.Lockfile.{
  Kept, IsAloof, gets_to_lock, Updates, db_update-Updates, free-trans_init, unlock-held,
}

-- The handle has a transaction that was begun with the lock, and still holds the lock.
pub record IsHolder (h : Handle) (t : Trans) : Type 0 where
  pub trans : h.trans ≡ some t
  pub lockfile : h.lockfile ≡ true
  pub locked : h.locked ≡ true
  pub on_disk : h.on_disk ≡ true

-- The handle has neither a transaction nor the lock.
pub record IsFree (h : Handle) : Type 0 where
  pub no_trans : h.trans ≡ none
  pub lockfile : h.lockfile ≡ true
  pub unlocked : h.locked ≡ false

release_lem :
    (unlinked : Bool) (h : Handle) (t : Trans)
    → IsHolder h t
    → 1 ≤ phase t.state
    → t.flags.nolock ≡ false
    → ((trans_release unlinked h).1 ≡ true)
      × IsFree (trans_release unlinked h).0
      × ((trans_release unlinked h).0.on_disk ≡ not unlinked)
unfolding trans_release
release_lem unlinked h t holder l n = rw (with_current-some (checked h) t _ h.trans holder.trans) (
    rw (not_idle t.state l) (
      let (q, f, u, d) =
        unlock-held unlinked (record (checked h) { trans = none }) holder.lockfile holder.locked
          holder.on_disk in
      rw n (refl, record { no_trans = q; lockfile = f; unlocked = u }, d)))
  where
    not_idle : (s : TransState) → 1 ≤ phase s → is_idle s ≡ false
    not_idle s l = ground arith

-- The next transaction.
next_lem :
    (granted unlinked : Bool) (flags : TransFlags) (h : Handle)
    → IsFree h
    → h.on_disk ≡ not unlinked
    → (trans_init granted flags h).1 ≡ (flags.nolock || (unlinked && granted))
next_lem granted unlinked flags h free d =
    free-trans_init granted flags h free.no_trans free.lockfile free.unlocked
    ∙ (ap (λ x. flags.nolock || (granted && not x)) d ∙ swapped)
  where
    swapped :
        (flags.nolock || (granted && not (not unlinked))) ≡ (flags.nolock || (unlinked && granted))
    swapped = ground arith

-- Whatever calls come after a transaction with the lock has been begun, but for a release and the
-- calls that take the lock from it (alpm_db_update and alpm_unlock), and as long as their own calls
-- keep to `IsSteady`, alpm_trans_release succeeds and leaves neither a transaction nor the lock. The
-- lock file is then gone just if it could be removed; so the next alpm_trans_init succeeds just if
-- it was removed and a new one can be created, or with NOLOCK. The transaction was begun without
-- NOLOCK and holds the lock, its lock file exists, and nobody else touches it.
pub Reach-trans_release :
    (calls : Calls)
    → IsSteady calls
    → (h h' : Handle) (t : Trans) → IsHolder h t
    → 1 ≤ phase t.state
    → t.flags.nolock ≡ false
    → Reach calls h h'
    → (unlinked granted : Bool) (flags : TransFlags)
    → ((trans_release unlinked h').1 ≡ true)
      × IsFree (trans_release unlinked h').0
      × ((trans_release unlinked h').0.on_disk ≡ not unlinked)
      × ((trans_init granted flags (trans_release unlinked h').0).1
          ≡ (flags.nolock || (unlinked && granted)))
Reach-trans_release calls steady h h' t holder l n r unlinked granted flags =
    let goes = Reach-Goes calls steady t holder.trans r in
    let holder' : IsHolder h' goes.t' = record {
      trans = goes.has;
      lockfile = goes.file ∙ holder.lockfile;
      locked = goes.lock ∙ holder.locked;
      on_disk = goes.disk ∙ holder.on_disk;
    } in
    let (done, free, disk) =
      release_lem unlinked h' goes.t' holder' (omega (arith, l, goes.later))
        (ap (λ x. x.nolock) goes.flags ∙ n) in
    (done, free, disk, next_lem granted unlinked flags (trans_release unlinked h').0 free disk)

-- What `alpm_db_update` comes to on a handle that holds the lock.
record Dropped (t : Trans) (reached unlinked : Bool) (r : Handle) : Type 0 where
  trans : r.trans ≡ some t
  lock : r.locked ≡ not reached
  disk : r.on_disk ≡ not (reached && unlinked)

held_lock :
    (granted : Bool) (h : Handle) (t : Trans)
    → IsHolder h t
    → handle_lock_file granted h ≡ (h, true)
unfolding handle_lock_file
held_lock granted h t holder = already holder.lockfile holder.locked
  where
    already : h.lockfile ≡ true → h.locked ≡ true → handle_lock_file granted h ≡ (h, true)
    already f l = ground arith

IsHolder-Kept : (h h' : Handle) (t : Trans) → IsHolder h t → Kept h h' → IsHolder h' t
IsHolder-Kept h h' t holder k = record {
  trans = k.trans ∙ holder.trans;
  lockfile = k.file ∙ holder.lockfile;
  locked = k.lock ∙ holder.locked;
  on_disk = k.disk ∙ holder.on_disk;
}

cleanup_update-Dropped :
    (unlinked : Bool) (r : Handle × Bool) (t : Trans)
    → IsHolder r.0 t
    → Dropped t true unlinked (cleanup_update unlinked r).0
cleanup_update-Dropped unlinked (h, true) t holder =
    let (q, f, u, d) = unlock-held unlinked h holder.lockfile holder.locked holder.on_disk in
    record { trans = q ∙ holder.trans; lock = u; disk = d }
cleanup_update-Dropped unlinked (h, false) t holder =
    let (q, f, u, d) = unlock-held unlinked h holder.lockfile holder.locked holder.on_disk in
    record { trans = q ∙ holder.trans; lock = u; disk = d }

db_update-Dropped :
    (updates : UpdateCalls) (has_dbs granted unlinked : Bool) (h : Handle) (t : Trans)
    → IsAloof updates
    → IsHolder h t
    → Dropped t
        (gets_to_lock updates has_dbs (checked h))
        unlinked
        (db_update updates has_dbs granted unlinked h).0
db_update-Dropped updates has_dbs granted unlinked h t aloof holder =
    by_way (db_update-Updates updates aloof granted unlinked h has_dbs)
  where
    by_way :
        {reached : Bool} {r : Handle}
        → Updates updates granted unlinked h reached r
        → Dropped t reached unlinked r
    by_way {reached} {r} (Updates.returned e k) =
        let left = IsHolder-Kept h r t holder k in
        rw e (record { trans = left.trans; lock = left.locked; disk = left.on_disk })
    by_way {reached} {r} (Updates.went_on h' e k s) =
        let left = IsHolder-Kept h h' t holder k in
        let locked = held_lock granted h' t left in
        rw (e, s, locked)
          (cleanup_update-Dropped unlinked (updates.update_dbs h') t
            (IsHolder-Kept h' _ t left (aloof.update_dbs h')))

-- alpm_db_update on a handle with a transaction that holds the lock. If it gets to the lock (there
-- are databases and both directories), then, whether the update succeeds or not, it leaves the
-- transaction open and gives up its lock, and removes the lock file if that can be removed, after
-- which another handle on the same root, without a transaction or the lock, can begin a transaction
-- with the lock if it can create the file. If it returns before the lock, the transaction keeps it,
-- and no other handle can begin one, but with NOLOCK. The calls that it makes leave the transaction
-- and the lock alone, and nobody else touches the lock file.
pub db_update-unlocks :
    (updates : UpdateCalls) (has_dbs granted unlinked : Bool) (h : Handle) (t : Trans)
    → IsAloof updates
    → IsHolder h t
    → (granted' : Bool) (flags : TransFlags) (other : Handle) → IsFree other
    → ((db_update updates has_dbs granted unlinked h).0.trans ≡ some t)
      × ((db_update updates has_dbs granted unlinked h).0.locked
          ≡ not (gets_to_lock updates has_dbs (checked h)))
      × ((db_update updates has_dbs granted unlinked h).0.on_disk
          ≡ not (gets_to_lock updates has_dbs (checked h) && unlinked))
      × ((trans_init granted' flags
            (record other { on_disk = (db_update updates has_dbs granted unlinked h).0.on_disk })).1
          ≡ (flags.nolock || ((gets_to_lock updates has_dbs (checked h) && unlinked) && granted')))
db_update-unlocks updates has_dbs granted unlinked h t aloof holder granted' flags other free =
    let dropped = db_update-Dropped updates has_dbs granted unlinked h t aloof holder in
    let r = (db_update updates has_dbs granted unlinked h).0 in
    let free' : IsFree (record other { on_disk = r.on_disk }) = record {
      no_trans = free.no_trans;
      lockfile = free.lockfile;
      unlocked = free.unlocked;
    } in
    (
      dropped.trans,
      dropped.lock,
      dropped.disk,
      next_lem granted' (gets_to_lock updates has_dbs (checked h) && unlinked) flags
          (record other { on_disk = r.on_disk }) free' dropped.disk,
    )

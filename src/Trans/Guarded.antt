-- ===== src/Trans/Guarded.antt =====
-- The lock of a transaction under the calls that can be made on its handle.
use dulge.Base.{
  ◌≡◌, refl, sym, ap, ◌∙◌, Bool, true, false, not, ◌||◌, Option, none, some, [], if◌then◌else◌,
  arith, subst,
}
use dulge.Trans.{
  initialized, TransFlags, Trans, Errno, Handle, checked, ret_err, with_current, init_with,
  handle_lock_file, unlock, is_idle, trans_init, trans_release, UpdateCalls, cleanup_update,
  locked_update, db_update,
}
use dulge.Trans.Phases.{Goes}
use dulge.Trans.Lockfile.{IsAloof, Updates, db_update-Updates}

-- A transaction that asks for the lock has it.
abbrev Holds : Option Trans → Bool → Type 0
Holds none locked = Unit
Holds (some t) locked = (t.flags.nolock || locked) ≡ true

-- A transaction that asks for the lock has it, and a handle that has the lock finds its lock file.
pub record IsGuarded (h : Handle) : Type 0 where
  pub holds : Holds h.trans h.locked
  pub backed : (not h.locked || h.on_disk) ≡ true

Holds-same :
    (t t' : Trans) (l l' : Bool)
    → t'.flags ≡ t.flags
    → l' ≡ l
    → Holds (some t) l
    → Holds (some t') l'
Holds-same t t' l l' f e g = ap (λ x. x.nolock || l') f ∙ (ap (λ b. t.flags.nolock || b) e ∙ g)

backed-same : (l l' d d' : Bool) → l' ≡ l → d' ≡ d → (not l || d) ≡ true → (not l' || d') ≡ true
backed-same l l' d d' e f g = rw (e, f) g

pub Goes-IsGuarded :
    (h h' : Handle) (t : Trans)
    → h.trans ≡ some t
    → IsGuarded h
    → Goes h.locked h.lockfile h.on_disk t h'
    → IsGuarded h'
Goes-IsGuarded h h' t q g s = record {
  holds =
      subst (λ o. Holds o h'.locked) (sym s.has)
        (Holds-same t s.t' h.locked h'.locked s.flags s.lock
          (subst (λ o. Holds o h.locked) q g.holds));
  backed = backed-same h.locked h'.locked h.on_disk h'.on_disk s.lock s.disk g.backed;
}

-- Without a transaction it is enough that the lock has its file.
pub none-IsGuarded :
    (h : Handle) → h.trans ≡ none → (not h.locked || h.on_disk) ≡ true → IsGuarded h
none-IsGuarded h q b = record { holds = subst (λ o. Holds o h.locked) (sym q) tt; backed = b }

pub with_current-none :
    (h : Handle) (k : Trans → Handle × Bool) (o : Option Trans)
    → o ≡ none
    → with_current h k o ≡ ret_err h Errno.trans_null
with_current-none h k none e = refl
with_current-none h k (some t) e = cc

handle_lock_file_lem :
    (h : Handle) (granted : Bool)
    → (not h.locked || h.on_disk) ≡ true
    → ((not (handle_lock_file granted h).1 || (handle_lock_file granted h).0.locked) ≡ true)
      × ((not (handle_lock_file granted h).0.locked || (handle_lock_file granted h).0.on_disk)
          ≡ true)
unfolding handle_lock_file
handle_lock_file_lem h granted b = (taken, backed b)
  where
    taken : (not (handle_lock_file granted h).1 || (handle_lock_file granted h).0.locked) ≡ true
    taken = ground arith

    backed :
        (not h.locked || h.on_disk) ≡ true
        → (not (handle_lock_file granted h).0.locked || (handle_lock_file granted h).0.on_disk)
          ≡ true
    backed b = ground arith

handle_lock_file-trans :
    (granted : Bool) (h : Handle) → (handle_lock_file granted h).0.trans ≡ h.trans
unfolding handle_lock_file
handle_lock_file-trans granted h = ground arith

pub unlock-IsGuarded :
    (unlinked : Bool) (h : Handle)
    → h.trans ≡ none
    → (not h.locked || h.on_disk) ≡ true
    → IsGuarded (unlock unlinked h)
unfolding unlock
unlock-IsGuarded unlinked h q b = none-IsGuarded (unlock unlinked h) (kept q) (backed b)
  where
    kept : h.trans ≡ none → (unlock unlinked h).trans ≡ none
    kept q = ground arith

    backed :
        (not h.locked || h.on_disk) ≡ true
        → (not (unlock unlinked h).locked || (unlock unlinked h).on_disk) ≡ true
    backed b = ground arith

init_with-IsGuarded :
    (h : Handle) (locking : Handle × Bool) (new : Trans) (o : Option Trans)
    → o ≡ none
    → locking.0.trans ≡ none
    → (not locking.1 || (new.flags.nolock || locking.0.locked)) ≡ true
    → (not locking.0.locked || locking.0.on_disk) ≡ true
    → IsGuarded (init_with h locking new o).0
init_with-IsGuarded h l new (some t) q k f b = cc
init_with-IsGuarded h (l, true) new none q k f b = record { holds = f; backed = b }
init_with-IsGuarded h (l, false) new none q k f b = none-IsGuarded _ k b

abbrev locking : Bool → Bool → Handle → Handle × Bool
locking nolock granted h = if nolock then (h, true) else handle_lock_file granted h

pub trans_init-IsGuarded :
    (granted : Bool) (flags : TransFlags) (h : Handle)
    → h.trans ≡ none
    → (not h.locked || h.on_disk) ≡ true
    → IsGuarded (trans_init granted flags h).0
unfolding trans_init handle_lock_file
trans_init-IsGuarded granted flags h q b = by_flag flags.nolock refl
  where
    by_flag :
        (nolock : Bool)
        → flags.nolock ≡ nolock
        → IsGuarded
            (init_with
              (checked h)
              (locking nolock granted (checked h))
              (record { flags = flags; state = initialized; add = []; remove = [] })
              h.trans).0
    by_flag true e = init_with-IsGuarded (checked h) (checked h, true) _ h.trans q q (rw e refl) b
    by_flag false e =
        let (taken, backed) = handle_lock_file_lem (checked h) granted b in
        init_with-IsGuarded (checked h) (handle_lock_file granted (checked h)) _ h.trans q
          (handle_lock_file-trans granted (checked h) ∙ q) (rw e taken) backed

-- `alpm_trans_release`.
pub release-IsGuarded :
    (unlinked : Bool) (h : Handle) → IsGuarded h → IsGuarded (trans_release unlinked h).0
unfolding trans_release unlock
release-IsGuarded unlinked h g = by_trans h.trans refl
  where
    released :
        (t : Trans) (idle nolock : Bool)
        → h.trans ≡ some t
        → IsGuarded
            (if idle then ret_err (checked h) Errno.trans_null else (
              if nolock
                  then record (checked h) { trans = none }
                  else unlock unlinked (record (checked h) { trans = none }),
              true,
            )).0
    released t true nolock q = record { holds = g.holds; backed = g.backed }
    released t false true q = record { holds = tt; backed = g.backed }
    released t false false q =
        unlock-IsGuarded unlinked (record (checked h) { trans = none }) refl g.backed

    by_trans :
        (o : Option Trans)
        → h.trans ≡ o
        → IsGuarded
            (with_current
              (checked h)
              (λ t.
                let h' = record (checked h) { trans = none } in
                if is_idle t.state
                then ret_err (checked h) Errno.trans_null
                else (if t.flags.nolock then h' else unlock unlinked h', true))
              o).0
    by_trans none q = record { holds = g.holds; backed = g.backed }
    by_trans (some t) q = released t (is_idle t.state) t.flags.nolock q

-- The part of `alpm_db_update` behind the lock, without a transaction.
cleanup_update-IsGuarded :
    (unlinked : Bool) (r : Handle × Bool)
    → r.0.trans ≡ none
    → (not r.0.locked || r.0.on_disk) ≡ true
    → IsGuarded (cleanup_update unlinked r).0
unfolding unlock
cleanup_update-IsGuarded unlinked (h, true) q b =
    let g = unlock-IsGuarded unlinked h q b in record { holds = g.holds; backed = g.backed }
cleanup_update-IsGuarded unlinked (h, false) q b = unlock-IsGuarded unlinked h q b

locked_update-IsGuarded :
    (unlinked : Bool) (updates : UpdateCalls) (p : Handle × Bool)
    → IsAloof updates
    → p.0.trans ≡ none
    → (not p.0.locked || p.0.on_disk) ≡ true
    → IsGuarded (locked_update unlinked updates.update_dbs p).0
locked_update-IsGuarded unlinked updates (h, true) aloof q b =
    let k = aloof.update_dbs h in
    cleanup_update-IsGuarded unlinked (updates.update_dbs h) (k.trans ∙ q)
      (backed-same h.locked _ h.on_disk _ k.lock k.disk b)
locked_update-IsGuarded unlinked updates (h, false) aloof q b =
    cleanup_update-IsGuarded unlinked (ret_err h Errno.handle_lock) q b

pub update-IsGuarded :
    (updates : UpdateCalls) (has_dbs granted unlinked : Bool) (h : Handle)
    → IsAloof updates
    → h.trans ≡ none
    → IsGuarded h
    → IsGuarded (db_update updates has_dbs granted unlinked h).0
update-IsGuarded updates has_dbs granted unlinked h aloof q g =
    by_way (db_update-Updates updates aloof granted unlinked h has_dbs)
  where
    by_way :
        {reached : Bool} {r : Handle} → Updates updates granted unlinked h reached r → IsGuarded r
    by_way {reached} {r} (Updates.returned e k) =
        none-IsGuarded r (k.trans ∙ q) (backed-same h.locked _ h.on_disk _ k.lock k.disk g.backed)
    by_way {reached} {r} (Updates.went_on h' e k s) =
        let b = backed-same h.locked h'.locked h.on_disk h'.on_disk k.lock k.disk g.backed in
        subst IsGuarded (sym s) (
          locked_update-IsGuarded unlinked updates (handle_lock_file granted h') aloof
            (handle_lock_file-trans granted h' ∙ (k.trans ∙ q))
            (handle_lock_file_lem h' granted b).1)

-- ===== src/Trans/Lockfile.antt =====
-- The lock file under the calls of lib/libalpm/trans.c and lib/libalpm/be_sync.c that touch it.
use dulge.Base.{
  ◌≡◌, refl, ap, ◌∙◌, Bool, true, false, not, ◌&&◌, ◌||◌, Option, none, some, [], if◌then◌else◌,
  arith,
}
use dulge.Trans.{
  TransFlags, Trans, initialized, Handle, checked, init_with, handle_lock_file, unlock, trans_init,
  UpdateCalls, locked_update, with_path, db_update,
}

-- The transaction and the lock are left alone.
pub record Kept (h h' : Handle) : Type 0 where
  pub trans : h'.trans ≡ h.trans
  pub file : h'.lockfile ≡ h.lockfile
  pub lock : h'.locked ≡ h.locked
  pub disk : h'.on_disk ≡ h.on_disk

Kept-trans : {h h' h'' : Handle} → Kept h h' → Kept h' h'' → Kept h h''
Kept-trans k l = record {
  trans = l.trans ∙ k.trans;
  file = l.file ∙ k.file;
  lock = l.lock ∙ k.lock;
  disk = l.disk ∙ k.disk;
}

-- What `alpm_db_update` hands on leaves the transaction and the lock alone.
pub record IsAloof (calls : UpdateCalls) : Type 0 where
  pub get_sync_dir : (h : Handle) → Kept h (calls.get_sync_dir h).0
  pub download_dir_setup : (h : Handle) → Kept h (calls.download_dir_setup h).0
  pub update_dbs : (h : Handle) → Kept h (calls.update_dbs h).0

-- `alpm_db_update` gets as far as the lock: there are databases, and both directories.
abbrev pub gets_to_lock : UpdateCalls → Bool → Handle → Bool
gets_to_lock calls has_dbs h =
    has_dbs && ((calls.get_sync_dir h).1 && (calls.download_dir_setup (calls.get_sync_dir h).0).1)

-- It returns before the lock, or it goes through the lock.
pub data Updates (calls : UpdateCalls) (granted unlinked : Bool) (h : Handle) (reached : Bool)
    (r : Handle) : Type 0 where
  returned : reached ≡ false → Kept h r → Updates calls granted unlinked h reached r
  went_on :
      (h' : Handle)
      → reached ≡ true
      → Kept h h'
      → r ≡ (locked_update unlinked calls.update_dbs (handle_lock_file granted h')).0
      → Updates calls granted unlinked h reached r

module _ (calls : UpdateCalls) (aloof : IsAloof calls) (granted unlinked : Bool) (h : Handle) where
  abbrev Goal : Bool → Handle → Type 0
  Goal reached r = Updates calls granted unlinked h reached r

  abbrev go_on : Handle → Handle × Bool
  go_on h' = locked_update unlinked calls.update_dbs (handle_lock_file granted h')

  second : (p : Handle × Bool) → Kept h p.0 → Goal p.1 (with_path p go_on).0
  second (h', true) k = Updates.went_on h' refl k refl
  second (h', false) k = Updates.returned refl k

  first :
      (p : Handle × Bool)
      → Kept h p.0
      → Goal
          (p.1 && (calls.download_dir_setup p.0).1)
          (with_path p (λ h'. with_path (calls.download_dir_setup h') go_on)).0
  first (h', true) k =
      second (calls.download_dir_setup h') (Kept-trans k (aloof.download_dir_setup h'))
  first (h', false) k = Updates.returned refl k

  pub db_update-Updates :
      (has_dbs : Bool)
      → Goal (gets_to_lock calls has_dbs (checked h)) (db_update calls has_dbs granted unlinked h).0
  unfolding db_update
  db_update-Updates false =
      Updates.returned refl (record { trans = refl; file = refl; lock = refl; disk = refl })
  db_update-Updates true =
      let k = aloof.get_sync_dir (checked h) in
      first (calls.get_sync_dir (checked h))
        (record { trans = k.trans; file = k.file; lock = k.lock; disk = k.disk })

-- Without a lock of its own a handle begins a transaction just where there is no lock file, and one
-- can be created, or where the transaction does not ask for it.
pub free-trans_init :
    (granted : Bool) (flags : TransFlags) (h : Handle)
    → h.trans ≡ none
    → h.lockfile ≡ true
    → h.locked ≡ false
    → (trans_init granted flags h).1 ≡ (flags.nolock || (granted && not h.on_disk))
unfolding trans_init handle_lock_file
free-trans_init granted flags h q f l =
    begun (checked h)
      (if flags.nolock then (checked h, true) else handle_lock_file granted (checked h))
      (record { flags = flags; state = initialized; add = []; remove = [] }) h.trans q
    ∙ taken f l
  where
    begun :
        (h : Handle) (locking : Handle × Bool) (new : Trans) (o : Option Trans)
        → o ≡ none
        → (init_with h locking new o).1 ≡ locking.1
    begun h (l, true) new none e = refl
    begun h (l, false) new none e = refl
    begun h l new (some t) e = cc

    taken :
        h.lockfile ≡ true
        → h.locked ≡ false
        → (if flags.nolock then (checked h, true) else handle_lock_file granted (checked h)).1
          ≡ (flags.nolock || (granted && not h.on_disk))
    taken f l = ground arith

-- `alpm_unlock` on a handle that holds the lock.
pub unlock-held :
    (unlinked : Bool) (h : Handle)
    → h.lockfile ≡ true
    → h.locked ≡ true
    → h.on_disk ≡ true
    → ((unlock unlinked h).trans ≡ h.trans)
      × ((unlock unlinked h).lockfile ≡ true)
      × ((unlock unlinked h).locked ≡ false)
      × ((unlock unlinked h).on_disk ≡ not unlinked)
unfolding unlock
unlock-held unlinked h f l d = rw f (rw l (refl, refl, refl, ap (λ x. x && not unlinked) d))

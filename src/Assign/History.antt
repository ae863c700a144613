-- ===== src/Assign/History.antt =====
-- Histories of the assignment table: every script and write of assign.go, one call after the other in
-- any order, from an empty server.
use sandboxd_teleport.Prelude.{
  ℕ, String, false, ◌<◌, ◌≡◌, refl, none, arith, Result, ok, err, List, [], ◌∷◌,
}
use sandboxd_teleport.Api.{SessionEntry, WorkerEntry}
use sandboxd_teleport.Valkey.{Valkey}
use sandboxd_teleport.Assign.Table.{Table, session, worker}
use sandboxd_teleport.Assign.Sessions.{
  put_session_cas, write_session, delete_session, stamp_active, suspend_due, checkpoint_due,
}
use sandboxd_teleport.Assign.Sessions.Due.{
  Indexed, put_session_cas-Indexed, delete_session-Indexed, stamp_active-Indexed,
}
use sandboxd_teleport.Assign.Sessions.Sweep.{suspend_due_lem, checkpoint_due_same}
use sandboxd_teleport.Assign.Workers.{
  upsert_worker, remove_worker, ensure_pool_member, claim_idle_worker, release_worker, pool_workers,
  register, bind_popped, collect,
}
use sandboxd_teleport.Assign.Workers.Binding.{
  Sound, InPool, upsert_worker-Sound, remove_worker-Sound, ensure_pool_member-Sound,
  release_worker-Sound,
}
use sandboxd_teleport.Assign.Workers.Claim.{claim_idle_worker-Claims, Claims}
use sandboxd_teleport.Assign.Workers.Pools.{pool_workers-Sound}

module _ (k : Valkey) where
  -- A server with no keys.
  pub record IsEmpty (t : Table k) : Type 0 where
    pub no_session : (sid : String) → session k t sid ≡ none
    pub no_worker : (pod : String) → worker k t pod ≡ none
    pub no_idle : (pool pod : String) → (k.sets).has t.idle_set pool pod ≡ false
    pub no_suspend : (sid : String) → (k.zset).score t.suspend_due sid ≡ none
    pub no_checkpoint : (sid : String) → (k.zset).score t.checkpoint_due sid ≡ none

  -- One call of the client, from its first command to its last with no other client's command in
  -- between: DeleteSession, the sweeps and PoolWorkers are several commands each. Times are after the epoch, and a caller names the pool that a worker's
  -- entry records.
  pub data Write : Table k → Table k → Type 0 where
    put : (now : ℕ) (e : SessionEntry) (t : Table k) → Write t (put_session_cas k now e t).1
    delete : (sid : String) (t : Table k) → Write t (delete_session k sid t)
    stamp : (sid : String) (now : ℕ) (t : Table k) → 0 < now → Write t (stamp_active k sid now t)
    sweep : (now : ℕ) (t : Table k) → Write t (suspend_due k now t).1
    recheck : (now : ℕ) (t : Table k) → Write t (checkpoint_due k now t).1
    upsert :
        (w : WorkerEntry) (t : Table k) → InPool k t w.pod w.pool → Write t (upsert_worker k w t)
    removal :
        (pod pool : String) (t : Table k)
        → InPool k t pod pool
        → Write t (remove_worker k pod pool t)
    ensure : (pod pool : String) (t : Table k) → Write t (ensure_pool_member k pod pool t)
    claim : (pool sid : String) (t : Table k) → Write t (claim_idle_worker k pool sid t).1
    release :
        (pod pool : String) (t : Table k)
        → InPool k t pod pool
        → Write t (release_worker k pod pool t)
    count : (pool : String) (t : Table k) → Write t (pool_workers k pool t).1

  pub data Reach (t : Table k) : Table k → Type 0 where
    here : Reach t t
    next : {u x : Table k} → Reach t u → Write u x → Reach t x

  pub record InOrder (t : Table k) : Type 0 where
    pub indexed : Indexed k t
    pub sound : Sound k t

  -- What an operation on the other half of the table leaves alone.
  same_workers :
      (t u : Table k)
      → u.workers ≡ t.workers
      → u.idle_set ≡ t.idle_set
      → u.all_set ≡ t.all_set
      → Sound k t
      → Sound k u
  same_workers t u w i a v = record {
    offers = λ pool pod. rw (i, w) (v.offers pool pod);
    member = λ pod x h. rw a (v.member pod x (rw w at h));
  }

  same_sessions :
      (t u : Table k)
      → u.sessions ≡ t.sessions
      → u.suspend_due ≡ t.suspend_due
      → u.checkpoint_due ≡ t.checkpoint_due
      → Indexed k t
      → Indexed k u
  same_sessions t u s d c v = record {
    keyed = λ sid e h. v.keyed sid e (rw s at h);
    suspend = λ sid. rw (s, d) (v.suspend sid);
    checkpoint = λ sid. rw (s, c) (v.checkpoint sid);
  }

  claim-Sound :
      (t : Table k) (pool sid : String) (r : Result WorkerEntry × Table k)
      → Sound k t
      → Claims k t pool sid r
      → Sound k r.1
  claim-Sound t pool sid (ok w, u) v c = c.sound
  claim-Sound t pool sid (err e, u) v c = rw (c.1) v

  abbrev pub SameSessions : Table k → Table k → Type 0
  SameSessions t u =
      (u.sessions ≡ t.sessions)
      × (u.suspend_due ≡ t.suspend_due)
      × (u.checkpoint_due ≡ t.checkpoint_due)

  abbrev pub SameWorkers : Table k → Table k → Type 0
  SameWorkers t u = (u.workers ≡ t.workers) × (u.idle_set ≡ t.idle_set) × (u.all_set ≡ t.all_set)

  pub keep-Indexed : (t u : Table k) → SameSessions t u → Indexed k t → Indexed k u
  keep-Indexed t u s v = same_sessions t u s.0 s.1 s.2 v

  pub keep-Sound : (t u : Table k) → SameWorkers t u → Sound k t → Sound k u
  keep-Sound t u s v = same_workers t u s.0 s.1 s.2 v

  upsert_sessions : (w : WorkerEntry) (t : Table k) → SameSessions t (upsert_worker k w t)
  unfolding upsert_worker register
  upsert_sessions w t = ground arith

  pub claim_sessions :
      (pool sid : String) (t : Table k) → SameSessions t (claim_idle_worker k pool sid t).1
  unfolding claim_idle_worker bind_popped
  claim_sessions pool sid t = ground arith

  pub release_sessions :
      (pod pool : String) (t : Table k) → SameSessions t (release_worker k pod pool t)
  unfolding release_worker
  release_sessions pod pool t = ground arith

  collect_sessions :
      (pool : String) (pods : List String) (t : Table k) → SameSessions t (collect k pool pods t).1
  unfolding collect
  collect_sessions pool [] t = (refl, refl, refl)
  collect_sessions pool (pod ∷ pods) t = ground (
    arith,
    collect_sessions pool pods t,
    collect_sessions pool pods (record t { all_set = (k.sets).srem t.all_set pool pod }),
  )

  pool_sessions : (pool : String) (t : Table k) → SameSessions t (pool_workers k pool t).1
  unfolding pool_workers
  pool_sessions pool t = collect_sessions pool ((k.sets).smembers t.all_set pool) t

  put_workers :
      (now : ℕ) (e : SessionEntry) (t : Table k) → SameWorkers t (put_session_cas k now e t).1
  unfolding put_session_cas write_session
  put_workers now e t = ground arith

  stamp_workers : (sid : String) (now : ℕ) (t : Table k) → SameWorkers t (stamp_active k sid now t)
  unfolding stamp_active
  stamp_workers sid now t = ground arith

  Write-InOrder : {t u : Table k} → Write t u → InOrder t → InOrder u
  unfolding delete_session remove_worker ensure_pool_member suspend_due
  Write-InOrder (put now e t) v = record {
    indexed = put_session_cas-Indexed k now e t v.indexed;
    sound = keep-Sound t _ (put_workers now e t) v.sound;
  }
  Write-InOrder (delete sid t) v = record {
    indexed = delete_session-Indexed k sid t v.indexed;
    sound = keep-Sound t _ (refl, refl, refl) v.sound;
  }
  Write-InOrder (stamp sid now t pos) v = record {
    indexed = stamp_active-Indexed k sid now t pos v.indexed;
    sound = keep-Sound t _ (stamp_workers sid now t) v.sound;
  }
  Write-InOrder (sweep now t) v = record {
    indexed = rw ((suspend_due_lem k t now v.indexed).2) (v.indexed);
    sound = keep-Sound t _ (refl, refl, refl) v.sound;
  }
  Write-InOrder (recheck now t) v = rw (checkpoint_due_same k t now v.indexed) v
  Write-InOrder (upsert w t same) v = record {
    indexed = keep-Indexed t _ (upsert_sessions w t) v.indexed;
    sound = upsert_worker-Sound k t v.sound w same;
  }
  Write-InOrder (removal pod pool t same) v = record {
    indexed = keep-Indexed t _ (refl, refl, refl) v.indexed;
    sound = remove_worker-Sound k t v.sound pod pool same;
  }
  Write-InOrder (ensure pod pool t) v = record {
    indexed = keep-Indexed t _ (refl, refl, refl) v.indexed;
    sound = ensure_pool_member-Sound k t v.sound pod pool;
  }
  Write-InOrder (claim pool sid t) v = record {
    indexed = keep-Indexed t _ (claim_sessions pool sid t) v.indexed;
    sound =
        claim-Sound t pool sid (claim_idle_worker k pool sid t) v.sound
          (claim_idle_worker-Claims k t pool sid v.sound);
  }
  Write-InOrder (release pod pool t same) v = record {
    indexed = keep-Indexed t _ (release_sessions pod pool t) v.indexed;
    sound = release_worker-Sound k t v.sound pod pool same;
  }
  Write-InOrder (count pool t) v = record {
    indexed = keep-Indexed t _ (pool_sessions pool t) v.indexed;
    sound = pool_workers-Sound k pool t v.sound;
  }

  IsEmpty-InOrder : (t : Table k) → IsEmpty t → InOrder t
  IsEmpty-InOrder t n = record {
    indexed = record {
      keyed = λ sid e h. ground (arith, n.no_session sid);
      suspend = λ sid. ground (arith, n.no_session sid, n.no_suspend sid);
      checkpoint = λ sid. ground (arith, n.no_session sid, n.no_checkpoint sid);
    };
    sound = record {
      offers = λ pool pod. ground (arith, n.no_worker pod, n.no_idle pool pod);
      member = λ pod w h. ground (arith, n.no_worker pod);
    };
  }

  Reach-InOrder : {t u : Table k} → InOrder t → Reach t u → InOrder u
  Reach-InOrder v here = v
  Reach-InOrder v (next r w) = Write-InOrder w (Reach-InOrder v r)

  -- After any history of calls from an empty server, each of which ends before the next begins, the
  -- table is in order: the suspend index holds
  -- exactly the deadlines that the entries ask for, the checkpoint index exactly the sessions that
  -- ask for one, and each pool's idle set exactly its idle workers. Stamps are after the epoch, and
  -- a call that names a worker's pool names the one that its entry records.
  pub Reach-empty-InOrder : {t u : Table k} → IsEmpty t → Reach t u → InOrder u
  Reach-empty-InOrder {t} n r = Reach-InOrder (IsEmpty-InOrder t n) r

-- ===== src/Resume/Suspend/Terminate.antt =====
-- SuspendForTerminate and ReleaseForDelete, whatever other clients do meanwhile.
use sandboxd_teleport.Prelude.{
  String, ◌&&◌, true, false, worker_failed, ◌≡◌, refl, subst, inl, inr, Option, none, some, Error,
  Result, ok, err, arith, str_eq, eq_iff, Option-cases, if_case,
}
use mathlib.Core.Option
use sandboxd_teleport.Api.{SessionEntry, WorkerEntry, is_running}
use sandboxd_teleport.Valkey.{Valkey}
use sandboxd_teleport.Assign.Table.{Table, session, worker}
use sandboxd_teleport.Assign.Sessions.{delete_session}
use sandboxd_teleport.Assign.Workers.{release_worker, remove_worker, freed}
use sandboxd_teleport.Assign.Workers.Pools.{release_worker_offers}
use sandboxd_teleport.Assign.Sessions.Due.{is_some}
use sandboxd_teleport.Resume.Types.{Plane, World, notify, mark_suspending, mark_suspended}
use sandboxd_teleport.Resume.Suspend.{
  begin_suspend, record_snapshot, forget, release, cas_existing, and_then, checkpoint_out,
  drop_worker, suspend_for_terminate, free_bound, release_found, release_for_delete, is_cut_off,
}

module _ (k : Valkey) (w : World k) where
  -- The worker has no entry, and the pool does not know the pod.
  abbrev pub Gone : String → String → Table k → Type 0
  Gone pod pool t =
      (worker k t pod ≡ none)
      × ((k.sets).has t.idle_set pool pod ≡ false)
      × ((k.sets).has t.all_set pool pod ≡ false)

  abbrev GoneIfDone : String → String → Option Error × Plane k → Type 0
  GoneIfDone pod pool (none, q) = Gone pod pool q.table
  GoneIfDone pod pool (some x, q) = Unit

  drop_worker-Gone :
      (pod pool : String) (p : Plane k) → GoneIfDone pod pool (drop_worker k w pod pool p)
  unfolding drop_worker remove_worker
  drop_worker-Gone pod pool p = (
    ground (arith, (k.strings WorkerEntry).get-del p.table.workers pod pod, eq_iff pod pod),
    ground (
      arith,
      (k.sets).has-srem p.table.idle_set pool pod pool pod,
      eq_iff pod pod,
      eq_iff pool pool,
    ),
    ground (
      arith,
      (k.sets).has-srem p.table.all_set pool pod pool pod,
      eq_iff pod pod,
      eq_iff pool pool,
    ),
  )

  and_then-Gone :
      (pod pool : String) (r : Result SessionEntry × Plane k)
      (step : Plane k → Option Error × Plane k)
      → ((q : Plane k) → GoneIfDone pod pool (step q))
      → GoneIfDone pod pool (and_then k w r step)
  and_then-Gone pod pool (ok e, q) step h = h q
  and_then-Gone pod pool (err x, q) step h = tt

  checkpoint_out-Gone :
      (pod pool sid ip : String) (p : Plane k)
      → GoneIfDone pod pool (checkpoint_out k w sid ip (drop_worker k w pod pool) p)
  unfolding checkpoint_out
  checkpoint_out-Gone pod pool sid ip p = elim (Option-cases (w.fleet.suspend ip sid)) [
    | inl fails ↦ rw (fails, checkpoint_out) tt
    | inr (resp, answers) ↦
        rw (answers, checkpoint_out)
          (and_then-Gone pod pool (cas_existing k w mark_suspended sid (record_snapshot resp) p) _
            (drop_worker-Gone pod pool))
  ]

  terminate-Gone :
      (sid pod ip pool : String) (p : Plane k)
      → GoneIfDone pod pool (suspend_for_terminate k w sid pod ip pool p)
  unfolding suspend_for_terminate
  terminate-Gone sid pod ip pool p = elim (Option-cases (session k p.table sid)) [
    | inl gone ↦ rw (gone, suspend_for_terminate) (drop_worker-Gone pod pool p)
    | inr (cur, found) ↦
        rw (found, suspend_for_terminate)
          (if_case (GoneIfDone pod pool) (is_running cur.state && str_eq cur.worker_pod pod) _ _
            (λ _.
              and_then-Gone pod pool (cas_existing k w mark_suspending sid begin_suspend p) _
                (checkpoint_out-Gone pod pool sid ip))
            (λ _. drop_worker-Gone pod pool p))
  ]

  -- Where SuspendForTerminate returns no error, the worker that terminates has no entry, and its pool
  -- neither offers it nor counts it.
  pub suspend_for_terminate-Gone :
      (sid pod ip pool : String) (p : Plane k)
      → (suspend_for_terminate k w sid pod ip pool p).0 ≡ none
      → Gone pod pool (suspend_for_terminate k w sid pod ip pool p).1.table
  suspend_for_terminate-Gone sid pod ip pool p h =
      subst (λ x. GoneIfDone pod pool (x, (suspend_for_terminate k w sid pod ip pool p).1)) h
        (terminate-Gone sid pod ip pool p)

  -- The session has no entry and no deadline.
  abbrev pub Forgotten : String → Table k → Type 0
  Forgotten sid t =
      (session k t sid ≡ none)
      × ((k.zset).score t.suspend_due sid ≡ none)
      × ((k.zset).score t.checkpoint_due sid ≡ none)

  delete_session-Forgotten : (sid : String) (t : Table k) → Forgotten sid (delete_session k sid t)
  unfolding delete_session
  delete_session-Forgotten sid t = (
    ground (arith, (k.strings SessionEntry).get-del t.sessions sid sid, eq_iff sid sid),
    ground (arith, (k.zset).score-zrem t.suspend_due sid sid, eq_iff sid sid),
    ground (arith, (k.zset).score-zrem t.checkpoint_due sid sid, eq_iff sid sid),
  )

  release_again :
      (sid : String) (p : Plane k)
      → session k p.table sid ≡ none
      → release_for_delete k w sid p ≡ (none, p)
  unfolding release_for_delete
  release_again sid p gone = rw (gone, release_for_delete)

  released :
      (sid : String) (e : SessionEntry) (p : Plane k)
      → session k p.table sid ≡ some e
      → str_eq e.worker_pod "" ≡ false
      → is_cut_off k w e ≡ false
      → release_for_delete k w sid p ≡ (none, forget sid (release e.worker_pod e.pool p))
  unfolding release_for_delete release_found free_bound
  released sid e p at bound reached = rw (at, release_for_delete) (rw (bound, reached) refl)

  cut_off :
      (sid : String) (e : SessionEntry) (p : Plane k)
      → session k p.table sid ≡ some e
      → str_eq e.worker_pod "" ≡ false
      → is_cut_off k w e ≡ true
      → release_for_delete k w sid p ≡ (some worker_failed, notify e.pool p)
  unfolding release_for_delete release_found
  cut_off sid e p at bound late = rw (at, release_for_delete) (rw (bound, late) refl)

  -- ReleaseForDelete of a session that is bound to a worker. Where the worker's /reset ends before the
  -- deadline, also with an error, the call succeeds: the session has no entry and no deadline, and the
  -- worker's entry, if there is one, is idle and offered by the session's pool; a second call changes
  -- nothing. Where the worker does not answer before the deadline, the call fails and the table stays
  -- as it is, so that the worker is bound to a session that is being deleted.
  pub release_for_delete_lem :
      (sid : String) (e : SessionEntry) (p : Plane k)
      → session k p.table sid ≡ some e
      → str_eq e.worker_pod "" ≡ false
      → let r = release_for_delete k w sid p in
        (is_cut_off k w e ≡ false
          → (r.0 ≡ none)
            × Forgotten sid r.1.table
            × (worker k r.1.table e.worker_pod ≡ Option.map freed (worker k p.table e.worker_pod))
            × ((k.sets).has r.1.table.idle_set e.pool e.worker_pod
                ≡ is_some (worker k p.table e.worker_pod))
            × (release_for_delete k w sid r.1 ≡ (none, r.1)))
        × (is_cut_off k w e ≡ true → (r.0 ≡ some worker_failed) × (r.1.table ≡ p.table))
  unfolding release forget delete_session
  release_for_delete_lem sid e p at bound =
      let t = release_worker k e.worker_pod e.pool p.table in
      let done = delete_session-Forgotten sid t in
      let (offers, frees) = release_worker_offers k p.table e.worker_pod e.pool in
      (
        λ reached.
            rw (released sid e p at bound reached)
              (refl, done, frees, offers, release_again sid _ done.0),
        λ late. rw (cut_off sid e p at bound late) (refl, refl),
      )

-- ===== src/Resume/Suspend.antt =====
-- suspend.go: the Suspender. An error is `some`, the source's nil is `none`.
pub mod Quiet
pub mod Terminate
pub mod Teleport
use sandboxd_teleport.Prelude.{
  ℕ, String, Bool, ◌+◌, not, ◌&&◌, ◌||◌, Option, none, some, List, [], ◌∷◌, str_eq, if◌then◌else◌,
  Error, transient, worker_failed, Result, ok, err,
}
use sandboxd_teleport.Api.{
  SessionEntry, SnapshotResponse, suspended, suspending, is_running, is_resuming, is_suspending,
}
use sandboxd_teleport.Valkey.{Valkey}
use sandboxd_teleport.Assign.Table.{session}
use sandboxd_teleport.Assign.Sessions.{delete_session, suspend_due}
use sandboxd_teleport.Assign.Workers.{release_worker, remove_worker}
use sandboxd_teleport.Resume.Types.{
  Plane, World, Phase, mark_suspending, mark_suspended, notify, mirror_if_durable, erased,
}
use sandboxd_teleport.Resume.Cas.{cas_session}
use sandboxd_teleport.Resume.Plan.{or_text}

unfoldable pub begin_suspend : SessionEntry → SessionEntry
begin_suspend e = record e { state = suspending }

-- The change that records a checkpoint: an image only where the worker names one.
unfoldable pub record_snapshot : SnapshotResponse → SessionEntry → SessionEntry
record_snapshot resp e = record e {
  state = suspended;
  snapshot = resp.snapshot;
  runtime = resp.runtime;
  engine_version = resp.engine_version;
  image = or_text resp.image e.image;
  worker_pod = "";
  worker_ip = "";
}

-- DeleteSession, and Delete of the mirror.
unfoldable pub forget : {k : Valkey} → String → Plane k → Plane k
forget {k} sid p = record p { table = delete_session k sid p.table; mirror = erased sid ∷ p.mirror }

-- ReleaseWorker, and the notification of its pool.
unfoldable pub release : {k : Valkey} → String → String → Plane k → Plane k
release {k} pod pool p = notify pool (record p { table = release_worker k pod pool p.table })

module _ (k : Valkey) (w : World k) where
  -- casSession of the Suspender, with the mirror.
  unfoldable pub cas_existing :
      Phase → String → (SessionEntry → SessionEntry) → Plane k → Result SessionEntry × Plane k
  cas_existing phase sid mutate p =
      let (r, u) = cas_session k w.now (w.others phase) sid mutate p.table in
      elim r [
        | ok e ↦ (ok e, mirror_if_durable e (record p { table = u }))
        | err x ↦ (err x, record p { table = u })
      ]

  -- Run a step after a compare-and-set, where that succeeds.
  abbrev pub and_then :
      Result SessionEntry × Plane k → (Plane k → Option Error × Plane k) → Option Error × Plane k
  and_then (ok e, q) step = step q
  and_then (err x, q) step = (some x, q)

  -- The worker's /suspend, and the record of its checkpoint; `finish` is what follows.
  unfoldable pub checkpoint_out :
      String → String → (Plane k → Option Error × Plane k) → Plane k → Option Error × Plane k
  unfolding cas_existing
  checkpoint_out sid ip finish p = elim (w.fleet.suspend ip sid) [
    | none ↦ (some worker_failed, p)
    | some resp ↦ and_then (cas_existing mark_suspended sid (record_snapshot resp) p) finish
  ]

  -- The reset: discard the sandbox, free the worker and forget the session.
  unfoldable pub discard : SessionEntry → Plane k → Option Error × Plane k
  discard e p =
      if w.fleet.reset e.worker_ip e.sid
      then (none, forget e.sid (release e.worker_pod e.pool p))
      else (some worker_failed, p)

  unfoldable pub suspend_one : SessionEntry → String → Plane k → Option Error × Plane k
  unfolding cas_existing checkpoint_out discard
  suspend_one e action p = and_then (cas_existing mark_suspending e.sid begin_suspend p) (λ q.
      if str_eq action "reset"
      then discard e q
      else checkpoint_out e.sid e.worker_ip (λ x. (none, release e.worker_pod e.pool x)) q)

  -- SuspendNow once the entry is read.
  unfoldable pub suspend_entry : SessionEntry → Plane k → Option Error × Plane k
  unfolding suspend_one
  suspend_entry e p =
      if is_resuming e.state || is_suspending e.state
      then (some transient, p)
      else if is_running e.state && not (str_eq e.worker_ip "")
      then suspend_one e "suspend" p
      else (none, p)

  unfoldable pub suspend_now : String → Plane k → Option Error × Plane k
  unfolding suspend_entry
  suspend_now sid p = elim (session k p.table sid) [ none ↦ (none, p) | some e ↦ suspend_entry e p ]

  -- The worker is removed, not released: its pod is going away.
  unfoldable pub drop_worker : String → String → Plane k → Option Error × Plane k
  drop_worker pod pool p =
      (none, notify pool (record p { table = remove_worker k pod pool p.table }))

  unfoldable pub suspend_for_terminate :
      String → String → String → String → Plane k → Option Error × Plane k
  unfolding cas_existing checkpoint_out drop_worker
  suspend_for_terminate sid pod ip pool p = elim (session k p.table sid) [
    | none ↦ drop_worker pod pool p
    | some cur ↦
        if is_running cur.state && str_eq cur.worker_pod pod
        then and_then (cas_existing mark_suspending sid begin_suspend p)
            (λ q. checkpoint_out sid ip (drop_worker pod pool) q)
        else drop_worker pod pool p
  ]

  -- Whether the /reset of a deleted session's worker failed after the deadline of the call: the later
  -- calls to the server, which share it, then fail.
  unfoldable pub is_cut_off : SessionEntry → Bool
  is_cut_off e = not (str_eq e.worker_ip "") && not (w.fleet.reset e.worker_ip e.sid) && w.late

  -- The worker of a session that is deleted: a /reset that fails in time is passed over, and the
  -- worker is released.
  unfoldable pub free_bound : SessionEntry → Plane k → Plane k
  free_bound e p = if str_eq e.worker_pod "" then p else release e.worker_pod e.pool p

  unfoldable pub release_found : String → SessionEntry → Plane k → Option Error × Plane k
  unfolding is_cut_off free_bound
  release_found sid e p =
      if not (str_eq e.worker_pod "") && is_cut_off e
      then (some worker_failed, notify e.pool p)
      else (none, forget sid (free_bound e p))

  unfoldable pub release_for_delete : String → Plane k → Option Error × Plane k
  unfolding release_found
  release_for_delete sid p = elim (session k p.table sid) [
    | none ↦ (none, p)
    | some e ↦ release_found sid e p
  ]

  -- One session of the sweep: whether it was acted on.
  unfoldable pub sweep_session : (String → Option String) → SessionEntry → Plane k → ℕ × Plane k
  unfolding suspend_one
  sweep_session policy e p =
      if is_running e.state && not (str_eq e.worker_ip "")
      then elim (policy e.sid) [
        | none ↦ (0, p)
        | some action ↦
            if str_eq action "none" || str_eq action ""
            then (0, p)
            else (let (failed, q) = suspend_one e action p in
                (elim failed [ none ↦ 1 | some x ↦ 0 ], q))
      ]
      else (0, p)

  unfoldable pub sweep_sessions :
      (String → Option String) → List SessionEntry → Plane k → ℕ × Plane k
  unfolding sweep_session
  sweep_sessions policy [] p = (0, p)
  sweep_sessions policy (e ∷ es) p =
      let (n, q) = sweep_session policy e p in let (m, r) = sweep_sessions policy es q in (n + m, r)

  -- SweepOnce: the sessions that are due, one after the other.
  unfoldable pub sweep_once : (String → Option String) → Plane k → ℕ × Plane k
  unfolding sweep_sessions
  sweep_once policy p =
      let (es, t) = suspend_due k w.now p.table in sweep_sessions policy es (record p { table = t })

-- ===== src/Resume/Suspend/Teleport.antt =====
-- Suspend, then resume: what a session that is put to sleep comes back as, and what happens to one
-- whose checkpoint failed.
use sandboxd_teleport.Prelude.{
  ℕ, String, true, false, ◌≡◌, refl, ◌∙◌, none, some, Result, ok, err, arith, str_eq, eq_iff,
  transient, listed,
}
use sandboxd_teleport.Api.{
  SessionEntry, WorkerEntry, SnapshotResponse, RestoreRequest, running, suspended,
}
use sandboxd_teleport.Valkey.{Valkey}
use sandboxd_teleport.Assign.Table.{session, worker}
use sandboxd_teleport.Assign.Sessions.{suspend_due}
use sandboxd_teleport.Assign.Sessions.Sweep.{suspend_due_lem, sids}
use sandboxd_teleport.Assign.Workers.Binding.{offered, InPool}
use sandboxd_teleport.Assign.History.{InOrder}
use sandboxd_teleport.Resume.Types.{Plane, World, wait_ready}
use sandboxd_teleport.Resume.Plan.{restore_spec}
use sandboxd_teleport.Resume.Start.{
  claim_and_start, drive, restore_request, bind_running, bind_resuming, rollback_to_suspended,
}
use sandboxd_teleport.Resume.Start.Quiet.{IsQuiet, Starts}
use sandboxd_teleport.Resume.Start.Cases.{claim_and_start_cases, begun}
use sandboxd_teleport.Resume.Cas.Laws.{read_stored}
use sandboxd_teleport.Resume.Workflow.{
  resume, resume_entry, resume_from_snapshot, is_live, demote, can_restore, restore,
}
use sandboxd_teleport.Resume.Suspend.{suspend_now, suspend_entry, record_snapshot, begin_suspend}
use sandboxd_teleport.Resume.Suspend.Quiet.{suspend_now_lem, suspend_now_failed, asleep, leaving}

-- The session runs at the address, from the snapshot.
abbrev pub RunsFrom : (k : Valkey) → String → String → String → Plane k → Type 0
RunsFrom k sid snapshot ip q =
    (e : SessionEntry) × (session k q.table sid ≡ some e)
    × (e.state ≡ running)
    × (e.worker_ip ≡ ip)
    × (e.snapshot ≡ snapshot)

-- The answer is an address, at which the session runs from the snapshot.
abbrev pub RestoresTo : (k : Valkey) → String → String → Result String × Plane k → Type 0
RestoresTo k sid snapshot (ok ip, q) = RunsFrom k sid snapshot ip q
RestoresTo k sid snapshot (err x, q) = ⊥

module _ (k : Valkey) (w : World k) (quiet : IsQuiet k w) where
  -- Every worker restores the snapshot, and is ready in time.
  abbrev pub Restores : String → Type 0
  Restores snapshot =
      ((ip : String) (r : RestoreRequest) → r.snapshot ≡ snapshot → w.fleet.restore ip r ≡ true)
      × ((ip sid : String) → wait_ready (w.fleet.polls ip sid) ≡ true)

  drive-Restores :
      (sid : String) (v : WorkerEntry) (e : SessionEntry)
      → Restores e.snapshot
      → drive k w sid v (restore_spec e) ≡ true
  unfolding drive restore_spec restore_request
  drive-Restores sid v e (restores, ready) =
      rw (restores v.pod_ip (restore_request sid (restore_spec e)) refl, ready v.pod_ip sid) refl

  started_RunsFrom :
      (sid : String) (e : SessionEntry) (v : WorkerEntry) (p q : Plane k)
      → Starts k w quiet sid v (restore_spec e) e p (ok v.pod_ip, q)
      → RunsFrom k sid e.snapshot v.pod_ip q
  unfolding bind_running bind_resuming
  started_RunsFrom sid e v p q s = (_, (s.1).at, refl, refl, refl)

  -- A suspended session with a snapshot is restored wherever its pool has an idle worker.
  module _ (p : Plane k) (e : SessionEntry) (v : InOrder k p.table)
      (at : session k p.table e.sid ≡ some e) (sleeping : e.state ≡ suspended)
      (kept : str_eq e.snapshot "" ≡ false) (pooled : str_eq e.pool "" ≡ false)
      (slot : w.slot ≡ true) (restores : Restores e.snapshot) (pod : String)
      (spare : offered e.pool (worker k p.table pod) ≡ true) where
    claim_RestoresTo :
        RestoresTo k e.sid e.snapshot
          (claim_and_start k w e.pool e.sid (restore_spec e) (rollback_to_suspended k w e.sid) p)
    unfolding restore_spec
    claim_RestoresTo =
        claim_and_start_cases k w quiet e.sid (restore_spec e) (rollback_to_suspended k w e.sid)
          (RestoresTo k e.sid e.snapshot) e.pool p v.indexed v.sound
          (read_stored k p.table e.sid v.indexed (ok e) e at).1
          (λ none_idle. ground (arith, none_idle pod, spare))
          (λ c u q took st. started_RunsFrom e.sid e c (begun k c u p) q st)
          (λ c u x q took st. ground (arith, st.1, drive-Restores e.sid c e restores))

    asleep_not_live : is_live k e.sid p.table e ≡ false
    unfolding is_live
    asleep_not_live = ground (arith, sleeping)

    asleep_demote : demote e ≡ e
    unfolding demote
    asleep_demote = ground (arith, sleeping)

    asleep_can_restore : can_restore e ≡ true
    unfolding can_restore
    asleep_can_restore = ground (arith, sleeping, kept)

    resume_claims :
        (subject pool app : String)
        → resume k w e.sid subject pool app p ≡ (
            let (r, q) =
              claim_and_start k w e.pool e.sid
                (restore_spec e)
                (rollback_to_suspended k w e.sid)
                p in
            (record { answer = r; kind = restore; fast = false }, q))
    unfolding resume resume_entry resume_from_snapshot
    resume_claims subject pool app =
        rw (at, resume)
          (rw (asleep_not_live, asleep_demote, resume_entry)
            (rw (slot, asleep_can_restore, resume_from_snapshot) (rw pooled)))

    pub resume-RestoresTo :
        (subject pool app : String)
        → RestoresTo k e.sid e.snapshot (
          (resume k w e.sid subject pool app p).0.answer,
          (resume k w e.sid subject pool app p).1,
        )
    resume-RestoresTo subject pool app = rw (resume_claims subject pool app) claim_RestoresTo

  -- SuspendNow, then Resume, with no other client at work, on a table in order, for a session that
  -- is Running on a worker of its pool, where the worker makes a checkpoint, a resume slot is free
  -- and every worker restores that checkpoint: the resume answers with an address, and the session
  -- is Running there from that checkpoint.
  pub suspend_now-resume :
      (e : SessionEntry) (p : Plane k) (c : WorkerEntry) (resp : SnapshotResponse)
      → InOrder k p.table
      → session k p.table e.sid ≡ some e
      → e.state ≡ running
      → str_eq e.worker_ip "" ≡ false
      → str_eq e.pool "" ≡ false
      → worker k p.table e.worker_pod ≡ some c
      → c.pool ≡ e.pool
      → w.fleet.suspend e.worker_ip e.sid ≡ some resp
      → str_eq resp.snapshot "" ≡ false
      → w.slot ≡ true
      → Restores resp.snapshot
      → (subject pool app : String)
      → let (r, q) = resume k w e.sid subject pool app (suspend_now k w e.sid p).1 in
        RestoresTo k e.sid resp.snapshot (r.answer, q)
  unfolding record_snapshot begin_suspend
  suspend_now-resume e p c resp v at awake bound pooled found own answers kept slot restores subject
        pool app =
      let slept = (suspend_now_lem k w quiet e p v at awake bound resp answers).1 in
      let own_pool : InPool k p.table e.worker_pod e.pool =
        λ d same. ground (arith, found, own, same) in
      let order : InOrder k (suspend_now k w e.sid p).1.table = record {
        indexed = slept.indexed;
        sound = slept.sound own_pool;
      } in
      resume-RestoresTo (suspend_now k w e.sid p).1 (asleep resp e) order slept.recorded refl kept
        pooled slot restores e.worker_pod
        (ground (arith, slept.freed_worker, found, own, eq_iff c.pool e.pool)) subject pool app

  leaving_again :
      (e : SessionEntry) (w' : World k) (q : Plane k)
      → session k q.table e.sid ≡ some (leaving e)
      → suspend_now k w' e.sid q ≡ (some transient, q)
  unfolding suspend_now suspend_entry begin_suspend
  leaving_again e w' q found = rw (found, suspend_now)

  -- A session that is Running on a worker and whose checkpoint fails is stuck: it is Suspending,
  -- every later SuspendNow asks to try again and changes nothing, and the sweep of idle sessions
  -- does not see it. The table is in order and no other client is at work during the first call.
  pub suspend_now_stuck :
      (e : SessionEntry) (p : Plane k)
      → InOrder k p.table
      → session k p.table e.sid ≡ some e
      → e.state ≡ running
      → str_eq e.worker_ip "" ≡ false
      → w.fleet.suspend e.worker_ip e.sid ≡ none
      → let q = (suspend_now k w e.sid p).1 in
        (session k q.table e.sid ≡ some (leaving e))
        × ((w' : World k) → suspend_now k w' e.sid q ≡ (some transient, q))
        × ((now : ℕ) → listed e.sid (sids (suspend_due k now q.table).0) ≡ false)
  unfolding begin_suspend
  suspend_now_stuck e p v at awake bound fails =
      let m = (suspend_now_failed k w quiet e p v at awake bound fails).1 in
      (
        m.at,
        λ w'. leaving_again e w' (suspend_now k w e.sid p).1 m.at,
        λ now.
            (suspend_due_lem k (suspend_now k w e.sid p).1.table now m.indexed).0 e.sid ∙ rw (m.at),
      )

-- ===== src/Resume/Start.antt =====
-- resume.go: startAndBind on a claimed worker, and what undoes it.
pub mod Quiet
pub mod Cases
pub mod Revived
use sandboxd_teleport.Prelude.{
  String, Bool, not, ◌&&◌, Option, none, some, str_eq, if◌then◌else◌, worker_failed, Result, ok,
  err,
}
use sandboxd_teleport.Api.{
  SessionEntry, WorkerEntry, RunRequest, RestoreRequest, running, suspended, resuming, is_resuming,
}
use sandboxd_teleport.Valkey.{Valkey}
use sandboxd_teleport.Assign.Workers.{claim_idle_worker, release_worker}
use sandboxd_teleport.Resume.Types.{
  BindSpec, Plane, World, Phase, mark_resuming, mark_running, roll_back, notify, mirror_if_durable,
  wait_ready,
}
use sandboxd_teleport.Resume.Cas.{cas_session_seed}
use sandboxd_teleport.Resume.Plan.{or_text}

-- The change that records Resuming: `health` and `iam_role` only where they are set.
unfoldable pub bind_resuming : WorkerEntry → BindSpec → SessionEntry → SessionEntry
bind_resuming w b e = record e {
  state = resuming;
  pool = w.pool;
  worker_pod = w.pod;
  worker_ip = w.pod_ip;
  image = b.image;
  ports = b.ports;
  health = elim b.health [ none ↦ e.health | some h ↦ some h ];
  iam_role = or_text b.iam_role e.iam_role;
  egress = b.egress;
  ingress = b.ingress;
  idle_timeout = b.idle_timeout;
  checkpoint_interval = b.checkpoint_interval;
}

unfoldable pub bind_running : WorkerEntry → SessionEntry → SessionEntry
bind_running w e = record e { state = running; worker_ip = w.pod_ip }

-- The change of rollbackToSuspended: only where the entry is still Resuming and can be restored.
unfoldable pub unbind : SessionEntry → SessionEntry
unbind e =
    if is_resuming e.state && not (str_eq e.snapshot "")
    then record e { state = suspended; worker_pod = ""; worker_ip = "" }
    else e

unfoldable pub run_request : String → BindSpec → RunRequest
run_request sid b = record {
  sandbox_id = sid;
  image = b.image;
  cmd = b.cmd;
  env = b.env;
  ports = b.ports;
  health = b.health;
  iam_role = b.iam_role;
  egress = b.egress;
  ingress = b.ingress;
}

unfoldable pub restore_request : String → BindSpec → RestoreRequest
restore_request sid b = record {
  sandbox_id = sid;
  image = b.image;
  snapshot = b.snapshot;
  runtime = b.runtime;
  engine_version = b.engine_version;
  ports = b.ports;
  health = b.health;
  iam_role = b.iam_role;
  egress = b.egress;
  ingress = b.ingress;
}

module _ (k : Valkey) (w : World k) where
  -- A compare-and-set on the session, and the mirror when it succeeds.
  unfoldable pub cas_mirrored :
      Phase
      → String
      → Option SessionEntry
      → (SessionEntry → SessionEntry)
      → Plane k
      → Result SessionEntry × Plane k
  cas_mirrored phase sid seed mutate p =
      let (r, u) = cas_session_seed k w.now (w.others phase) sid seed mutate p.table in
      elim r [
        | ok e ↦ (ok e, mirror_if_durable e (record p { table = u }))
        | err x ↦ (err x, record p { table = u })
      ]

  -- The worker's part: /restore or /run, then wait until the sandbox is ready.
  unfoldable pub drive : String → WorkerEntry → BindSpec → Bool
  unfolding run_request restore_request
  drive sid v b =
      (if b.restore
        then w.fleet.restore v.pod_ip (restore_request sid b)
        else w.fleet.run v.pod_ip (run_request sid b))
      && wait_ready (w.fleet.polls v.pod_ip sid)

  -- The end of startAndBind: the worker is driven, and Running is recorded.
  unfoldable pub drive_and_bind :
      String → WorkerEntry → BindSpec → Plane k → Result String × Plane k
  drive_and_bind sid v b p =
      if drive sid v b
      then (let (r, q) = cas_mirrored mark_running sid none (bind_running v) p in
          elim r [ ok _ ↦ (ok v.pod_ip, q) | err x ↦ (err x, q) ])
      else (err worker_failed, p)

  unfoldable pub start_and_bind :
      String → WorkerEntry → BindSpec → Plane k → Result String × Plane k
  unfolding drive_and_bind
  start_and_bind sid v b p =
      let (r, q) = cas_mirrored mark_resuming sid b.seed (bind_resuming v b) p in
      elim r [ ok _ ↦ drive_and_bind sid v b q | err x ↦ (err x, q) ]

  -- After a failed start the worker goes back to its pool.
  unfoldable pub give_back : WorkerEntry → Plane k → Plane k
  give_back v p = notify v.pool (record p { table = release_worker k v.pod v.pool p.table })

  unfoldable pub rollback_to_suspended : String → Plane k → Plane k
  unfolding cas_mirrored
  rollback_to_suspended sid p = (cas_mirrored roll_back sid none unbind p).1

  -- What follows a failed start. The undoing runs under the deadline of the resume: once that has
  -- passed, the release and the rollback fail unseen, and the pool is notified all the same.
  unfoldable pub undo_start : WorkerEntry → (Plane k → Plane k) → Plane k → Plane k
  unfolding give_back
  undo_start v undo p = if w.late then notify v.pool p else undo (give_back v p)

  -- Start on a claimed worker; undo with `undo` where that fails.
  unfoldable pub start_or_undo :
      String → WorkerEntry → BindSpec → (Plane k → Plane k) → Plane k → Result String × Plane k
  unfolding start_and_bind undo_start
  start_or_undo sid v b undo p =
      let (r, q) = start_and_bind sid v b (notify v.pool p) in
      elim r [ ok ip ↦ (ok ip, q) | err x ↦ (err x, undo_start v undo q) ]

  -- Claim a worker of the pool and start on it.
  unfoldable pub claim_and_start :
      String → String → BindSpec → (Plane k → Plane k) → Plane k → Result String × Plane k
  unfolding start_or_undo
  claim_and_start pool sid b undo p =
      let (r, u) = claim_idle_worker k pool sid p.table in
      elim r [
        | ok v ↦ start_or_undo sid v b undo (record p { table = u })
        | err x ↦ (err x, record p { table = u })
      ]

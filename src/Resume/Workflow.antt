-- ===== src/Resume/Workflow.antt =====
-- resume.go: the Resume workflow: fast path, restore branch and cold start.
pub mod Cases
pub mod Again
pub mod Undo
pub mod Late
use sandboxd_teleport.Prelude.{
  String, Bool, true, false, not, ◌&&◌, Option, none, some, str_eq, if◌then◌else◌, no_capacity,
  no_pool, Result, ok, err,
}
use sandboxd_teleport.Api.{SessionEntry, suspended, is_running, is_suspended, worker_holds}
use sandboxd_teleport.Valkey.{Valkey}
use sandboxd_teleport.Assign.Table.{Table, session, worker}
use sandboxd_teleport.Resume.Types.{SessionPlan, Plane, World}
use sandboxd_teleport.Resume.Plan.{resolve, restore_spec}
use sandboxd_teleport.Resume.Start.{rollback_to_suspended, claim_and_start}

pub data Kind : Type 0 where
  no_kind cold_start restore : Kind

-- What `resume` returns: the worker's address or an error, the kind, and whether it was the fast path.
pub record Resumed : Type 0 where
  pub answer : Result String
  pub kind : Kind
  pub fast : Bool

-- Whether the entry is Running on a worker that still holds it.
unfoldable pub is_live : (k : Valkey) → String → Table k → SessionEntry → Bool
is_live k sid t e =
    is_running e.state
    && not (str_eq e.worker_ip "")
    && not (str_eq e.worker_pod "")
    && worker_holds (worker k t e.worker_pod) sid

-- A stale Running entry with a snapshot is read as Suspended.
unfoldable pub demote : SessionEntry → SessionEntry
demote e =
    if is_running e.state && not (str_eq e.worker_ip "") && not (str_eq e.snapshot "")
    then record e { state = suspended; worker_pod = ""; worker_ip = "" }
    else e

abbrev pub can_restore : SessionEntry → Bool
can_restore e = is_suspended e.state && not (str_eq e.snapshot "")

module _ (k : Valkey) (w : World k) where
  unfoldable pub resume_from_snapshot : SessionEntry → Plane k → Result String × Plane k
  unfolding claim_and_start rollback_to_suspended restore_spec
  resume_from_snapshot cur p =
      if str_eq cur.pool ""
      then (err no_pool, p)
      else claim_and_start k w cur.pool cur.sid (restore_spec cur)
          (rollback_to_suspended k w cur.sid) p

  unfoldable pub cold_start_plan :
      String → Option SessionEntry → SessionPlan → Plane k → Result String × Plane k
  unfolding claim_and_start
  cold_start_plan sid cur plan p = elim (resolve k w plan) [
    | err x ↦ (err x, p)
    | ok b ↦ claim_and_start k w plan.pool sid (record b { seed = cur }) (λ q. q) p
  ]

  unfoldable pub cold :
      String → String → String → String → Option SessionEntry → Plane k → Resumed × Plane k
  unfolding cold_start_plan
  cold sid subject pool app cur p = elim (w.plan_for sid subject pool app) [
    | err x ↦ (record { answer = err x; kind = cold_start; fast = false }, p)
    | ok plan ↦
        let (r, q) = cold_start_plan sid cur plan p in
        (record { answer = r; kind = cold_start; fast = false }, q)
  ]

  -- After the fast path: a slot, then the restore branch or the cold start.
  unfoldable pub resume_entry :
      String → String → String → String → SessionEntry → Plane k → Resumed × Plane k
  unfolding cold resume_from_snapshot
  resume_entry sid subject pool app cur p =
      if w.slot
      then (if can_restore cur
          then (let (r, q) = resume_from_snapshot cur p in
              (record { answer = r; kind = restore; fast = false }, q))
          else cold sid subject pool app (some cur) p)
      else (
        record {
          answer = err no_capacity;
          kind = if is_suspended cur.state then restore else cold_start;
          fast = false;
        },
        p,
      )

  unfoldable pub resume : String → String → String → String → Plane k → Resumed × Plane k
  unfolding is_live demote resume_entry
  resume sid subject pool app p = elim (session k p.table sid) [
    | none ↦
        if w.slot
        then cold sid subject pool app none p
        else (record { answer = err no_capacity; kind = cold_start; fast = false }, p)
    | some cur ↦
        if is_live k sid p.table cur
        then (record { answer = ok cur.worker_ip; kind = no_kind; fast = true }, p)
        else resume_entry sid subject pool app (demote cur) p
  ]

-- ===== src/Resume/Workflow/Cases.antt =====
-- The ways a resume can go, for a property of its answer and the plane it leaves.
use sandboxd_teleport.Prelude.{
  String, true, false, ◌≡◌, subst, sym, inl, inr, Option, none, some, Error, Result, ok, err, arith,
  Bool-cases, Option-cases, Result-cases, str_eq, ◌⊎◌, if_case,
}
use sandboxd_teleport.Api.{SessionEntry}
use sandboxd_teleport.Valkey.{Valkey}
use sandboxd_teleport.Assign.Table.{Table, session}
use sandboxd_teleport.Assign.Sessions.{stored_version}
use sandboxd_teleport.Assign.Sessions.Due.{Indexed}
use sandboxd_teleport.Resume.Types.{BindSpec, SessionPlan, Plane, World}
use sandboxd_teleport.Resume.Cas.Laws.{Fits}
use sandboxd_teleport.Resume.Plan.{resolve, restore_spec}
use sandboxd_teleport.Resume.Start.{claim_and_start, rollback_to_suspended}
use sandboxd_teleport.Resume.Start.Quiet.{Seeded}
use sandboxd_teleport.Resume.Workflow.{
  Resumed, resume, resume_entry, resume_from_snapshot, cold, cold_start_plan, is_live, demote,
  can_restore,
}
use sandboxd_teleport.Prelude.{no_pool, no_capacity}

-- A stale entry is read with its id and version.
demote-Fits :
    (k : Valkey) (t : Table k) (sid : String) (e : SessionEntry)
    → Fits k t sid e
    → Fits k t sid (demote e)
unfolding demote
demote-Fits k t sid e f = (ground (arith, f), ground (arith, f))

module _ (k : Valkey) (w : World k) (P : Result String × Plane k → Type 0) (sid : String)
    (p : Plane k) where
  -- Why a resume starts cold: there is no entry, or none to restore from.
  abbrev pub NothingToRestore : Type 0
  NothingToRestore =
      (session k p.table sid ≡ none)
      ⊎ ((e : SessionEntry) × (session k p.table sid ≡ some e) × (can_restore (demote e) ≡ false))

  -- The property on a claim of the cold start, on one of the restore branch, and on an unchanged
  -- plane.
  pub record Branches : Type 0 where
    pub fast :
        (e : SessionEntry)
        → session k p.table sid ≡ some e
        → is_live k sid p.table e ≡ true
        → P (ok e.worker_ip, p)
    pub refused : (x : Error) → P (err x, p)
    pub starts :
        (cur : Option SessionEntry) (plan : SessionPlan) (b : BindSpec)
        → NothingToRestore
        → Seeded k p.table sid cur
        → P (claim_and_start k w plan.pool sid (record b { seed = cur }) (λ q. q) p)
    pub restores :
        (e : SessionEntry)
        → session k p.table sid ≡ some e
        → can_restore (demote e) ≡ true
        → Fits k p.table sid (demote e)
        → P (
            claim_and_start k w
              (demote e).pool
              sid
              (restore_spec (demote e))
              (rollback_to_suspended k w sid)
              p)

  abbrev Answered : Resumed × Plane k → Type 0
  Answered (r, q) = P (r.answer, q)

  module _ (branches : Branches) (subject pool app : String) where
    cold_plan :
        (cur : Option SessionEntry) (plan : SessionPlan)
        → NothingToRestore
        → Seeded k p.table sid cur
        → P (cold_start_plan k w sid cur plan p)
    unfolding cold_start_plan
    cold_plan cur plan n s = elim (Result-cases (resolve k w plan)) [
      | inr (x, failed) ↦ rw (failed, cold_start_plan) (branches.refused x)
      | inl (b, found) ↦ rw (found, cold_start_plan) (branches.starts cur plan b n s)
    ]

    cold-Answered :
        (cur : Option SessionEntry)
        → NothingToRestore
        → Seeded k p.table sid cur
        → Answered (cold k w sid subject pool app cur p)
    unfolding cold
    cold-Answered cur n s = elim (Result-cases (w.plan_for sid subject pool app)) [
      | inr (x, failed) ↦ rw (failed, cold) (branches.refused x)
      | inl (plan, found) ↦ rw (found, cold) (cold_plan cur plan n s)
    ]

    snapshot_Answered :
        (cur : SessionEntry)
        → cur.sid ≡ sid
        → P (claim_and_start k w cur.pool sid (restore_spec cur) (rollback_to_suspended k w sid) p)
        → P (resume_from_snapshot k w cur p)
    unfolding resume_from_snapshot
    snapshot_Answered cur same h =
        if_case P (str_eq cur.pool "") _ _ (λ _. branches.refused no_pool)
          (λ _.
            subst
              (λ x.
                P (
                  claim_and_start k w cur.pool x (restore_spec cur) (rollback_to_suspended k w x)
                    p))
              (sym same) h)

    entry_Answered :
        (e : SessionEntry)
        → session k p.table sid ≡ some e
        → Fits k p.table sid (demote e)
        → Answered (resume_entry k w sid subject pool app (demote e) p)
    unfolding resume_entry
    entry_Answered e found fits =
        if_case Answered w.slot _ _
          (λ _.
            if_case Answered (can_restore (demote e)) _ _
              (λ can. snapshot_Answered (demote e) fits.0 (branches.restores e found can fits))
              (λ no_snapshot. cold-Answered (some (demote e)) (inr (e, found, no_snapshot)) fits))
          (λ _. branches.refused no_capacity)

    pub resume_cases : Indexed k p.table → Answered (resume k w sid subject pool app p)
    unfolding resume stored_version
    resume_cases v = elim (Option-cases (session k p.table sid)) [
      | inl gone ↦
          rw (gone, resume)
            (if_case Answered w.slot _ _ (λ _. cold-Answered none (inl gone) gone)
              (λ _. branches.refused no_capacity))
      | inr (e, found) ↦ elim (Bool-cases (is_live k sid p.table e)) [
        | inl live ↦ rw (found, live, resume) (branches.fast e found live)
        | inr dead ↦
            rw (found, dead, resume)
              (entry_Answered e found
                (demote-Fits k p.table sid e (v.keyed sid e found, ground (arith, found))))
      ]
    ]

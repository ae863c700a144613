-- ===== src/Tests/ResumeTests.antt =====
-- The resume workflow at concrete inputs.
use sandboxd_teleport.Prelude.{◌≡◌, refl, true, ok, some, ℕ, ◌==◌, if◌then◌else◌}
use mathlib.Core.Option
use sandboxd_teleport.Assign.Table.{session}
use sandboxd_teleport.Assign.Sessions.{delete_session}
use sandboxd_teleport.Api.{fresh_entry}
use sandboxd_teleport.Resume.Start.{rollback_to_suspended}
use sandboxd_teleport.Resume.Start.Revived.{delete_session-rollback}
use sandboxd_teleport.Api.{worker_holds, WorkerEntry, SessionEntry, busy, running, resuming}
use sandboxd_teleport.Valkey.Memory.{memory}
use sandboxd_teleport.Assign.Table.{Table}
use sandboxd_teleport.Assign.Sessions.{put_session_cas, bump}
use sandboxd_teleport.Assign.Workers.{upsert_worker, claim_idle_worker, release_worker}
use sandboxd_teleport.Resume.Cas.{cas_session_seed}
use sandboxd_teleport.Resume.Types.{World, wait_ready, mirror_if_durable}
use sandboxd_teleport.Resume.Start.{drive, bind_resuming, bind_running, unbind}
use sandboxd_teleport.Resume.Workflow.{resume, no_kind}
use sandboxd_teleport.Resume.Workflow.Again.{resume_again}
use sandboxd_teleport.Tests.Fixtures.{
  empty, stocked, stocked-InOrder, stocked-Named, quiet_world, refusing_world, plane, sleeping,
}

program : Unit {0}
unfolding resume memory empty put_session_cas upsert_worker claim_idle_worker cas_session_seed
    bind_resuming drive wait_ready mirror_if_durable bind_running worker_holds release_worker unbind
program = tt

resume_again_example :
    resume memory refusing_world "s1" "" "" ""
      (resume memory quiet_world "s1" "" "" "" (plane stocked)).1
    ≡ (
      record { answer = ok "10.0.0.1"; kind = no_kind; fast = true },
      (resume memory quiet_world "s1" "" "" "" (plane stocked)).1,
    )
unfolding program
resume_again_example =
    resume_again memory quiet_world (λ phase j u. refl) "s1" "" "" "" "10.0.0.1" (plane stocked)
      stocked-InOrder stocked-Named refl refusing_world "" "" ""

abbrev w9 : WorkerEntry
w9 = record { pod = "w9"; pool = "py"; pod_ip = "10.0.0.9"; state = busy; sid = "s2"; version = 0 }

-- A second worker, that is bound.
abbrev crowded : Table memory
crowded = upsert_worker memory w9 stocked

-- The workers refuse, and the deadline of the resume has passed by then.
abbrev late_world : World memory
late_world = record refusing_world { late = true }

left_behind :
    Option.map
      (λ (e : SessionEntry). e.state)
      (session memory (resume memory late_world "s1" "" "" "" (plane stocked)).1.table "s1")
    ≡ some resuming
unfolding program rollback_to_suspended
left_behind = refl

-- Another client creates the session anew while it is deleted.
abbrev created : SessionEntry
created = record (fresh_entry "s1") {
  state = running;
  last_active = 9000;
  idle_timeout = 60;
  checkpoint_interval = 300;
}

-- Another client writes the session before the first write of the loop, which then takes a second turn.
abbrev rival : ℕ → Table memory → Table memory
rival j t = if j == 1 then (put_session_cas memory 9100 (bump sleeping) t).1 else t

abbrev sleepier : SessionEntry → SessionEntry
sleepier e = record e { idle_timeout = 5 }

delete_session-rollback_example :
    session memory
      (rollback_to_suspended memory quiet_world "s1"
        (record (plane stocked) { table = delete_session memory "s1" stocked })).table
      "s1"
    ≡ some (bump (fresh_entry "s1"))
delete_session-rollback_example =
    delete_session-rollback memory quiet_world (λ phase j u. refl) "s1" (plane stocked)
      stocked-InOrder.indexed

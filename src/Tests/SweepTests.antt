-- ===== src/Tests/SweepTests.antt =====
-- Suspends, periodic checkpoints and the healer at concrete inputs.
use sandboxd_teleport.Prelude.{
  ℕ, ◌≡◌, refl, worker_failed, true, none, some, false, arith, transient, listed,
}
use mathlib.Core.Option
use sandboxd_teleport.Api.{
  SessionEntry, WorkerEntry, SnapshotResponse, running, resuming, fresh_entry,
}
use sandboxd_teleport.Valkey.Memory.{memory}
use sandboxd_teleport.Assign.Table.{Table, session, worker}
use sandboxd_teleport.Assign.Sessions.{put_session_cas, bump, suspend_due}
use sandboxd_teleport.Assign.Sessions.Sweep.{sids}
use sandboxd_teleport.Assign.Sessions.Due.{is_some}
use sandboxd_teleport.Assign.Workers.{
  upsert_worker, claim_idle_worker, release_worker, claimed, freed,
}
use sandboxd_teleport.Assign.History.{InOrder, Reach, Reach-empty-InOrder, next, claim, put}
use sandboxd_teleport.Resume.Types.{World, wait_ready, mirror_if_durable}
use sandboxd_teleport.Resume.Cas.{cas_session}
use sandboxd_teleport.Resume.Start.Quiet.{IsQuiet}
use sandboxd_teleport.Resume.Workflow.{resume}
use sandboxd_teleport.Resume.Suspend.{
  suspend_now, suspend_for_terminate, release_for_delete, is_cut_off, begin_suspend,
  record_snapshot,
}
use sandboxd_teleport.Resume.Suspend.Quiet.{suspend_now_lem, Slept, leaving}
use sandboxd_teleport.Resume.Suspend.Terminate.{
  suspend_for_terminate-Gone, Gone, release_for_delete_lem, Forgotten,
}
use sandboxd_teleport.Resume.Suspend.Teleport.{
  suspend_now-resume, suspend_now_stuck, Restores, RestoresTo,
}
use sandboxd_teleport.Resume.Checkpoint.{checkpoint_loop, checkpoint_one}
use sandboxd_teleport.Resume.Heal.{heal_sweep, heal_session, Seen}
use sandboxd_teleport.Resume.Heal.Recovery.{heal_session-resume}
use sandboxd_teleport.Tests.Fixtures.{
  empty, empty-IsEmpty, one_worker, one_worker-Reach, idle_worker, quiet_world, willing, plane,
}

program : Unit {0}
unfolding memory empty put_session_cas upsert_worker claim_idle_worker release_worker wait_ready
    suspend_now suspend_for_terminate release_for_delete checkpoint_loop checkpoint_one heal_sweep
    heal_session cas_session begin_suspend mirror_if_durable record_snapshot
program = tt

-- A session that runs on the only worker.
abbrev pub awake : SessionEntry
awake = record (fresh_entry "s1") {
  state = running;
  pool = "py";
  worker_ip = "10.0.0.1";
  worker_pod = "w1";
  image = "img";
  idle_timeout = 60;
  checkpoint_interval = 30;
  last_active = 5000;
}

abbrev pub bound_worker : WorkerEntry
bound_worker = claimed (record idle_worker { version = 1 }) "s1"

abbrev pub busy_table : Table memory
busy_table = (put_session_cas memory 9000 awake (claim_idle_worker memory "py" "s1" one_worker).1).1

busy_table-Reach : Reach memory empty busy_table
busy_table-Reach =
    next (next one_worker-Reach (claim "py" "s1" one_worker))
      (put 9000 awake (claim_idle_worker memory "py" "s1" one_worker).1)

pub busy_table-InOrder : InOrder memory busy_table
busy_table-InOrder = Reach-empty-InOrder memory empty-IsEmpty busy_table-Reach

pub quiet_world-IsQuiet : IsQuiet memory quiet_world
quiet_world-IsQuiet phase j u = refl

quiet_world-Restores : Restores memory quiet_world quiet_world-IsQuiet "sandboxes/s1/snap-2"
unfolding program
quiet_world-Restores = (λ ip r h. refl, λ ip sid. refl)

abbrev pub snapped : SnapshotResponse
snapped = record {
  snapshot = "sandboxes/s1/snap-2";
  image = "img";
  runtime = "gvisor";
  engine_version = "1";
}

pub awake_stored : session memory busy_table "s1" ≡ some (bump awake)
unfolding program
awake_stored = refl

suspend_now_lem_example :
    ((suspend_now memory quiet_world "s1" (plane busy_table)).0 ≡ none)
    × Slept memory quiet_world quiet_world-IsQuiet
        (bump awake)
        (plane busy_table)
        busy_table-InOrder
        awake_stored
        refl
        refl
        snapped
        (suspend_now memory quiet_world "s1" (plane busy_table)).1
unfolding program
suspend_now_lem_example =
    suspend_now_lem memory quiet_world quiet_world-IsQuiet (bump awake) (plane busy_table)
      busy_table-InOrder awake_stored refl refl snapped refl

suspend_now-resume_example :
    let (r, q) =
      resume memory quiet_world "s1" "" "" ""
        (suspend_now memory quiet_world "s1" (plane busy_table)).1 in
    RestoresTo memory "s1" "sandboxes/s1/snap-2" (r.answer, q)
unfolding program
suspend_now-resume_example =
    suspend_now-resume memory quiet_world quiet_world-IsQuiet (bump awake) (plane busy_table)
      bound_worker snapped busy_table-InOrder refl refl refl refl refl refl refl refl refl
      quiet_world-Restores "" "" ""

-- A world in which no worker answers.
abbrev silent_world : World memory
silent_world = record quiet_world {
  now = 90000;
  fleet = record willing {
    suspend = λ ip sid. none;
    checkpoint = λ ip sid. some snapped;
    status = λ ip sid. none;
  };
}

-- A world in which no worker answers a reset before the deadline.
abbrev deaf_world : World memory
deaf_world = record quiet_world { fleet = record willing { reset = λ ip sid. false }; late = true }

silent_world-IsQuiet : IsQuiet memory silent_world
silent_world-IsQuiet phase j u = refl

suspend_now_stuck_example :
    let q = (suspend_now memory silent_world "s1" (plane busy_table)).1 in
    (session memory q.table "s1" ≡ some (leaving (bump awake)))
    × ((w' : World memory) → suspend_now memory w' "s1" q ≡ (some transient, q))
    × ((now : ℕ) → listed "s1" (sids (suspend_due memory now q.table).0) ≡ false)
unfolding program
suspend_now_stuck_example =
    suspend_now_stuck memory silent_world silent_world-IsQuiet (bump awake) (plane busy_table)
      busy_table-InOrder refl refl refl refl

suspend_for_terminate-Gone_example :
    Gone memory quiet_world "w1" "py"
      (suspend_for_terminate memory quiet_world "s1" "w1" "10.0.0.1" "py"
        (plane busy_table)).1.table
unfolding program
suspend_for_terminate-Gone_example =
    suspend_for_terminate-Gone memory quiet_world "s1" "w1" "10.0.0.1" "py" (plane busy_table) refl

release_for_delete_lem_example :
    let r = release_for_delete memory deaf_world "s1" (plane busy_table) in
    (is_cut_off memory deaf_world (bump awake) ≡ false
      → (r.0 ≡ none)
        × Forgotten memory deaf_world "s1" r.1.table
        × (worker memory r.1.table "w1" ≡ Option.map freed (worker memory busy_table "w1"))
        × ((memory.sets).has r.1.table.idle_set "py" "w1" ≡ is_some (worker memory busy_table "w1"))
        × (release_for_delete memory deaf_world "s1" r.1 ≡ (none, r.1)))
    × (is_cut_off memory deaf_world (bump awake) ≡ true
        → (r.0 ≡ some worker_failed) × (r.1.table ≡ busy_table))
unfolding program
release_for_delete_lem_example =
    release_for_delete_lem memory deaf_world "s1" (bump awake) (plane busy_table) refl refl

worker_kept :
    worker memory (release_for_delete memory deaf_world "s1" (plane busy_table)).1.table "w1"
    ≡ worker memory busy_table "w1"
unfolding program is_cut_off
worker_kept = refl

-- The session is stuck on a worker that does not answer, and another worker is idle.
abbrev stuck : SessionEntry
stuck = record awake {
  state = resuming;
  worker_pod = "w9";
  worker_ip = "10.0.0.9";
  snapshot = "sandboxes/s1/snap-2";
}

abbrev stuck_table : Table memory
stuck_table = (put_session_cas memory 9000 stuck one_worker).1

stuck_table-InOrder : InOrder memory stuck_table
stuck_table-InOrder =
    Reach-empty-InOrder memory empty-IsEmpty (next one_worker-Reach (put 9000 stuck one_worker))

abbrev old_healer : Seen
old_healer sid = some 1000

heal_session-resume_example :
    let (n, later, q) =
      heal_session memory silent_world 60000 (bump stuck) (old_healer, plane stuck_table) in
    let (r, x) = resume memory quiet_world "s1" "" "" "" q in
    (n ≡ 1) × RestoresTo memory "s1" "sandboxes/s1/snap-2" (r.answer, x)
unfolding program
heal_session-resume_example =
    heal_session-resume memory silent_world silent_world-IsQuiet (bump stuck) (plane stuck_table)
      stuck_table-InOrder refl refl refl old_healer 60000 1000 refl (omega arith) refl refl
      quiet_world quiet_world-IsQuiet refl refl quiet_world-Restores "w1" refl "" "" ""

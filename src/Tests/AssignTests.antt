-- ===== src/Tests/AssignTests.antt =====
-- The assignment table at concrete inputs.
use sandboxd_teleport.Prelude.{
  String, ◌≡◌, ◌≢◌, refl, some, err, version_conflict, arith, true, listed,
}
use sandboxd_teleport.Api.{WorkerEntry, worker_holds}
use sandboxd_teleport.Valkey.{due}
use sandboxd_teleport.Valkey.Memory.{memory}
use sandboxd_teleport.Assign.Table.{Table, session, worker}
use sandboxd_teleport.Assign.Sessions.{put_session_cas, bump, stamp_active, suspend_due}
use sandboxd_teleport.Assign.Sessions.Cas.{put_session_cas_second, stamp_active_lost}
use sandboxd_teleport.Assign.Sessions.Due.{suspend_deadline}
use sandboxd_teleport.Assign.Sessions.Sweep.{suspend_due_lem, sids, Stored}
use sandboxd_teleport.Assign.Workers.{upsert_worker, claim_idle_worker, claimed}
use sandboxd_teleport.Assign.Workers.Binding.{InPool}
use sandboxd_teleport.Assign.Workers.Claim.{
  claim_idle_worker-Claims, claim_idle_worker_distinct, Claims,
}
use sandboxd_teleport.Assign.Workers.Pools.{upsert_worker_claimed}
use sandboxd_teleport.Assign.History.{InOrder, Reach-empty-InOrder, next, upsert}
use sandboxd_teleport.Tests.Fixtures.{
  empty, empty-IsEmpty, one_worker, one_worker-Reach, one_worker-InOrder, stocked, stocked-Reach,
  stocked-InOrder, idle_worker, sleeping, active,
}

program : Unit {0}
unfolding memory empty put_session_cas upsert_worker claim_idle_worker worker_holds stamp_active
program = tt

Reach-empty-InOrder_example : InOrder memory stocked
Reach-empty-InOrder_example = Reach-empty-InOrder memory empty-IsEmpty stocked-Reach

claim_idle_worker-Claims_example :
    Claims memory one_worker "py" "s1" (claim_idle_worker memory "py" "s1" one_worker)
claim_idle_worker-Claims_example =
    claim_idle_worker-Claims memory one_worker "py" "s1" one_worker-InOrder.sound

abbrev second_worker : WorkerEntry
second_worker = record idle_worker { pod = "w2"; pod_ip = "10.0.0.2" }

abbrev two_workers : Table memory
two_workers = upsert_worker memory second_worker one_worker

two_workers-InPool : InPool memory one_worker "w2" "py"
unfolding program
two_workers-InPool v h = cc

two_workers-InOrder : InOrder memory two_workers
two_workers-InOrder =
    Reach-empty-InOrder memory empty-IsEmpty
      (next one_worker-Reach (upsert second_worker one_worker two_workers-InPool))

abbrev claimed_one : Table memory
claimed_one = (claim_idle_worker memory "py" "s1" two_workers).1

abbrev first_claim : WorkerEntry
first_claim = claimed (record second_worker { version = 1 }) "s1"

abbrev second_claim : WorkerEntry
second_claim = claimed (record idle_worker { version = 1 }) "s2"

claim_idle_worker_distinct_example :
    (first_claim.pod ≢ second_claim.pod)
    × (worker memory (claim_idle_worker memory "py" "s2" claimed_one).1 "w2" ≡ some first_claim)
    × (worker_holds (some first_claim) "s1" ≡ true)
unfolding program
claim_idle_worker_distinct_example =
    claim_idle_worker_distinct memory two_workers claimed_one
      (claim_idle_worker memory "py" "s2" claimed_one).1 "py" "s1" "py" "s2" first_claim
      second_claim two_workers-InOrder.sound refl refl

put_session_cas_second_example :
    put_session_cas memory 2
      (record sleeping { image = "other" })
      (put_session_cas memory 1 sleeping empty).1
    ≡ (err version_conflict, (put_session_cas memory 1 sleeping empty).1)
unfolding program
put_session_cas_second_example =
    put_session_cas_second memory 1 2 sleeping (record sleeping { image = "other" }) (bump sleeping)
      empty (put_session_cas memory 1 sleeping empty).1 refl refl refl

abbrev with_active : Table memory
with_active = (put_session_cas memory 6000 active stocked).1

stamp_active_lost_example :
    let e = bump active in
    let u = (put_session_cas memory 9000 e (stamp_active memory "s2" 8000 with_active)).1 in
    (session memory u "s2" ≡ some (bump e))
    × ((memory.zset).score (stamp_active memory "s2" 8000 with_active).suspend_due "s2"
        ≡ some 68000)
    × ((memory.zset).score u.suspend_due "s2" ≡ some 65000)
unfolding program
stamp_active_lost_example =
    stamp_active_lost memory 9000 8000 (bump active) with_active refl refl (omega arith)
      (omega arith) (omega arith)

suspend_due_lem_example :
    ((sid : String)
      → listed sid (sids (suspend_due memory 70000 stocked).0)
        ≡ due 70000 (suspend_deadline (session memory stocked sid)))
    × Stored memory stocked (suspend_due memory 70000 stocked).0
    × ((suspend_due memory 70000 stocked).1 ≡ stocked)
suspend_due_lem_example = suspend_due_lem memory stocked 70000 stocked-InOrder.indexed

abbrev claimed_table : Table memory
claimed_table = (claim_idle_worker memory "py" "s1" one_worker).1

upsert_worker_claimed_example :
    ((pod : String)
      → worker memory (upsert_worker memory idle_worker claimed_table) pod
        ≡ worker memory claimed_table pod)
    × ((pool pod : String)
        → (memory.sets).has (upsert_worker memory idle_worker claimed_table).idle_set pool pod
          ≡ (memory.sets).has claimed_table.idle_set pool pod)
unfolding program
upsert_worker_claimed_example =
    upsert_worker_claimed memory claimed_table idle_worker
      (claimed (record idle_worker { version = 1 }) "s1") refl refl refl

-- ===== src/Tests/DiscoveryTests.antt =====
-- Discovery, pruning and reclaiming at concrete inputs.
use sandboxd_teleport.Prelude.{◌≡◌, refl, none, some, true, false, arith, if◌then◌else◌}
use sandboxd_teleport.Api.{worker_holds}
use sandboxd_teleport.Valkey.Memory.{memory}
use sandboxd_teleport.Assign.Table.{Table, worker}
use sandboxd_teleport.Assign.Sessions.{put_session_cas, delete_session, bump}
use sandboxd_teleport.Assign.Workers.{upsert_worker, claim_idle_worker}
use sandboxd_teleport.Discovery.{Pod, Pods, Marks, reconcile, prune_stale, reclaim}
use sandboxd_teleport.Discovery.Held.{worker_holds-reconcile}
use sandboxd_teleport.Discovery.Pruned.{worker-prune_stale, is_gone}
use sandboxd_teleport.Discovery.Reclaimed.{reclaim_bound, reclaim_early, Recent}
use sandboxd_teleport.Tests.Fixtures.{empty, quiet_world, plane}
use sandboxd_teleport.Tests.SweepTests.{
  busy_table, busy_table-InOrder, bound_worker, awake, awake_stored,
}

program : Unit {0}
unfolding memory empty put_session_cas upsert_worker claim_idle_worker
program = tt

-- The pod of the bound worker has moved to another address.
abbrev moved_pod : Pod
moved_pod = record { pool = "py"; terminating = false; ready = true; ip = "10.0.0.8" }

worker_holds-reconcile_example :
    worker_holds
      (worker memory
        (reconcile memory quiet_world true "w1" (some moved_pod) (plane busy_table)).table
        "w1")
      "s1"
    ≡ worker_holds (worker memory busy_table "w1") "s1"
worker_holds-reconcile_example =
    worker_holds-reconcile memory "w1" moved_pod (plane busy_table) busy_table-InOrder.sound
      quiet_world true "s1" refl refl refl refl

abbrev no_pods : Pods
no_pods name = none

worker-prune_stale_example :
    worker memory (prune_stale memory no_pods (plane busy_table)).1.table "w1"
    ≡ (if is_gone (no_pods "w1") then none else worker memory busy_table "w1")
worker-prune_stale_example = worker-prune_stale memory no_pods "w1" (plane busy_table)

-- The binding was seen at its version long ago.
abbrev old_marks : Marks
old_marks pod = some (1000, 2)

bound_stored : worker memory busy_table "w1" ≡ some bound_worker
unfolding program
bound_stored = refl

reclaim_bound_example :
    worker memory (reclaim memory 90000 60000 (old_marks, plane busy_table)).2.table "w1"
    ≡ some bound_worker
reclaim_bound_example =
    reclaim_bound memory 90000 60000 "w1" bound_worker (bump awake) refl refl refl old_marks
      (plane busy_table) busy_table-InOrder.sound bound_stored awake_stored

-- The session of the busy worker is gone, which was first seen 40 seconds ago.
abbrev orphaned : Table memory
orphaned = delete_session memory "s1" busy_table

abbrev young_marks : Marks
young_marks pod = some (50000, 2)

young_marks-Recent : Recent memory 90000 60000 young_marks
young_marks-Recent pod first version h = ground (arith, h)

orphan_released : (reclaim memory 110000 60000 (young_marks, plane orphaned)).0 ≡ 1
unfolding program delete_session reclaim sandboxd_teleport.Assign.Workers.list_worker_pods
orphan_released = refl

reclaim_early_example :
    ((reclaim memory 90000 60000 (young_marks, plane orphaned)).0 ≡ 0)
    × ((reclaim memory 90000 60000 (young_marks, plane orphaned)).2 ≡ plane orphaned)
reclaim_early_example =
    reclaim_early memory 90000 60000 (omega arith) young_marks (plane orphaned) young_marks-Recent

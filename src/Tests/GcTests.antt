-- ===== src/Tests/GcTests.antt =====
-- The collector at concrete inputs.
use sandboxd_teleport.Prelude.{◌≡◌, refl, none, some, true, false, [], ◌∷◌}
use sandboxd_teleport.Valkey.Memory.{memory}
use sandboxd_teleport.Assign.Table.{session}
use sandboxd_teleport.Assign.Sessions.{put_session_cas, bump}
use sandboxd_teleport.Assign.Workers.{upsert_worker, claim_idle_worker}
use sandboxd_teleport.Api.{worker_holds}
use sandboxd_teleport.Gc.{Config, collect_once, is_held}
use sandboxd_teleport.Gc.Laws.{collect_once_held}
use sandboxd_teleport.Tests.Fixtures.{empty}
use sandboxd_teleport.Tests.SweepTests.{busy_table, busy_table-InOrder, awake, awake_stored}

program : Unit {0}
unfolding memory empty put_session_cas upsert_worker claim_idle_worker is_held worker_holds
program = tt

-- A collector that would take everything older than a second.
abbrev greedy : Config
greedy = record {
  ttl_for = λ sid. none;
  default_ttl = 1;
  grace = 1;
  dry_run = false;
  reaper = true;
  resources = some [];
  dir_of = λ uri. "sandboxes/s1/";
  dirs = some ("sandboxes/s1/" ∷ "sandboxes/s7/" ∷ []);
  drops = λ dir. true;
  reaps = λ sid. true;
}

collect_once_held_example :
    session memory
      (collect_once memory greedy 9000000
        (record { table = busy_table; dropped = []; reaped = [] })).1.table
      "s1"
    ≡ some (bump awake)
unfolding program
collect_once_held_example =
    collect_once_held memory greedy 9000000
      (record { table = busy_table; dropped = []; reaped = [] }) (bump awake)
      busy_table-InOrder.indexed awake_stored refl refl

-- ===== src/Tests/ControlTests.antt =====
-- The reconcilers of the custom resources at concrete inputs.
use sandboxd_teleport.Prelude.{true, false, ◌≡◌, refl, none, some, [], ◌∷◌, arith, listed}
use sandboxd_teleport.Api.{SessionEntry}
use sandboxd_teleport.Cluster.{Session, Base, upsert_condition}
use sandboxd_teleport.Cluster.Memory.{in_memory}
use sandboxd_teleport.Valkey.Memory.{memory}
use sandboxd_teleport.Assign.Table.{session}
use sandboxd_teleport.Durability.{rebuild_once, mirror}
use sandboxd_teleport.Durability.Laws.{rebuild_once-mirror, recovered}
use sandboxd_teleport.Controllers.{finished, requeued}
use sandboxd_teleport.Controllers.Forks.{ForkSet, ForkWorld, no_status, child, ensure_children}
use sandboxd_teleport.Controllers.Forks.Holds.{reap_once-ensure_children}
use sandboxd_teleport.Controllers.Requests.{reconcile_session}
use sandboxd_teleport.Controllers.Requests.Once.{reconcile_session_twice, with_status, AtRest}
use sandboxd_teleport.Controllers.Reaper.{BaseReaper, reap_once, ref_count_for, unreferenced_since}
use sandboxd_teleport.Controllers.Reaper.Held.{reap_once-Kept, Kept}
use sandboxd_teleport.Tests.Fixtures.{empty, willing_api, sleeping, quiet_world, plane}
use sandboxd_teleport.Tests.SweepTests.{
  busy_table, busy_table-InOrder, awake, awake_stored, snapped, quiet_world-IsQuiet,
}
use sandboxd_teleport.Resume.Types.{Plane}
use sandboxd_teleport.Resume.Suspend.{suspend_now}
use sandboxd_teleport.Assign.Sessions.{bump}
use sandboxd_teleport.Resume.Suspend.Quiet.{asleep}

program : Unit {0}
unfolding memory empty in_memory rebuild_once mirror reconcile_session upsert_condition
    ensure_children child reap_once
program = tt

abbrev resource : Session
resource = record {
  generation = 1;
  created_by = "operator";
  fork_set = "";
  fork_base = "";
  finalizer = true;
  deleting = false;
  pool_ref = some "py";
  app_ref = none;
  image = "";
  cmd = [];
  env = [];
  ports = [];
  subject = "u1";
  iam = none;
  idle_timeout = 0;
  idle_action = "";
  suspend_request = "t1";
  status = no_status;
}

abbrev slept : SessionEntry
slept = record sleeping { last_active = 5000; idle_timeout = 60 }

resources : (in_memory {V = Session}).Map
unfolding in_memory
resources = ("s1", resource) ∷ []

rebuild_once-mirror_example :
    (session memory
        (rebuild_once
          (in_memory {V = Session})
          willing_api
          memory
          9000
          (mirror (in_memory {V = Session}) willing_api (λ t. t) slept resources)
          empty).1
        "s1"
      ≡ some (recovered (λ t. t) slept))
    × ((memory.zset).score
          (rebuild_once
            (in_memory {V = Session})
            willing_api
            memory
            9000
            (mirror (in_memory {V = Session}) willing_api (λ t. t) slept resources)
            empty).1.suspend_due
          "s1"
        ≡ none)
unfolding program resources
rebuild_once-mirror_example =
    rebuild_once-mirror (in_memory {V = Session}) willing_api memory 9000 (λ t. t) slept resource
      resources empty refl refl refl refl refl (omega arith) refl refl refl

reconcile_session_twice_example :
    let objects = in_memory {V = Session} in
    let pass =
      reconcile_session
        (λ x. "")
        (λ t. t)
        objects
        willing_api
        willing_api
        memory
        quiet_world
        "s1" in
    let asleep_map = objects.put resources "s1" (
      with_status
        (λ x. "")
        (λ t. t)
        objects
        willing_api
        willing_api
        memory
        quiet_world
        "s1"
        (asleep snapped (bump awake))
        resource) in
    let q = (suspend_now memory quiet_world "s1" (plane busy_table)).1 in
    (pass (resources, plane busy_table) ≡ (requeued, asleep_map, q))
    × ((pass (asleep_map, q)).0 ≡ finished)
    × AtRest
        (λ x. "")
        (λ t. t)
        objects
        willing_api
        willing_api
        memory
        quiet_world
        quiet_world-IsQuiet
        (bump awake)
        (plane busy_table)
        busy_table-InOrder
        awake_stored
        refl
        refl
        (pass (asleep_map, q)).1
    × ((pass (asleep_map, q)).2 ≡ q)
    × ((r : Plane memory) → (pass (asleep_map, r)).2 ≡ (suspend_now memory quiet_world "s1" r).1)
unfolding resources in_memory
reconcile_session_twice_example =
    reconcile_session_twice (λ x. "") (λ t. t) (in_memory {V = Session}) willing_api willing_api
      memory quiet_world quiet_world-IsQuiet (bump awake) (plane busy_table) busy_table-InOrder
      awake_stored refl refl snapped resource resources refl (refl, refl, refl) refl refl refl refl
      refl refl

abbrev base : Base
base = record {
  generation = 1;
  source = "s1";
  pinned = false;
  finalizer = true;
  deleting = false;
  status = record {
    snapshot = "bases/b1/snap-1";
    image = "img";
    runsc_version = "";
    ports = [];
    health = none;
    iam_role = "";
    ref_count = 1;
    ready = true;
    phase = "Ready";
    conditions = [];
  };
}

abbrev reaper : BaseReaper
reaper = record { wired = true; grace = 60; dry_run = false; now = 1000 }

bases : (in_memory {V = Base}).Map
unfolding in_memory
bases = ("b1", base) ∷ []

reap_once-Kept_example :
    Kept
      (in_memory {V = Session})
      (in_memory {V = Base})
      willing_api
      willing_api
      memory
      reaper
      resources
      empty
      "b1"
      (reap_once
        (in_memory {V = Session})
        (in_memory {V = Base})
        willing_api
        willing_api
        memory
        reaper
        resources
        empty
        bases)
unfolding program resources bases ref_count_for unreferenced_since
reap_once-Kept_example =
    reap_once-Kept (in_memory {V = Session}) (in_memory {V = Base}) willing_api willing_api memory
      reaper resources empty "b1" bases (base, refl, refl, refl)

abbrev forks : ForkSet
forks = record {
  name = "f";
  generation = 1;
  base_ref = some "b1";
  app_ref = none;
  count = 1;
  name_prefix = "";
  pool = "py";
  subject = "u1";
  iam = none;
  idle_timeout = 0;
  idle_action = "";
  eager = false;
  desired = 0;
  ready = 0;
  forks = [];
  is_ready = false;
  conditions = [];
}

abbrev fork_world : ForkWorld
fork_world = record { now = 900; numbered = λ n. "0"; inflight = []; materializes = true }

reap_once-ensure_children_example :
    let u =
      ensure_children
        (in_memory {V = Session})
        (in_memory {V = Base})
        willing_api
        willing_api
        memory
        fork_world
        forks
        (some ("b1", base))
        ("sess-fork-f-0" ∷ [])
        (resources, empty) in
    (d : Base) × ((in_memory {V = Base}).get
        (reap_once
          (in_memory {V = Session})
          (in_memory {V = Base})
          willing_api
          willing_api
          memory
          (record reaper { grace = 0 })
          u.1
          u.2
          bases)
        "b1"
      ≡ some d)
    × (d.deleting ≡ false)
unfolding program resources bases listed
reap_once-ensure_children_example =
    reap_once-ensure_children (in_memory {V = Session}) (in_memory {V = Base}) willing_api
      willing_api memory fork_world (record reaper { grace = 0 }) forks "b1" base base
      ("sess-fork-f-0" ∷ []) "sess-fork-f-0" resources empty bases refl refl refl refl refl refl
      refl

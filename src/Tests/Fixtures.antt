-- ===== src/Tests/Fixtures.antt =====
-- The tables and entries that the tests share.
use sandboxd_teleport.Prelude.{
  String, Bool, true, false, ◌≡◌, refl, subst, none, some, [], ◌∷◌, arith, str_eq, ok,
  if◌then◌else◌,
}
use sandboxd_teleport.Api.{SessionEntry, WorkerEntry, running, suspended, idle, fresh_entry}
use sandboxd_teleport.Cluster.{Answers, done}
use sandboxd_teleport.Valkey.Memory.{memory}
use sandboxd_teleport.Assign.Table.{Table, worker}
use sandboxd_teleport.Assign.Sessions.{put_session_cas}
use sandboxd_teleport.Assign.Workers.{upsert_worker, register}
use sandboxd_teleport.Assign.Workers.Binding.{InPool}
use sandboxd_teleport.Assign.History.{
  IsEmpty, Reach, InOrder, put, upsert, here, next, Reach-empty-InOrder,
}
use sandboxd_teleport.Resume.Types.{Plane, World, Fleet}
use sandboxd_teleport.Resume.Workflow.Again.{Named}

unfoldable pub empty : Table memory
unfolding memory
empty = record {
  sessions = [];
  workers = [];
  idle_set = [];
  all_set = [];
  suspend_due = [];
  checkpoint_due = [];
}

pub empty-IsEmpty : IsEmpty memory empty
unfolding memory empty
empty-IsEmpty = record {
  no_session = λ sid. refl;
  no_worker = λ pod. refl;
  no_idle = λ pool pod. refl;
  no_suspend = λ sid. refl;
  no_checkpoint = λ sid. refl;
}

abbrev pub idle_worker : WorkerEntry
idle_worker = record {
  pod = "w1";
  pool = "py";
  pod_ip = "10.0.0.1";
  state = idle;
  sid = "";
  version = 0;
}

abbrev pub sleeping : SessionEntry
sleeping = record (fresh_entry "s1") {
  state = suspended;
  pool = "py";
  image = "img";
  snapshot = "sandboxes/s1/snap-1";
  runtime = "gvisor";
}

abbrev pub active : SessionEntry
active = record (fresh_entry "s2") {
  state = running;
  pool = "py";
  worker_ip = "10.0.0.9";
  worker_pod = "w9";
  idle_timeout = 60;
  last_active = 5000;
}

-- One idle worker.
abbrev pub one_worker : Table memory
one_worker = upsert_worker memory idle_worker empty

-- And one suspended session.
abbrev pub stocked : Table memory
stocked = (put_session_cas memory 9000 sleeping one_worker).1

pub empty-InPool : (w : WorkerEntry) → InPool memory empty w.pod w.pool
empty-InPool w v h = absurd (ground (arith, empty-IsEmpty.no_worker w.pod))

pub one_worker-Reach : Reach memory empty one_worker
one_worker-Reach = next here (upsert idle_worker empty (empty-InPool idle_worker))

pub stocked-Reach : Reach memory empty stocked
stocked-Reach = next one_worker-Reach (put 9000 sleeping one_worker)

pub one_worker-InOrder : InOrder memory one_worker
one_worker-InOrder = Reach-empty-InOrder memory empty-IsEmpty one_worker-Reach

pub stocked-InOrder : InOrder memory stocked
stocked-InOrder = Reach-empty-InOrder memory empty-IsEmpty stocked-Reach

worker-stocked :
    (pod : String)
    → worker memory stocked pod
      ≡ (if str_eq "w1" pod then some (record idle_worker { version = 1 }) else none)
unfolding put_session_cas upsert_worker register memory empty
worker-stocked pod = refl

pub stocked-Named : Named memory stocked
stocked-Named pod v h = named (str_eq "w1" pod) (rw (worker-stocked pod) at h)
  where
    named :
        (b : Bool)
        → (if b then some (record idle_worker { version = 1 }) else none) ≡ some v
        → (str_eq v.pod "" ≡ false) × (str_eq v.pod_ip "" ≡ false)
    named true e =
        let same : record idle_worker { version = 1 } ≡ v = cc in
        subst (λ (x : WorkerEntry). (str_eq x.pod "" ≡ false) × (str_eq x.pod_ip "" ≡ false)) same
          (refl, refl)
    named false e = cc

-- Workers that answer every call, and are ready at the first poll.
abbrev pub willing : Fleet
willing = record {
  run = λ ip r. true;
  restore = λ ip r. true;
  polls = λ ip sid. some (record { status = "running"; ready = true }) ∷ [];
  suspend = λ ip sid. some (record {
    snapshot = "sandboxes/s1/snap-2";
    image = "img";
    runtime = "gvisor";
    engine_version = "1";
  });
  checkpoint = λ ip sid. none;
  reset = λ ip sid. true;
  status = λ ip sid. some "running";
}

abbrev pub quiet_world : World memory
quiet_world = record {
  now = 9500;
  plan_for = λ sid subject pool app. ok (record {
    pool = "py";
    template_name = "";
    app_name = "";
    image = "inline";
    cmd = [];
    env = [];
    ports = [];
    iam_role = "";
    egress = 0;
    ingress = 0;
    idle_timeout_override = 0;
  });
  lookup = λ name. none;
  app_lookup = none;
  fleet = willing;
  slot = true;
  late = false;
  others = λ phase j u. u;
}

-- A world in which every worker refuses.
abbrev pub refusing_world : World memory
refusing_world = record quiet_world {
  fleet = record willing { run = λ ip r. false; restore = λ ip r. false };
}

abbrev pub plane : Table memory → Plane memory
plane t = record { table = t; mirror = []; notified = [] }

-- An API server that answers every call.
abbrev pub willing_api : Answers
willing_api = record {
  lists = true;
  reads = λ x. true;
  create = λ x. done;
  update = λ x. done;
  update_status = λ x. done;
  delete = λ x. done;
}

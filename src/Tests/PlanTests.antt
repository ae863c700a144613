-- ===== src/Tests/PlanTests.antt =====
-- Plans of sessions and promotions at concrete inputs.
use sandboxd_teleport.Prelude.{refl, arith, none, some, [], str_eq, if◌then◌else◌}
use mathlib.Core.Option
use sandboxd_teleport.Cluster.{Session, Workload, Catalog, port_copies}
use sandboxd_teleport.Cluster.Memory.{in_memory}
use sandboxd_teleport.Valkey.Memory.{memory}
use sandboxd_teleport.Resume.Types.{SessionPlan, World}
use sandboxd_teleport.Controllers.Plans.{
  to_template_spec, plan_session, lazy_session, pool_template,
}
use sandboxd_teleport.Controllers.Plans.Admitted.{Sound, plan_session-SoundIfOk}
use sandboxd_teleport.Tests.Fixtures.{quiet_world, willing_api}

abbrev workload : Workload
workload = record {
  image = "img";
  cmd = [];
  env = [];
  ports = [];
  iam = none;
  idle_timeout = 60;
  idle_action = "suspend";
  checkpoint_interval = 0;
  health = none;
  network = none;
}

-- One dedicated pool.
abbrev catalog : Catalog
catalog = record {
  pools = λ pool. if str_eq pool "py" then some "tmpl" else none;
  templates = λ name. if str_eq name "tmpl" then some workload else none;
  apps = λ name. none;
}

abbrev linked_world : World memory
linked_world = record quiet_world {
  lookup = λ name. Option.map to_template_spec (catalog.templates name);
}

abbrev dedicated_plan : SessionPlan
dedicated_plan = record {
  pool = "py";
  template_name = "tmpl";
  app_name = "";
  image = "";
  cmd = [];
  env = [];
  ports = [];
  iam_role = "";
  egress = 0;
  ingress = 0;
  idle_timeout_override = 0;
}

plan_session-SoundIfOk_example :
    Sound catalog (in_memory {V = Session}) willing_api memory linked_world dedicated_plan
unfolding plan_session lazy_session pool_template port_copies
plan_session-SoundIfOk_example =
    plan_session-SoundIfOk catalog (in_memory {V = Session}) willing_api memory linked_world
      (lazy_session "u1" "py" "") ((λ name. refl), refl) (λ app h. absurd (ground (arith, h)))
      dedicated_plan refl

-- ===== src/Tests/PoolTests.antt =====
-- The resume over HTTP and the worker pools at concrete inputs.
use sandboxd_teleport.Prelude.{
  String, true, false, ◌≡◌, refl, ◌&&◌, Option, none, some, [], str_eq, ok, select,
}
use sandboxd_teleport.Cluster.Memory.{in_memory}
use sandboxd_teleport.Valkey.Memory.{memory}
use sandboxd_teleport.Assign.Table.{Table}
use sandboxd_teleport.Tests.Fixtures.{empty, willing_api, stocked, quiet_world, plane}
use sandboxd_teleport.Tests.SweepTests.{busy_table}
use sandboxd_teleport.Resume.Types.{mirror_if_durable, wait_ready}
use sandboxd_teleport.Resume.Cas.{cas_session_seed}
use sandboxd_teleport.Resume.Start.{bind_resuming, drive, bind_running}
use sandboxd_teleport.Resume.Workflow.{resume}
use sandboxd_teleport.Resume.Handler.{
  Codec, ResumeRequest, ResumeResponse, ResumeError, call_resume, Exchange,
}
use sandboxd_teleport.Resume.Handler.Wire.{call_resume_lem}
use sandboxd_teleport.Controllers.Pools.{Pool, Template, Deployment, PoolWorld, eff_replicas}
use sandboxd_teleport.Assign.Workers.{count_workers}
use sandboxd_teleport.Assign.Sessions.{put_session_cas}
use sandboxd_teleport.Assign.Workers.{claim_idle_worker, upsert_worker}

program : Unit {0}
unfolding memory empty in_memory
program = tt

-- Bodies that keep the messages apart.
data Wire : Type 0 where
  asked : ResumeRequest → Wire
  answered : ResumeResponse → Wire
  refused : ResumeError → Wire

request_of : Wire → Option ResumeRequest
request_of (asked q) = some q
request_of (answered r) = none
request_of (refused e) = none

response_of : Wire → Option ResumeResponse
response_of (asked q) = none
response_of (answered r) = some r
response_of (refused e) = none

failure_of : Wire → Option ResumeError
failure_of (asked q) = none
failure_of (answered r) = none
failure_of (refused e) = some e

codec : Codec
unfolding request_of response_of failure_of
codec = record {
  Body = Wire;
  request = record { encode = asked; decode = request_of; decode-encode = λ q. refl };
  response = record { encode = answered; decode = response_of; decode-encode = λ r. refl };
  failure = record { encode = refused; decode = failure_of; decode-encode = λ e. refl };
  shown = λ e. "";
}

call_resume_lem_example :
    call_resume codec memory quiet_world Exchange.answered
      (record { sid = "s1"; subject = "u1"; pool = "py"; app = "" })
      (plane stocked)
    ≡ (ok "10.0.0.1", (resume memory quiet_world "s1" "u1" "py" "" (plane stocked)).1)
unfolding program resume put_session_cas upsert_worker claim_idle_worker wait_ready cas_session_seed
    bind_resuming drive mirror_if_durable bind_running
call_resume_lem_example =
    call_resume_lem codec memory quiet_world
      (record { sid = "s1"; subject = "u1"; pool = "py"; app = "" }) (plane stocked) refl

abbrev pool : Pool
pool = record {
  name = "py";
  template = "tmpl";
  replicas = 1;
  min_idle = 2;
  status_replicas = 0;
  idle = 0;
  busy = 0;
  selector = "";
  conditions = [];
}

abbrev template : Template
template = record {
  worker_image = "worker:1";
  runtime = "microvm";
  scheduling = "";
  resources = "";
  memory_limit = true;
  cpu_limit = true;
  stream_console = false;
}

abbrev pool_world : PoolWorld
pool_world = record {
  wired = true;
  now = 900;
  equal = λ p q. str_eq p.image q.image && str_eq p.scheduling q.scheduling;
  stored = λ p. record p { scheduling = "default-scheduler" };
  template = λ x. some (some template);
  config = record {
    image = "";
    grace = 120;
    service_account = "sandboxd";
    bucket = "b";
    region = "";
    cred_token_secret = "";
    mtls = true;
  };
}

three_replicas :
    eff_replicas
      (in_memory {V = Deployment})
      (in_memory {V = String})
      willing_api
      willing_api
      memory
      pool_world
      pool
      busy_table
    ≡ 3
unfolding program eff_replicas count_workers put_session_cas upsert_worker claim_idle_worker select
three_replicas = refl

-- ===== src/Tests/RouterTests.antt =====
-- The router at concrete inputs, with the resume workflow as the operator.
use sandboxd_teleport.Prelude.{refl, some, true, false}
use sandboxd_teleport.Valkey.Memory.{memory}
use sandboxd_teleport.Resume.Workflow.{resume}
use sandboxd_teleport.Router.{Router, Request, serve}
use sandboxd_teleport.Router.Laws.{serve-Sent, Sent}
use sandboxd_teleport.Tests.Fixtures.{quiet_world, plane}
use sandboxd_teleport.Tests.SweepTests.{busy_table}

abbrev router : Router memory
router = record {
  worker_port = 8090;
  now = 9900;
  resumer =
      λ sid t. let (r, q) = resume memory quiet_world sid "" "" "" (plane t) in (r.answer, q.table);
  reaches = λ ip port. true;
}

abbrev small_request : Request
small_request = record { sid = some "s1"; warm = false; length = some 12; read = some 12 }

serve-Sent_example :
    Sent memory router "s1" busy_table (serve memory router small_request busy_table)
serve-Sent_example = serve-Sent memory router small_request "s1" busy_table refl

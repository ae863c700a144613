-- ===== src/Resume/Handler/Wire.antt =====
-- A resume over the wire.
use sandboxd_teleport.Prelude.{
  String, false, ◌≡◌, refl, ap, str_eq, version_conflict, not_found, no_capacity, transient,
  no_plan, no_resolver, no_template, no_image, no_pool, worker_failed, Result, ok, err,
}
use sandboxd_teleport.Valkey.{Valkey}
use sandboxd_teleport.Resume.Types.{Plane, World}
use sandboxd_teleport.Resume.Workflow.{resume}
use sandboxd_teleport.Resume.Handler.{
  Codec, ResumeRequest, respond, serve_resume, read_response, call_resume, answered,
}
use sandboxd_teleport.Api.{running}

-- What the router is told of a result of the workflow.
abbrev pub as_seen : Result String → Result String
as_seen (ok ip) = ok ip
as_seen (err no_capacity) = err no_capacity
as_seen (err _) = err worker_failed

read-respond : (c : Codec) (r : Result String) → read_response c (respond c r) ≡ as_seen r
unfolding read_response respond
read-respond c (ok ip) =
    rw ((c.response).decode-encode (record { worker_ip = ip; state = running })) refl
read-respond c (err version_conflict) = refl
read-respond c (err not_found) = refl
read-respond c (err no_capacity) = refl
read-respond c (err transient) = refl
read-respond c (err no_plan) = refl
read-respond c (err no_resolver) = refl
read-respond c (err no_template) = refl
read-respond c (err no_image) = refl
read-respond c (err no_pool) = refl
read-respond c (err worker_failed) = refl

-- A resume that the router asks for over HTTP, for a session that is named, and whose answer comes
-- before the router gives up, is the operator's resume: the request arrives as it was sent, the table is left as the workflow leaves it, and the address or
-- the lack of capacity comes back through the status code and the body. Every other error comes back
-- as an error that is not the lack of capacity.
pub call_resume_lem :
    (c : Codec) (k : Valkey) (w : World k) (q : ResumeRequest) (p : Plane k)
    → str_eq q.sid "" ≡ false
    → call_resume c k w answered q p ≡ (
      as_seen (resume k w q.sid q.subject q.pool q.app p).0.answer,
      (resume k w q.sid q.subject q.pool q.app p).1,
    )
unfolding call_resume serve_resume
call_resume_lem c k w q p named =
    rw ((c.request).decode-encode q, named)
      (ap (λ (r : Result String). (r, (resume k w q.sid q.subject q.pool q.app p).1))
        (read-respond c (resume k w q.sid q.subject q.pool q.app p).0.answer))

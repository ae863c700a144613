-- ===== src/Resume/Handler.antt =====
-- handler.go: the operator's POST /resume, and checkpoint-restore/controlplane/internal/router's
-- resumeclient.go, which calls it. JSON is a
-- pair of functions to and from the bodies, for each type of message.
pub mod Wire
use sandboxd_teleport.Prelude.{
  ℕ, String, Bool, true, false, not, ◌||◌, ◌&&◌, ◌≡◌, Option, none, some, str_eq, ◌==◌,
  if◌then◌else◌, Error, version_conflict, no_capacity, worker_failed, Result, ok, err,
}
use sandboxd_teleport.Api.{State, running}
use sandboxd_teleport.Valkey.{Valkey}
use sandboxd_teleport.Resume.Types.{Plane, World}
use sandboxd_teleport.Resume.Workflow.{resume}

-- What encoding/json does with one type of message.
pub record Json (Body A : Type 0) : Type 0 where
  pub encode : A → Body
  pub decode : Body → Option A
  pub decode-encode : (a : A) → decode (encode a) ≡ some a

-- ResumeRequest, ResumeResponse and ResumeError.
pub record ResumeRequest : Type 0 where
  pub sid : String
  pub subject : String
  pub pool : String
  pub app : String

pub record ResumeResponse : Type 0 where
  pub worker_ip : String
  pub state : State

pub record ResumeError : Type 0 where
  pub error : String
  pub retry_after : ℕ

-- The bodies, the types of message, and the texts of errors.
pub record Codec : Type 1 where
  pub Body : Type 0
  pub request : Json Body ResumeRequest
  pub response : Json Body ResumeResponse
  pub failure : Json Body ResumeError
  pub shown : Error → String

pub record HttpRequest (Body : Type 0) : Type 0 where
  pub method : String
  pub body : Body

pub record HttpResponse (Body : Type 0) : Type 0 where
  pub status : ℕ
  pub body : Body

-- How the client's exchange ends: with the operator's answer, or with an error of hc.Do, where the
-- connection breaks or the router's own deadline passes first. An operator whose client has gone
-- cancels what it does, so that what it leaves is anything.
pub data Exchange (State : Type 0) : Type 0 where
  answered : Exchange State
  broken : State → Exchange State

module _ (c : Codec) where
  -- writeErr and writeErrRetry.
  abbrev pub write_err : ℕ → String → ℕ → HttpResponse c.Body
  write_err status message retry_after = record {
    status = status;
    body = (c.failure).encode (record { error = message; retry_after = retry_after });
  }

  -- The answer for a workflow's result.
  unfoldable pub respond : Result String → HttpResponse c.Body
  respond (ok ip) = record {
    status = 200;
    body = (c.response).encode (record { worker_ip = ip; state = running });
  }
  respond (err no_capacity) = write_err 503 "no capacity" 5
  respond (err version_conflict) = write_err 409 "version conflict" 0
  respond (err x) = write_err 502 (c.shown x) 0

  -- ServeHTTP.
  unfoldable pub serve_resume :
      (k : Valkey) → World k → HttpRequest c.Body → Plane k → HttpResponse c.Body × Plane k
  unfolding respond
  serve_resume k w r p =
      if not (str_eq r.method "POST")
      then (write_err 405 "method not allowed" 0, p)
      else elim ((c.request).decode r.body) [
        | none ↦ (write_err 400 "invalid request: sid required" 0, p)
        | some q ↦
            if str_eq q.sid ""
            then (write_err 400 "invalid request: sid required" 0, p)
            else (let (answer, u) = resume k w q.sid q.subject q.pool q.app p in
                (respond answer.answer, u))
      ]

  -- The client's reading of an answer; its errors other than ErrNoCapacity are one here.
  unfoldable pub read_response : HttpResponse c.Body → Result String
  read_response r =
      if r.status == 200
      then elim ((c.response).decode r.body) [
        | none ↦ err worker_failed
        | some out ↦ ok out.worker_ip
      ]
      else if r.status == 503
      then err no_capacity
      else err worker_failed

  -- ResumeClient.Resume over a connection.
  unfoldable pub call_resume :
      (k : Valkey)
      → World k
      → Exchange (Plane k)
      → ResumeRequest
      → Plane k
      → Result String × Plane k
  unfolding serve_resume read_response
  call_resume k w (broken left) q p = (err worker_failed, left)
  call_resume k w answered q p =
      let (r, u) = serve_resume k w (record { method = "POST"; body = (c.request).encode q }) p in
      (read_response r, u)

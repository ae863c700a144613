-- ===== src/Resume/Types.antt =====
-- The types of resume.go, and the state and surroundings of a workflow.
use sandboxd_teleport.Prelude.{
  ℕ, String, Bool, true, false, Option, none, some, List, [], ◌∷◌, Result, str_eq, not, ◌&&◌,
  if◌then◌else◌,
}
use sandboxd_teleport.Api.{
  SessionEntry, PortMap, Health, RunRequest, RestoreRequest, SnapshotResponse, StatusResponse,
  is_suspended,
}
use sandboxd_teleport.Valkey.{Valkey}
use sandboxd_teleport.Assign.Table.{Table}

pub record TemplateSpec : Type 0 where
  pub image : String
  pub cmd : List String
  pub env : List String
  pub ports : List PortMap
  pub health : Option Health
  pub iam_role : String
  pub egress : ℕ
  pub ingress : ℕ
  pub idle_timeout : ℕ
  pub checkpoint_interval : ℕ

pub record SessionPlan : Type 0 where
  pub pool : String
  pub template_name : String
  pub app_name : String
  pub image : String
  pub cmd : List String
  pub env : List String
  pub ports : List PortMap
  pub iam_role : String
  pub egress : ℕ
  pub ingress : ℕ
  pub idle_timeout_override : ℕ

pub record BindSpec : Type 0 where
  pub restore : Bool
  pub image : String
  pub cmd : List String
  pub env : List String
  pub ports : List PortMap
  pub health : Option Health
  pub snapshot : String
  pub iam_role : String
  pub runtime : String
  pub engine_version : String
  pub egress : ℕ
  pub ingress : ℕ
  pub idle_timeout : ℕ
  pub checkpoint_interval : ℕ
  pub seed : Option SessionEntry

-- A call of the SessionMirror.
pub data MirrorCall : Type 0 where
  mirrored : SessionEntry → MirrorCall
  erased : String → MirrorCall

-- The table, the calls of the mirror and the pools that were notified, the newest first.
pub record Plane (k : Valkey) : Type 0 where
  pub table : Table k
  pub mirror : List MirrorCall
  pub notified : List String

abbrev pub notify : {k : Valkey} → String → Plane k → Plane k
notify pool p = record p { notified = pool ∷ p.notified }

-- The mirror is written for the Suspended transition only.
unfoldable pub mirror_if_durable : {k : Valkey} → SessionEntry → Plane k → Plane k
mirror_if_durable e p =
    if is_suspended e.state then record p { mirror = mirrored e ∷ p.mirror } else p

-- What the workers answer: by the worker's address, and the request or the sandbox. `none` and
-- `false` are errors; `polls` are the answers to /status until the deadline.
pub record Fleet : Type 0 where
  pub run : String → RunRequest → Bool
  pub restore : String → RestoreRequest → Bool
  pub polls : String → String → List (Option StatusResponse)
  pub suspend : String → String → Option SnapshotResponse
  pub checkpoint : String → String → Option SnapshotResponse
  pub reset : String → String → Bool
  pub status : String → String → Option String

-- Where a workflow is when it writes a session's entry.
pub data Phase : Type 0 where
  mark_resuming mark_running roll_back mark_suspending mark_suspended promote_running
        advance_snapshot :
      Phase

-- What surrounds one run: the clock, the plan and template lookups, the workers, whether a resume
-- slot is free before the deadline, whether the deadline has passed once a call of a worker has failed
-- (each later call to the server then fails as well), and what other clients of the table do at each turn of a
-- compare-and-set loop (turn 2i before the i-th read, turn 2i + 1 between it and the write).
pub record World (k : Valkey) : Type 0 where
  pub now : ℕ
  pub plan_for : String → String → String → String → Result SessionPlan
  pub lookup : String → Option TemplateSpec
  pub app_lookup : Option (String → Option TemplateSpec)
  pub fleet : Fleet
  pub slot : Bool
  pub late : Bool
  pub others : Phase → ℕ → Table k → Table k

-- WaitReady of checkpoint-restore/controlplane/internal/sandboxdclient/client.go: poll until the
-- sandbox is ready, until it is in a state that is not running, or until the deadline.
unfoldable pub wait_ready : List (Option StatusResponse) → Bool
wait_ready [] = false
wait_ready (none ∷ polls) = wait_ready polls
wait_ready (some st ∷ polls) =
    let rest = wait_ready polls in
    if st.ready
    then true
    else if not (str_eq st.status "") && not (str_eq st.status "running")
    then false
    else rest

-- ===== src/Api.antt =====
-- checkpoint-restore/shared/resumeapi/resumeapi.go and shared/sbxapi/sbxapi.go: the records of the
-- assignment table and the messages between the control plane and the workers.
-- Identifiers, addresses and URIs are texts, and "" means that a field is not set, as in the source.
use sandboxd_teleport.Prelude.{
  ℕ, String, Bool, true, false, ◌&&◌, Option, none, some, List, str_eq, ◌==◌, if◌then◌else◌,
}

pub data State : Type 0 where
  -- `unset` is the zero value, the empty text.
  unset absent running suspending suspended resuming : State

pub data WorkerState : Type 0 where
  idle busy : WorkerState

pub record PortMap : Type 0 where
  pub container : ℕ
  pub host : ℕ

pub record Health : Type 0 where
  pub restart_policy : String
  pub probe : String
  pub probe_port : ℕ
  pub probe_path : String
  pub idle_timeout_sec : ℕ

pub record SessionEntry : Type 0 where
  pub sid : String
  pub state : State
  pub pool : String
  pub worker_ip : String
  pub worker_pod : String
  pub image : String
  pub snapshot : String
  pub runtime : String
  pub engine_version : String
  pub ports : List PortMap
  pub health : Option Health
  pub iam_role : String
  pub egress : ℕ
  pub ingress : ℕ
  pub idle_timeout : ℕ
  pub checkpoint_interval : ℕ
  pub version : ℕ
  pub last_active : ℕ
  pub last_checkpoint : ℕ

pub record WorkerEntry : Type 0 where
  pub pod : String
  pub pool : String
  pub pod_ip : String
  pub state : WorkerState
  pub sid : String
  pub version : ℕ

abbrev pub is_running : State → Bool
is_running running = true
is_running _ = false

abbrev pub is_suspended : State → Bool
is_suspended suspended = true
is_suspended _ = false

abbrev pub is_resuming : State → Bool
is_resuming resuming = true
is_resuming _ = false

abbrev pub is_suspending : State → Bool
is_suspending suspending = true
is_suspending _ = false

abbrev pub is_busy : WorkerState → Bool
is_busy busy = true
is_busy idle = false

-- The fence: the worker's entry exists, is busy, and is bound to the session.
unfoldable pub worker_holds : Option WorkerEntry → String → Bool
worker_holds none sid = false
worker_holds (some w) sid = is_busy w.state && str_eq w.sid sid

-- The entry that a session starts from when the table has none: `SessionEntry{SID: sid, Version: 0}`.
abbrev pub fresh_entry : String → SessionEntry
fresh_entry sid = record {
  sid = sid;
  state = unset;
  pool = "";
  worker_ip = "";
  worker_pod = "";
  image = "";
  snapshot = "";
  runtime = "";
  engine_version = "";
  ports = List.[];
  health = none;
  iam_role = "";
  egress = 0;
  ingress = 0;
  idle_timeout = 0;
  checkpoint_interval = 0;
  version = 0;
  last_active = 0;
  last_checkpoint = 0;
}

-- The port of the worker pod that the router proxies to; 0 when the session exposes none.
unfoldable pub host_port : SessionEntry → ℕ
host_port e = elim e.ports [
  | List.[] ↦ 0
  | List.◌∷◌ p _ ↦ if p.host == 0 then p.container else p.host
]

-- The body of POST /run.
pub record RunRequest : Type 0 where
  pub sandbox_id : String
  pub image : String
  pub cmd : List String
  pub env : List String
  pub ports : List PortMap
  pub health : Option Health
  pub iam_role : String
  pub egress : ℕ
  pub ingress : ℕ

-- The body of POST /restore.
pub record RestoreRequest : Type 0 where
  pub sandbox_id : String
  pub image : String
  pub snapshot : String
  pub runtime : String
  pub engine_version : String
  pub ports : List PortMap
  pub health : Option Health
  pub iam_role : String
  pub egress : ℕ
  pub ingress : ℕ

-- What the control plane reads of the answers to POST /suspend and POST /checkpoint.
pub record SnapshotResponse : Type 0 where
  pub snapshot : String
  pub image : String
  pub runtime : String
  pub engine_version : String

-- What it reads of the answer to GET /status.
pub record StatusResponse : Type 0 where
  pub status : String
  pub ready : Bool

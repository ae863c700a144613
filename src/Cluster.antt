-- ===== src/Cluster.antt =====
-- checkpoint-restore/controlplane/api/v1alpha1 (the fields that the controllers read and write) and
-- helpers.go of internal/controller: the custom resources. The Kubernetes API server is no code of
-- this repository: `Objects` names the calls of its client and their documented behaviour, and
-- `Answers` says which calls fail.
pub mod Memory
use sandboxd_teleport.Prelude.{
  ℕ, String, Bool, true, false, ◌&&◌, ◌≡◌, Option, none, some, List, [], ◌∷◌, str_eq, if◌then◌else◌,
  listed,
}
use sandboxd_teleport.Api.{State, PortMap, Health}

-- metav1.Condition; the statuses that are used are True and False.
pub record Condition : Type 0 where
  pub kind : String
  pub holds : Bool
  pub reason : String
  pub message : String
  pub generation : ℕ
  pub since : ℕ

-- Health of common_types.go.
pub record CrHealth : Type 0 where
  pub restart_policy : String
  pub probe : String
  pub probe_port : ℕ
  pub probe_path : String

-- SessionStatus; times are in milliseconds.
pub record SessionStatus : Type 0 where
  pub phase : State
  pub worker_ip : String
  pub snapshot : String
  pub image : String
  pub runtime : String
  pub engine_version : String
  pub pool : String
  pub worker_pod : String
  pub ports : List PortMap
  pub health : Option CrHealth
  pub iam_role : String
  pub last_active : Option ℕ
  pub last_suspend_handled : String
  pub conditions : List Condition

-- A Session: SessionSpec, the labels created-by and forkset and fork-base ("" when unset), whether it
-- carries the finalizer and a deletion time, and its status.
pub record Session : Type 0 where
  pub generation : ℕ
  pub created_by : String
  pub fork_set : String
  pub fork_base : String
  pub finalizer : Bool
  pub deleting : Bool
  pub pool_ref : Option String
  pub app_ref : Option String
  pub image : String
  pub cmd : List String
  pub env : List String
  pub ports : List PortMap
  pub subject : String
  pub iam : Option String
  pub idle_timeout : ℕ
  pub idle_action : String
  pub suspend_request : String
  pub status : SessionStatus

-- A BaseSnapshot; `phase` is a text, as in the source.
pub record BaseStatus : Type 0 where
  pub snapshot : String
  pub image : String
  pub runsc_version : String
  pub ports : List PortMap
  pub health : Option CrHealth
  pub iam_role : String
  pub ref_count : ℕ
  pub ready : Bool
  pub phase : String
  pub conditions : List Condition

pub record Base : Type 0 where
  pub generation : ℕ
  pub source : String
  pub pinned : Bool
  pub finalizer : Bool
  pub deleting : Bool
  pub status : BaseStatus

-- The workload half of a SandboxTemplate and of an AppTemplate, with IdlePolicy, IAM and Network.
pub record Workload : Type 0 where
  pub image : String
  pub cmd : List String
  pub env : List String
  pub ports : List PortMap
  pub iam : Option String
  pub idle_timeout : ℕ
  pub idle_action : String
  pub checkpoint_interval : ℕ
  pub health : Option CrHealth
  pub network : Option (ℕ × ℕ)

-- What reads of WarmPools (their templateRef), SandboxTemplates and AppTemplates return, by name;
-- `none` is an error.
pub record Catalog : Type 0 where
  pub pools : String → Option String
  pub templates : String → Option Workload
  pub apps : String → Option Workload

-- CreatedByOperator.
abbrev pub operator : String
operator = "operator"

-- The objects of one kind in the namespace, by name.
pub record Objects (V : Type 0) : Type 1 where
  pub Map : Type 0
  pub get : Map → String → Option V
  pub put : Map → String → V → Map
  pub remove : Map → String → Map
  pub names : Map → List String
  pub get-put :
      (m : Map) (x y : String) (v : V)
      → get (put m x v) y ≡ (if str_eq x y then some v else get m y)
  pub get-remove :
      (m : Map) (x y : String) → get (remove m x) y ≡ (if str_eq x y then none else get m y)
  pub names_complete : (m : Map) (x : String) (v : V) → get m x ≡ some v → listed x (names m) ≡ true

-- What a write comes to: IsConflict, IsNotFound, and any other error.
pub data Write : Type 0 where
  done conflict gone failed : Write

-- The calls that fail, by the name of the object. `reads` is false for an error that is not NotFound.
pub record Answers : Type 0 where
  pub lists : Bool
  pub reads : String → Bool
  pub create : String → Write
  pub update : String → Write
  pub update_status : String → Write
  pub delete : String → Write

-- What the API server keeps of an object that it acknowledged.
abbrev pub kept : {V : Type 0} (o : Objects V) → Write → String → V → o.Map → o.Map
kept o w x v m = elim w [ done ↦ o.put m x v | conflict ↦ m | gone ↦ m | failed ↦ m ]

-- upsertCondition.
unfoldable pub upsert_condition : Condition → List Condition → List Condition
upsert_condition c [] = c ∷ []
upsert_condition c (d ∷ ds) =
    let rest = upsert_condition c ds in
    if str_eq d.kind c.kind
    then (if sameness d.holds c.holds && str_eq d.reason c.reason
        then record c { since = d.since } ∷ ds
        else c ∷ ds)
    else d ∷ rest
  where
    sameness : Bool → Bool → Bool
    sameness true b = b
    sameness false true = false
    sameness false false = true

-- portsToCRD and portsFromCRD; nil is the empty list.
unfoldable pub port_copies : List PortMap → List PortMap
port_copies [] = []
port_copies (p ∷ ps) = record { container = p.container; host = p.host } ∷ port_copies ps

unfoldable pub health_to_cr : Option Health → Option CrHealth
health_to_cr none = none
health_to_cr (some h) = some (record {
  restart_policy = h.restart_policy;
  probe = h.probe;
  probe_port = h.probe_port;
  probe_path = h.probe_path;
})

unfoldable pub health_from_cr : Option CrHealth → Option Health
health_from_cr none = none
health_from_cr (some h) = some (record {
  restart_policy = h.restart_policy;
  probe = h.probe;
  probe_port = h.probe_port;
  probe_path = h.probe_path;
  idle_timeout_sec = 0;
})

-- What the API server does with the delete of a Session: one with a finalizer is marked.
unfoldable pub delete_session_object : (o : Objects Session) → String → Session → o.Map → o.Map
delete_session_object o x s m =
    if s.finalizer then o.put m x (record s { deleting = true }) else o.remove m x

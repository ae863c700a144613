-- ===== src/Controllers/Pools.antt =====
-- warmpool_controller.go and helpers.go: the reconciler of a WarmPool, which keeps a Deployment of
-- worker pods. A part of a template that is passed on as it is (scheduling, resources) is one text.
pub mod Deployed
use Prim.Native.String.{◌++◌}
use sandboxd_teleport.Prelude.{
  ℕ, String, Bool, true, false, ◌+◌, ◌-◌, not, ◌&&◌, ◌||◌, Option, none, some, List, [], ◌∷◌,
  str_eq, ltb, ◌==◌, if◌then◌else◌,
}
use mathlib.Core.List.{◌++◌ as ◌+++◌}
use sandboxd_teleport.Api.{WorkerEntry, is_busy}
use sandboxd_teleport.Cluster.{
  Objects, Answers, Write, done, conflict, gone, failed, Condition, kept, upsert_condition,
}
use sandboxd_teleport.Valkey.{Valkey}
use sandboxd_teleport.Assign.Table.{Table}
use sandboxd_teleport.Assign.Workers.{count_workers, pool_workers}
use sandboxd_teleport.Controllers.{Outcome, finished, requeued, erred, delayed}

-- What the reconciler reads of a SandboxTemplate.
pub record Template : Type 0 where
  pub worker_image : String
  pub runtime : String
  pub scheduling : String
  pub resources : String
  pub memory_limit : Bool
  pub cpu_limit : Bool
  pub stream_console : Bool

-- A WarmPool: its spec and its status.
pub record Pool : Type 0 where
  pub name : String
  pub template : String
  pub replicas : ℕ
  pub min_idle : ℕ
  pub status_replicas : ℕ
  pub idle : ℕ
  pub busy : ℕ
  pub selector : String
  pub conditions : List Condition

-- WorkerConfig, WorkerImage and the termination grace.
pub record WorkerConfig : Type 0 where
  pub image : String
  pub grace : ℕ
  pub service_account : String
  pub bucket : String
  pub region : String
  pub cred_token_secret : String
  pub mtls : Bool

-- An environment variable: its value, or where Kubernetes takes it from.
pub data EnvSource : Type 0 where
  value field resource_limit : String → EnvSource
  secret : String → String → EnvSource

pub data VolumeSource : Type 0 where
  host_socket host_directory host_char_device : String → VolumeSource
  empty_dir : VolumeSource
  csi_read_only : String → VolumeSource

-- A mount: the volume, the path, whether it propagates both ways, and whether it is read-only.
pub record Mount : Type 0 where
  pub volume : String
  pub path : String
  pub bidirectional : Bool
  pub read_only : Bool

-- The pod template of the workers.
pub record PodTemplate : Type 0 where
  pub pool_label : String
  pub service_account : String
  pub grace : Option ℕ
  pub scheduling : String
  pub image : String
  pub ports : List (String × ℕ)
  pub env : List (String × EnvSource)
  pub resources : String
  pub privileged : Bool
  pub probe : String × ℕ
  pub mounts : List Mount
  pub volumes : List (String × VolumeSource)

pub record Deployment : Type 0 where
  pub replicas : Option ℕ
  pub template : PodTemplate
  pub status_replicas : ℕ

-- busyCount, where the difference stops at 0.
unfoldable pub busy_count : ℕ → ℕ → ℕ
busy_count idle total = total - idle

abbrev pub if_list {ℓ} : {A : Type ℓ} → Bool → List A → List A
if_list true l = l
if_list false l = []

abbrev pub plain_mount : String → String → Mount
plain_mount volume path = record {
  volume = volume;
  path = path;
  bidirectional = false;
  read_only = false;
}

-- workerVolumeMounts.
unfoldable pub worker_volume_mounts : Bool → Bool → List Mount
worker_volume_mounts mtls microvm =
    (plain_mount "containerd-sock" "/run/containerd/containerd.sock"
      ∷ record (plain_mount "containerd-data" "/var/lib/containerd") { bidirectional = true }
      ∷ [])
    +++ if_list microvm (
        plain_mount "dev-kvm" "/dev/kvm"
        ∷ plain_mount "rootfs-upper" "/var/lib/sandboxd/rootfs-upper"
        ∷ [])
    +++ if_list mtls (
        record (plain_mount "spiffe-workload-api" "/spiffe-workload-api") { read_only = true } ∷ [])

-- workerVolumes.
unfoldable pub worker_volumes : Bool → Bool → List (String × VolumeSource)
worker_volumes mtls microvm =
    (("containerd-sock", host_socket "/run/containerd/containerd.sock")
      ∷ ("containerd-data", host_directory "/var/lib/containerd")
      ∷ [])
    +++ if_list microvm
        (("dev-kvm", host_char_device "/dev/kvm") ∷ ("rootfs-upper", empty_dir) ∷ [])
    +++ if_list mtls (("spiffe-workload-api", csi_read_only "csi.spiffe.io") ∷ [])

-- workerReadinessProbe.
abbrev pub worker_readiness_probe : String × ℕ
worker_readiness_probe = ("/healthz", 8092)

module _ (c : WorkerConfig) where
  -- workerEnv.
  unfoldable pub worker_env : Template → String → List (String × EnvSource)
  worker_env tmpl engine =
      (("SANDBOXD_DEBUG", value "0") ∷ ("SANDBOXD_POD_IP", field "status.podIP") ∷ [])
      +++ if_list (not (str_eq engine "") && not (str_eq engine "gvisor"))
          (("SANDBOXD_RUNTIME", value engine) ∷ [])
      +++ if_list tmpl.memory_limit
          (("SANDBOXD_POD_MEM_LIMIT", resource_limit "limits.memory") ∷ [])
      +++ if_list (str_eq engine "microvm" && tmpl.cpu_limit)
          (("SANDBOXD_POD_CPU_LIMIT", resource_limit "limits.cpu") ∷ [])
      +++ if_list tmpl.stream_console (("SANDBOXD_STREAM_CONSOLE", value "1") ∷ [])
      +++ if_list (not (str_eq c.bucket "")) (("SANDBOXD_BUCKET", value c.bucket) ∷ [])
      +++ if_list (not (str_eq c.region "")) (("AWS_REGION", value c.region) ∷ [])
      +++ if_list (not (str_eq c.cred_token_secret ""))
          (("SANDBOXD_CRED_TOKEN_KEY", secret c.cred_token_secret "token") ∷ [])
      +++ if_list c.mtls (("SANDBOXD_MTLS", value "1") ∷ [])

  -- gracePeriod.
  unfoldable pub grace_period : Option ℕ
  grace_period = if c.grace == 0 then none else some c.grace

  abbrev pub image_of : Template → String
  image_of tmpl = if str_eq tmpl.worker_image "" then c.image else tmpl.worker_image

  abbrev pub engine_of : Template → String
  engine_of tmpl = if str_eq tmpl.runtime "" then "gvisor" else tmpl.runtime

  -- desiredDeployment.
  unfoldable pub desired_deployment : Pool → Template → ℕ → Deployment
  unfolding worker_env grace_period worker_volume_mounts worker_volumes
  desired_deployment pool tmpl replicas =
      let microvm = str_eq (engine_of tmpl) "microvm" in
      record {
        replicas = some replicas;
        template = record {
          pool_label = pool.name;
          service_account = c.service_account;
          grace = grace_period;
          scheduling = tmpl.scheduling;
          image = image_of tmpl;
          ports = ("http", 8090) ∷ ("health", 8092) ∷ [];
          env = worker_env tmpl (engine_of tmpl);
          resources = tmpl.resources;
          privileged = true;
          probe = worker_readiness_probe;
          mounts = worker_volume_mounts c.mtls microvm;
          volumes = worker_volumes c.mtls microvm;
        };
        status_replicas = 0;
      }

-- deploymentMatches; `equal` is Semantic.DeepEqual.
unfoldable pub deployment_matches :
    (PodTemplate → PodTemplate → Bool) → Deployment → Deployment → Bool
deployment_matches equal existing desired =
    (elim existing.replicas [ none ↦ 1 | some n ↦ n ])
      == (elim desired.replicas [ none ↦ 1 | some n ↦ n ])
    && equal existing.template desired.template

-- What surrounds a pass: whether there is an assignment table, the clock, DeepEqual of pod templates,
-- what the API server stores of a pod template (it fills in the defaults of fields that are unset),
-- and what reading the template returns (`none` for an error, `some none` for NotFound).
pub record PoolWorld : Type 0 where
  pub wired : Bool
  pub now : ℕ
  pub equal : PodTemplate → PodTemplate → Bool
  pub stored : PodTemplate → PodTemplate
  pub template : String → Option (Option Template)
  pub config : WorkerConfig

-- Deployments, the deletion costs of pods ("" for none), and their answers.
module _ (od : Objects Deployment) (op : Objects String) (da pa : Answers) (k : Valkey)
    (w : PoolWorld) where
  -- The replicas that keep minIdle workers idle.
  unfoldable pub eff_replicas : Pool → Table k → ℕ
  unfolding busy_count
  eff_replicas pool t =
      let (idle, total) = count_workers k t pool.name in
      let want = busy_count idle total + pool.min_idle in
      if w.wired && ltb 0 pool.min_idle && ltb pool.replicas want then want else pool.replicas

  abbrev pub deployment_name : Pool → String
  deployment_name pool = "sandboxd-worker-" ++ pool.name

  -- Create or update of the Deployment: `none` to go on.
  unfoldable pub drive_deployment : Pool → Deployment → od.Map → Option Outcome × od.Map
  unfolding deployment_matches
  drive_deployment pool dep m =
      let x = deployment_name pool in
      if not (da.reads x) then (some erred, m) else elim (od.get m x) [
        | none ↦ elim (da.create x) [
          | done ↦ (none, od.put m x (record dep { template = w.stored dep.template }))
          | conflict ↦ (some erred, m)
          | gone ↦ (some erred, m)
          | failed ↦ (some erred, m)
        ]
        | some old ↦
            let new = record old { replicas = dep.replicas; template = w.stored dep.template } in
            if deployment_matches w.equal old dep then (none, m) else elim (da.update x) [
              | done ↦ (none, od.put m x new)
              | conflict ↦ (some requeued, m)
              | gone ↦ (some erred, m)
              | failed ↦ (some erred, m)
            ]
      ]

  abbrev pub ready_condition : Bool → String → String → Condition
  ready_condition holds reason message = record {
    kind = "Ready";
    holds = holds;
    reason = reason;
    message = message;
    generation = 0;
    since = w.now;
  }

  -- updateStatus: the status that is written.
  unfoldable pub update_status : Pool → od.Map → Table k → Pool
  unfolding busy_count
  update_status pool m t =
      let (idle, total) = count_workers k t pool.name in
      let x = deployment_name pool in
      record pool {
        status_replicas =
            (if da.reads x
              then elim (od.get m x) [ none ↦ pool.status_replicas | some d ↦ d.status_replicas ]
              else pool.status_replicas);
        selector = "sandboxd.io/app=worker,sandboxd.io/pool=" ++ pool.name;
        idle = (if w.wired then idle else pool.idle);
        busy = (if w.wired then busy_count idle total else pool.busy);
        conditions =
            upsert_condition (ready_condition true "Provisioned" "worker deployment reconciled")
              pool.conditions;
      }

  -- The deletion cost of a worker's pod.
  abbrev pub deletion_cost : WorkerEntry → String
  deletion_cost v = if is_busy v.state then "100" else "0"

  -- The loop of syncDeletionCosts; a patch that fails ends it.
  unfoldable pub sync_costs : List WorkerEntry → op.Map → op.Map
  sync_costs [] m = m
  sync_costs (v ∷ vs) m =
      let rest = λ (n : op.Map). sync_costs vs n in
      if not (pa.reads v.pod) then rest m else elim (op.get m v.pod) [
        | none ↦ rest m
        | some cost ↦ if str_eq cost (deletion_cost v) then rest m else elim (pa.update v.pod) [
          | done ↦ rest (op.put m v.pod (deletion_cost v))
          | conflict ↦ m
          | gone ↦ m
          | failed ↦ m
        ]
      ]

  unfoldable pub sync_deletion_costs : Pool → op.Map × Table k → op.Map × Table k
  unfolding sync_costs
  sync_deletion_costs pool (pods, t) =
      let (workers, u) = pool_workers k pool.name t in
      if w.wired then (sync_costs workers pods, u) else (pods, t)

  unfoldable pub reconcile_found :
      Pool → Template → od.Map × op.Map × Table k → Outcome × Pool × od.Map × op.Map × Table k
  unfolding eff_replicas desired_deployment drive_deployment update_status sync_deletion_costs
  reconcile_found pool tmpl (m, pods, t) =
      if str_eq w.config.image "" && str_eq tmpl.worker_image ""
      then (delayed 60, pool, m, pods, t)
      else (let dep = desired_deployment w.config pool tmpl (eff_replicas pool t) in
          let (stop, n) = drive_deployment pool dep m in
          elim stop [
            | some r ↦ (r, pool, n, pods, t)
            | none ↦
                let (costs, u) = sync_deletion_costs pool (pods, t) in
                (finished, update_status pool n t, n, costs, u)
          ])

  -- Reconcile of a pool that is there.
  unfoldable pub reconcile_pool :
      Pool → od.Map × op.Map × Table k → Outcome × Pool × od.Map × op.Map × Table k
  unfolding reconcile_found
  reconcile_pool pool (m, pods, t) = elim (w.template pool.template) [
    | none ↦ (erred, pool, m, pods, t)
    | some none ↦ (
      finished,
      record pool {
        conditions =
            upsert_condition
              (ready_condition false "TemplateMissing"
                ("SandboxTemplate " ++ pool.template ++ " not found"))
              pool.conditions;
      },
      m,
      pods,
      t,
    )
    | some (some tmpl) ↦ reconcile_found pool tmpl (m, pods, t)
  ]

-- ===== src/Discovery.antt =====
-- checkpoint-restore/controlplane/internal/controller/worker_discovery.go: the registration of worker
-- pods in the assignment table, and the sweeps that prune and reclaim their entries. What Kubernetes
-- knows of a pod is an argument.
pub mod Held
pub mod Pruned
pub mod Reclaimed
use sandboxd_teleport.Prelude.{
  ℕ, String, Bool, true, false, ◌+◌, not, ◌&&◌, ◌||◌, Option, none, some, List, [], ◌∷◌, str_eq,
  ltb, ◌==◌, listed, if◌then◌else◌,
}
use sandboxd_teleport.Api.{SessionEntry, WorkerEntry, idle, is_busy, is_suspended}
use sandboxd_teleport.Valkey.{Valkey}
use sandboxd_teleport.Assign.Table.{Table, session, worker}
use sandboxd_teleport.Assign.Workers.{
  is_claimed, upsert_worker, remove_worker, ensure_pool_member, release_worker, list_worker_pods,
}
use sandboxd_teleport.Resume.Types.{Plane, World, notify}
use sandboxd_teleport.Resume.Suspend.{release, suspend_for_terminate}

-- A worker pod: the label of its pool, whether it is being deleted, podReady, and its address.
pub record Pod : Type 0 where
  pub pool : String
  pub terminating : Bool
  pub ready : Bool
  pub ip : String

-- The pods of the namespace, by name; `none` is NotFound.
abbrev pub Pods : Type 0
Pods = String → Option Pod

-- Why a busy binding is anomalous.
pub data Reason : Type 0 where
  healthy no_sid orphan asleep rebound : Reason

abbrev pub is_healthy : Reason → Bool
is_healthy healthy = true
is_healthy _ = false

unfoldable pub session_reason : Option SessionEntry → String → Reason
session_reason none pod = orphan
session_reason (some e) pod =
    if is_suspended e.state
    then asleep
    else if not (str_eq e.worker_pod "") && not (str_eq e.worker_pod pod)
    then rebound
    else healthy

-- `anomalous`: when a binding was first seen, and the worker's version then.
abbrev pub Marks : Type 0
Marks = String → Option (ℕ × ℕ)

abbrev pub put_mark : String → Option (ℕ × ℕ) → Marks → Marks
put_mark pod o marks x = if str_eq pod x then o else marks x

module _ (k : Valkey) where
  unfoldable pub remove : String → String → Plane k → Plane k
  remove pod pool p = record p { table = remove_worker k pod pool p.table }

  -- The pool of a pod that is gone stands in its entry.
  unfoldable pub remove_by_pod : String → Plane k → Plane k
  unfolding remove
  remove_by_pod pod p = elim (worker k p.table pod) [ none ↦ p | some v ↦ remove pod v.pool p ]

  -- A ready pod whose worker is busy: its address and pool are refreshed, the binding stays.
  unfoldable pub refresh : String → Pod → WorkerEntry → Plane k → Plane k
  refresh name pod v p =
      if str_eq v.pod_ip pod.ip && str_eq v.pool pod.pool
      then record p { table = ensure_pool_member k name pod.pool p.table }
      else record p {
        table = upsert_worker k (record v { pod_ip = pod.ip; pool = pod.pool }) p.table;
      }

  -- An entry for an idle worker, at the version that is stored.
  unfoldable pub fresh_worker : String → Pod → Option WorkerEntry → WorkerEntry
  fresh_worker name pod o = record {
    pod = name;
    pool = pod.pool;
    pod_ip = pod.ip;
    state = idle;
    sid = "";
    version = elim o [ none ↦ 0 | some v ↦ v.version ];
  }

  unfoldable pub register_ready : String → Pod → Plane k → Plane k
  unfolding refresh fresh_worker is_claimed
  register_ready name pod p = elim (worker k p.table name) [
    | none ↦ record p { table = upsert_worker k (fresh_worker name pod none) p.table }
    | some v ↦
        if is_busy v.state
        then refresh name pod v p
        else record p { table = upsert_worker k (fresh_worker name pod (some v)) p.table }
  ]

  module _ (w : World k) where
    -- A pod that is being deleted: the session of a busy worker is checkpointed first. `suspender` is
    -- whether a TerminateSuspender is wired.
    unfoldable pub terminate : Bool → String → Pod → Plane k → Plane k
    unfolding remove suspend_for_terminate
    terminate suspender name pod p = elim (worker k p.table name) [
      | none ↦ remove name pod.pool p
      | some v ↦
          if suspender && is_busy v.state && not (str_eq v.sid "")
          then (let (failed, q) = suspend_for_terminate k w v.sid v.pod v.pod_ip v.pool p in
              elim failed [ none ↦ q | some x ↦ remove name pod.pool q ])
          else remove name pod.pool p
    ]

    unfoldable pub reconcile : Bool → String → Option Pod → Plane k → Plane k
    unfolding remove_by_pod terminate register_ready
    reconcile suspender name none p = remove_by_pod name p
    reconcile suspender name (some pod) p =
        if str_eq pod.pool ""
        then p
        else if pod.terminating
        then terminate suspender name pod p
        else if not pod.ready || str_eq pod.ip ""
        then remove name pod.pool p
        else register_ready name pod p

  -- pruneStaleWorkers: how many entries had no pod.
  unfoldable pub prune_pods : Pods → List String → Plane k → ℕ × Plane k
  unfolding remove_by_pod
  prune_pods pods [] p = (0, p)
  prune_pods pods (name ∷ names) p =
      let rest = λ (q : Plane k). prune_pods pods names q in
      elim (pods name) [
        | none ↦ let (n, q) = rest (remove_by_pod name p) in (n + 1, q)
        | some pod ↦ rest p
      ]

  unfoldable pub prune_stale : Pods → Plane k → ℕ × Plane k
  unfolding prune_pods
  prune_stale pods p = prune_pods pods (list_worker_pods k p.table) p

  unfoldable pub reclaim_reason : WorkerEntry → Table k → Reason
  unfolding session_reason
  reclaim_reason v t = if str_eq v.sid "" then no_sid else session_reason (session k t v.sid) v.pod

  -- A busy worker whose binding is anomalous: armed first, and released when it has been seen at this
  -- version for as long as the grace.
  unfoldable pub strike : ℕ → ℕ → String → WorkerEntry → Marks × Plane k → ℕ × Marks × Plane k
  strike now grace pod v (marks, p) = elim (marks pod) [
    | none ↦ (0, put_mark pod (some (now, v.version)) marks, p)
    | some (first, version) ↦
        if version == v.version
        then (if ltb now (first + grace)
            then (0, marks, p)
            else (1, put_mark pod none marks, release v.pod v.pool p))
        else (0, put_mark pod (some (now, v.version)) marks, p)
  ]

  -- One pod of the sweep: whether it was released, and whether it was seen to be anomalous.
  unfoldable pub reclaim_pod : ℕ → ℕ → String → Marks × Plane k → Bool × ℕ × Marks × Plane k
  unfolding reclaim_reason strike
  reclaim_pod now grace pod (marks, p) = elim (worker k p.table pod) [
    | none ↦ (false, 0, marks, p)
    | some v ↦
        if is_busy v.state
        then (if is_healthy (reclaim_reason v p.table)
            then (false, 0, put_mark pod none marks, p)
            else (let (n, later, q) = strike now grace pod v (marks, p) in (true, n, later, q)))
        else (false, 0, marks, p)
  ]

  unfoldable pub reclaim_pods :
      ℕ → ℕ → List String → List String → Marks × Plane k → ℕ × List String × Marks × Plane k
  unfolding reclaim_pod
  reclaim_pods now grace [] seen (marks, p) = (0, seen, marks, p)
  reclaim_pods now grace (pod ∷ pods) seen (marks, p) =
      let (anomalous, n, later, q) = reclaim_pod now grace pod (marks, p) in
      let (m, all, last, r) =
        reclaim_pods now grace pods (if anomalous then pod ∷ seen else seen) (later, q) in
      (n + m, all, last, r)

  -- ReclaimOrphanBindings; marks of pods that were not seen are forgotten.
  unfoldable pub reclaim : ℕ → ℕ → Marks × Plane k → ℕ × Marks × Plane k
  unfolding reclaim_pods
  reclaim now grace (marks, p) =
      if grace == 0
      then (0, marks, p)
      else (let (n, seen, later, q) =
            reclaim_pods now grace (list_worker_pods k p.table) [] (marks, p) in
          (n, (λ x. if listed x seen then later x else none), q))

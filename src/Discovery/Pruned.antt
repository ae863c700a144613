-- ===== src/Discovery/Pruned.antt =====
-- PruneStaleWorkers: exactly the entries without a pod are removed.
use sandboxd_teleport.Prelude.{
  String, Bool, true, false, ◌&&◌, ◌≡◌, refl, ◌∙◌, inl, inr, Option, none, some, List, [], ◌∷◌,
  arith, str_eq, eq_iff, listed, if◌then◌else◌, Option-cases,
}
use sandboxd_teleport.Api.{WorkerEntry}
use sandboxd_teleport.Valkey.{Valkey}
use sandboxd_teleport.Assign.Table.{worker}
use sandboxd_teleport.Assign.Workers.{remove_worker, list_worker_pods}
use sandboxd_teleport.Resume.Types.{Plane}
use sandboxd_teleport.Discovery.{Pods, Pod, remove, remove_by_pod, prune_pods, prune_stale}

abbrev pub is_gone : Option Pod → Bool
is_gone none = true
is_gone (some pod) = false

module _ (k : Valkey) where
  worker-remove_by_pod :
      (name x : String) (p : Plane k)
      → worker k (remove_by_pod k name p).table x
        ≡ (if str_eq name x then none else worker k p.table x)
  unfolding remove_by_pod remove remove_worker
  worker-remove_by_pod name x p = elim (Option-cases (worker k p.table name)) [
    | inl gone ↦ ground (arith, gone, eq_iff name x)
    | inr (v, found) ↦ ground (arith, found, (k.strings WorkerEntry).get-del p.table.workers name x)
  ]

  module _ (pods : Pods) where
    worker-prune_pods :
        (names : List String) (x : String) (p : Plane k)
        → worker k (prune_pods k pods names p).1.table x
          ≡ (if listed x names && is_gone (pods x) then none else worker k p.table x)
    unfolding prune_pods listed
    worker-prune_pods [] x p = refl
    worker-prune_pods (name ∷ names) x p = elim (Option-cases (pods name)) [
      | inl gone ↦ ground (
        arith,
        gone,
        worker-prune_pods names x (remove_by_pod k name p),
        worker-remove_by_pod name x p,
        eq_iff name x,
        eq_iff x name,
      )
      | inr (pod, here) ↦
          ground (arith, here, worker-prune_pods names x p, eq_iff name x, eq_iff x name)
    ]

    -- After PruneStaleWorkers a worker has the entry that it had, if its pod exists, and none
    -- otherwise.
    pub worker-prune_stale :
        (x : String) (p : Plane k)
        → worker k (prune_stale k pods p).1.table x
          ≡ (if is_gone (pods x) then none else worker k p.table x)
    unfolding prune_stale list_worker_pods
    worker-prune_stale x p =
        worker-prune_pods ((k.strings WorkerEntry).scan p.table.workers) x p
        ∙ (elim (Option-cases (worker k p.table x)) [
          | inl gone ↦ ground (arith, gone)
          | inr (v, found) ↦
              ground (arith, found, (k.strings WorkerEntry).scan_complete p.table.workers x v)
        ])

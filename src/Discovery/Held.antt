-- ===== src/Discovery/Held.antt =====
-- Reconciling a ready pod does not take its worker from a session, nor give it one.
use sandboxd_teleport.Prelude.{
  String, Bool, true, false, ◌≡◌, refl, inl, inr, Option, none, some, arith, str_eq, eq_iff,
  Bool-cases, Option-cases, ◌+◌,
}
use sandboxd_teleport.Api.{WorkerEntry, worker_holds, is_busy, busy}
use sandboxd_teleport.Valkey.{Valkey}
use sandboxd_teleport.Assign.Table.{worker}
use sandboxd_teleport.Assign.Workers.{is_claimed, register, upsert_worker, ensure_pool_member}
use sandboxd_teleport.Assign.Workers.Binding.{Sound}
use sandboxd_teleport.Resume.Types.{Plane, World}
use sandboxd_teleport.Discovery.{Pod, refresh, fresh_worker, register_ready, reconcile}

module _ (k : Valkey) (name : String) (pod : Pod) (p : Plane k) (v : Sound k p.table) where
  holds-refresh :
      (u : WorkerEntry) (sid : String)
      → worker k p.table name ≡ some u
      → u.state ≡ busy
      → worker_holds (worker k (refresh k name pod u p).table name) sid ≡ worker_holds (some u) sid
  unfolding refresh upsert_worker register ensure_pool_member worker_holds
  holds-refresh u sid found b =
      let same = (v.member name u found).0 in
      let changed : WorkerEntry = record u {
        pod_ip = pod.ip;
        pool = pod.pool;
        version = u.version + 1;
      } in
      ground (
        arith,
        found,
        b,
        same,
        eq_iff u.pod name,
        (k.strings WorkerEntry).get-set p.table.workers u.pod name changed,
      )

  holds-idle :
      (o : Option WorkerEntry) (sid : String)
      → worker k p.table name ≡ o
      → is_claimed o ≡ false
      → worker_holds (worker k (upsert_worker k (fresh_worker k name pod o) p.table) name) sid
        ≡ worker_holds o sid
  unfolding upsert_worker register worker_holds fresh_worker is_claimed
  holds-idle none sid found i = ground (
    arith,
    found,
    eq_iff name name,
    (k.strings WorkerEntry).get-set p.table.workers name name
        (record (fresh_worker k name pod none) { version = 1 }),
  )
  holds-idle (some u) sid found i = ground (
    arith,
    found,
    i,
    eq_iff name name,
    (k.strings WorkerEntry).get-set p.table.workers name name
        (record (fresh_worker k name pod (some u)) { version = u.version + 1 }),
  )

  holds-register_ready :
      (sid : String)
      → worker_holds (worker k (register_ready k name pod p).table name) sid
        ≡ worker_holds (worker k p.table name) sid
  unfolding register_ready is_claimed
  holds-register_ready sid = elim (Option-cases (worker k p.table name)) [
    | inl gone ↦ rw (gone, register_ready) (holds-idle none sid gone refl)
    | inr (u, found) ↦ elim (Bool-cases (is_busy u.state)) [
      | inl b ↦ rw (found, register_ready) (rw b (holds-refresh u sid found (ground (arith, b))))
      | inr i ↦ rw (found, register_ready) (rw i (holds-idle (some u) sid found i))
    ]
  ]

  -- Reconcile of a pod of a pool that is ready, has an address and is not being deleted leaves its
  -- worker to the session that holds it, and to no other, in a table whose sets agree with its entries.
  pub worker_holds-reconcile :
      (w : World k) (suspender : Bool) (sid : String)
      → str_eq pod.pool "" ≡ false
      → pod.terminating ≡ false
      → pod.ready ≡ true
      → str_eq pod.ip "" ≡ false
      → worker_holds (worker k (reconcile k w suspender name (some pod) p).table name) sid
        ≡ worker_holds (worker k p.table name) sid
  unfolding reconcile
  worker_holds-reconcile w suspender sid pooled alive ready addressed =
      rw (pooled, reconcile) (rw (alive, ready, addressed) (holds-register_ready sid))

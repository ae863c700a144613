-- ===== src/Assign/Workers/Pools.antt =====
-- What discovery, release and the pool counts of assign.go must not do.
use sandboxd_teleport.Prelude.{
  String, true, ◌≤◌, ◌≡◌, inl, inr, some, arith, eq_iff, Option-cases, length_of_subset, List, [],
  ◌∷◌,
}
use mathlib.Core.Option
use sandboxd_teleport.Assign.Sessions.Due.{is_some}
use sandboxd_teleport.Api.{WorkerEntry, idle, busy}
use sandboxd_teleport.Valkey.{Valkey}
use sandboxd_teleport.Assign.Table.{Table, worker}
use sandboxd_teleport.Assign.Workers.{
  register, upsert_worker, release_worker, count_workers, is_claimed, collect, pool_workers, freed,
}
use sandboxd_teleport.Assign.Workers.Binding.{Sound}

module _ (k : Valkey) (t : Table k) where
  -- Registering a worker as idle leaves a claimed worker as it is: its entry stays, with its session,
  -- and no pool's idle set gains a member.
  pub upsert_worker_claimed :
      (w u : WorkerEntry)
      → w.state ≡ idle
      → worker k t w.pod ≡ some u
      → u.state ≡ busy
      → ((pod : String) → worker k (upsert_worker k w t) pod ≡ worker k t pod)
        × ((pool pod : String)
            → (k.sets).has (upsert_worker k w t).idle_set pool pod
              ≡ (k.sets).has t.idle_set pool pod)
  unfolding upsert_worker register is_claimed
  upsert_worker_claimed w u i found b =
      (λ pod. ground (arith, i, found, b), λ pool pod. ground (arith, i, found, b))

  -- Releasing a worker offers it exactly when its entry is still there, never as a phantom: the entry
  -- becomes idle and loses its session, and an entry that is gone is not made.
  pub release_worker_offers :
      (pod pool : String)
      → ((k.sets).has (release_worker k pod pool t).idle_set pool pod ≡ is_some (worker k t pod))
        × (worker k (release_worker k pod pool t) pod ≡ Option.map freed (worker k t pod))
  unfolding release_worker
  release_worker_offers pod pool = elim (Option-cases (worker k t pod)) [
    | inl gone ↦ ground (
      arith,
      gone,
      (k.sets).has-srem t.idle_set pool pod pool pod,
      eq_iff pool pool,
      eq_iff pod pod,
    )
    | inr (w, found) ↦ ground (
      arith,
      found,
      (k.sets).has-sadd t.idle_set pool pod pool pod,
      eq_iff pool pool,
      eq_iff pod pod,
      (k.strings WorkerEntry).get-set t.workers pod pod (freed w),
    )
  ]

  module _ (v : Sound k t) where
    offered_member :
        (pool pod : String)
        → (k.sets).has t.idle_set pool pod ≡ true
        → (k.sets).has t.all_set pool pod ≡ true
    offered_member pool pod h = elim (Option-cases (worker k t pod)) [
      | inl gone ↦ ground (arith, v.offers pool pod)
      | inr (w, found) ↦ ground (arith, v.offers pool pod, v.member pod w found, eq_iff w.pool pool)
    ]

    -- In a table whose sets agree with its workers, a pool never counts more idle workers than
    -- workers.
    pub count_workers-le : (pool : String) → (count_workers k t pool).0 ≤ (count_workers k t pool).1
    unfolding count_workers
    count_workers-le pool =
        rw ((k.sets).scard-smembers t.idle_set pool, (k.sets).scard-smembers t.all_set pool)
          (length_of_subset _ _ ((k.sets).smembers-Distinct t.idle_set pool) (λ pod h. ground (
            arith,
            offered_member pool pod,
            (k.sets).smembers-has t.idle_set pool pod,
            (k.sets).smembers-has t.all_set pool pod,
          )))

-- The loop of PoolWorkers drops memberships, and only those without an entry.
collect-Sound :
    (k : Valkey) (pool : String) (pods : List String) (t : Table k)
    → Sound k t
    → Sound k (collect k pool pods t).1
unfolding collect
collect-Sound k pool [] t v = v
collect-Sound k pool (pod ∷ pods) t v = elim (Option-cases (worker k t pod)) [
  | inl gone ↦
      rw (gone, collect)
        (collect-Sound k pool pods (record t { all_set = (k.sets).srem t.all_set pool pod })
          (record {
            offers = v.offers;
            member = λ x w found. ground (
              arith,
              v.member x w found,
              (k.sets).has-srem t.all_set pool pod w.pool x,
              eq_iff pod x,
            );
          }))
  | inr (w, found) ↦ rw (found, collect) (collect-Sound k pool pods t v)
]

pub pool_workers-Sound :
    (k : Valkey) (pool : String) (t : Table k) → Sound k t → Sound k (pool_workers k pool t).1
unfolding pool_workers
pool_workers-Sound k pool t v = collect-Sound k pool ((k.sets).smembers t.all_set pool) t v

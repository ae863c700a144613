-- ===== src/Assign/Workers.antt =====
-- The worker half of assign.go: GetWorker, UpsertWorker, RemoveWorker, ClaimIdleWorker,
-- ReleaseWorker, EnsurePoolMember, PoolWorkers, CountWorkers, ListWorkerPods and IdleWorkers.
pub mod Binding
pub mod Claim
pub mod Pools
use sandboxd_teleport.Prelude.{
  ℕ, String, Bool, false, ◌+◌, Option, none, some, List, [], ◌∷◌, if◌then◌else◌, not_found,
  no_capacity, Result, ok, err,
}
use sandboxd_teleport.Api.{WorkerEntry, idle, busy, is_busy}
use sandboxd_teleport.Valkey.{Valkey}
use sandboxd_teleport.Assign.Table.{Table, worker}

-- Whether a stored entry is there and claimed.
unfoldable pub is_claimed : Option WorkerEntry → Bool
is_claimed none = false
is_claimed (some w) = is_busy w.state

abbrev pub claimed : WorkerEntry → String → WorkerEntry
claimed w sid = record w { state = busy; sid = sid; version = w.version + 1 }

abbrev pub freed : WorkerEntry → WorkerEntry
freed w = record w { state = idle; sid = ""; version = w.version + 1 }

module _ (k : Valkey) where
  unfoldable pub get_worker : Table k → String → Result WorkerEntry
  get_worker t pod = elim (worker k t pod) [ some w ↦ ok w | none ↦ err not_found ]

  -- SET of a worker's entry.
  abbrev pub store_worker : WorkerEntry → Table k → Table k
  store_worker w t = record t { workers = (k.strings WorkerEntry).set t.workers w.pod w }

  -- The script after its first line: SET and SADD, or SET and SREM, or neither.
  unfoldable pub register : WorkerEntry → Table k → Table k
  unfolding is_claimed
  register w t =
      if is_busy w.state
      then record (store_worker w t) { idle_set = (k.sets).srem t.idle_set w.pool w.pod }
      else if is_claimed (worker k t w.pod)
      then t
      else record (store_worker w t) { idle_set = (k.sets).sadd t.idle_set w.pool w.pod }

  -- `w.Version++`, the script's SADD to the pool's members, and the rest of it.
  unfoldable pub upsert_worker : WorkerEntry → Table k → Table k
  unfolding register
  upsert_worker w t =
      register (record w { version = w.version + 1 })
        (record t { all_set = (k.sets).sadd t.all_set w.pool w.pod })

  unfoldable pub remove_worker : String → String → Table k → Table k
  remove_worker pod pool t = record t {
    workers = (k.strings WorkerEntry).del t.workers pod;
    idle_set = (k.sets).srem t.idle_set pool pod;
    all_set = (k.sets).srem t.all_set pool pod;
  }

  unfoldable pub ensure_pool_member : String → String → Table k → Table k
  ensure_pool_member pod pool t = record t { all_set = (k.sets).sadd t.all_set pool pod }

  -- The script after SPOP took `pod`. An entry that is gone leaves the pod popped.
  unfoldable pub bind_popped : String → String → Table k → Result WorkerEntry × Table k
  bind_popped pod sid t = elim (worker k t pod) [
    | none ↦ (err no_capacity, t)
    | some w ↦ (
      ok (claimed w sid),
      record t { workers = (k.strings WorkerEntry).set t.workers pod (claimed w sid) },
    )
  ]

  unfoldable pub claim_idle_worker : String → String → Table k → Result WorkerEntry × Table k
  unfolding bind_popped
  claim_idle_worker pool sid t = elim ((k.sets).spop t.idle_set pool) [
    | none ↦ (err no_capacity, t)
    | some (pod, rest) ↦ bind_popped pod sid (record t { idle_set = rest })
  ]

  unfoldable pub release_worker : String → String → Table k → Table k
  release_worker pod pool t = elim (worker k t pod) [
    | none ↦ record t { idle_set = (k.sets).srem t.idle_set pool pod }
    | some w ↦ record t {
      workers = (k.strings WorkerEntry).set t.workers pod (freed w);
      idle_set = (k.sets).sadd t.idle_set pool pod;
    }
  ]

  -- The loop of PoolWorkers over the pool's members: entries that are there, stale members pruned.
  unfoldable pub collect : String → List String → Table k → List WorkerEntry × Table k
  collect pool [] t = ([], t)
  collect pool (pod ∷ pods) t =
      let rest = λ (u : Table k). collect pool pods u in
      elim (worker k t pod) [
        | none ↦ rest (record t { all_set = (k.sets).srem t.all_set pool pod })
        | some w ↦ let (ws, u) = rest t in (w ∷ ws, u)
      ]

  unfoldable pub pool_workers : String → Table k → List WorkerEntry × Table k
  unfolding collect
  pool_workers pool t = collect pool ((k.sets).smembers t.all_set pool) t

  unfoldable pub idle_workers : Table k → String → List String
  idle_workers t pool = (k.sets).smembers t.idle_set pool

  unfoldable pub list_worker_pods : Table k → List String
  list_worker_pods t = (k.strings WorkerEntry).scan t.workers

  -- The pool's idle workers, and all of them.
  unfoldable pub count_workers : Table k → String → ℕ × ℕ
  count_workers t pool = ((k.sets).scard t.idle_set pool, (k.sets).scard t.all_set pool)

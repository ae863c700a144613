-- ===== src/Assign/Workers/Claim.antt =====
-- ClaimIdleWorker on a table in order: a claim takes one idle worker of the pool, and no other claim
-- can take it again.
use sandboxd_teleport.Prelude.{
  String, true, false, ◌≡◌, ◌≢◌, refl, sym, subst, ◌∙◌, inl, inr, some, arith, str_eq, eq_iff,
  if◌then◌else◌, Option-cases, Result, ok, err, no_capacity,
}
use sandboxd_teleport.Api.{WorkerEntry, idle, worker_holds}
use sandboxd_teleport.Valkey.{Valkey}
use sandboxd_teleport.Assign.Table.{Table, worker}
use sandboxd_teleport.Assign.Workers.{bind_popped, claim_idle_worker, claimed}
use sandboxd_teleport.Assign.Workers.Binding.{Sound, offered, popped, store_busy}

module _ (k : Valkey) (t : Table k) (pool sid : String) where
  -- What a claim did: it bound one worker that was idle, and touched no other entry.
  pub record Took (w : WorkerEntry) (u : Table k) : Type 0 where
    pub before : WorkerEntry
    pub was : worker k t w.pod ≡ some before
    pub was_idle : before.state ≡ idle
    pub in_pool : before.pool ≡ pool
    pub result : w ≡ claimed before sid
    pub entries :
        (pod : String) → worker k u pod ≡ (if str_eq w.pod pod then some w else worker k t pod)
    pub sound : Sound k u

  pub now_held : {w : WorkerEntry} {u : Table k} → Took w u → worker k u w.pod ≡ some w
  now_held {w} took = ground (arith, took.entries w.pod, eq_iff w.pod w.pod)

  pub others :
      {w : WorkerEntry} {u : Table k}
      → Took w u
      → (pod : String) → w.pod ≢ pod
      → worker k u pod ≡ worker k t pod
  others {w} took pod ne = ground (arith, took.entries pod, eq_iff w.pod pod)

  abbrev pub Claims : Result WorkerEntry × Table k → Type 0
  Claims (ok w, u) = Took w u
  Claims (err e, u) =
      (e ≡ no_capacity) × (u ≡ t) × ((pod : String) → offered pool (worker k t pod) ≡ false)

  module _ (v : Sound k t) where
    took :
        (pod : String) (w : WorkerEntry)
        → worker k t pod ≡ some w
        → w.state ≡ idle
        → w.pod ≡ pod
        → w.pool ≡ pool
        → Claims (bind_popped k pod sid (record t { idle_set = (k.sets).srem t.idle_set pool pod }))
    unfolding bind_popped
    took pod w found i p q =
        rw (found, bind_popped)
          (record {
            before = w;
            was = subst (λ x. worker k t x ≡ some w) (sym p) found;
            was_idle = i;
            in_pool = q;
            result = refl;
            entries = λ x. ground (
              arith,
              (k.strings WorkerEntry).get-set t.workers pod x (claimed w sid),
              eq_iff pod x,
              eq_iff w.pod x,
            );
            sound =
                store_busy k t v pod pool (claimed w sid) refl p q (λ u e. ground (arith, q))
                  (subst (λ r. (k.sets).has t.all_set r pod ≡ true) q (v.member pod w found).1);
          })

    claim_pod :
        (pod : String)
        → (k.sets).has t.idle_set pool pod ≡ true
        → Claims (bind_popped k pod sid (record t { idle_set = (k.sets).srem t.idle_set pool pod }))
    claim_pod pod h = let (w, found, i, p, q) = popped k t v pod pool h in took pod w found i p q

    -- In a table whose idle sets agree with its workers, a claim succeeds exactly when the pool has
    -- an idle worker. It binds one such worker to the session, leaves the others, and keeps the sets
    -- in agreement; a failed one changes nothing.
    pub claim_idle_worker-Claims : Claims (claim_idle_worker k pool sid t)
    unfolding claim_idle_worker
    claim_idle_worker-Claims = elim (Option-cases ((k.sets).spop t.idle_set pool)) [
      | inl empty ↦
          rw (empty, claim_idle_worker)
            (
              refl,
              refl,
              λ pod. ground (arith, v.offers pool pod, (k.sets).spop-none t.idle_set pool pod),
            )
      | inr ((pod, rest), some_pod) ↦
          let (h, same) = (k.sets).spop-some t.idle_set pool pod rest some_pod in
          rw (some_pod, claim_idle_worker, same) (claim_pod pod h)
    ]

  -- The same, for a claim that is known to have returned a worker.
  pub claim-Took :
      Sound k t
      → (w : WorkerEntry) (u : Table k) → claim_idle_worker k pool sid t ≡ (ok w, u)
      → Took w u
  claim-Took v w u e = subst Claims e (claim_idle_worker-Claims v)

-- In a table whose idle sets agree with its workers, two claims in a row that succeed bind different
-- workers, and the first binding stands after the second.
pub claim_idle_worker_distinct :
    (k : Valkey) (t u x : Table k) (pool sid pool' sid' : String) (w w' : WorkerEntry)
    → Sound k t
    → claim_idle_worker k pool sid t ≡ (ok w, u)
    → claim_idle_worker k pool' sid' u ≡ (ok w', x)
    → (w.pod ≢ w'.pod) × (worker k x w.pod ≡ some w) × (worker_holds (some w) sid ≡ true)
unfolding worker_holds
claim_idle_worker_distinct k t u x pool sid pool' sid' w w' v e f =
    let first = claim-Took k t pool sid v w u e in
    let second = claim-Took k u pool' sid' first.sound w' x f in
    let apart : w.pod ≢ w'.pod = λ same. distinct first second same in
    (
      apart,
      others k u pool' sid' second w.pod (λ same. apart (sym same)) ∙ now_held k t pool sid first,
      ground (arith, first.result, eq_iff sid sid),
    )
  where
    distinct :
        (first : Took k t pool sid w u) (second : Took k u pool' sid' w' x) → w.pod ≡ w'.pod → ⊥
    distinct first second same =
        let found : worker k u w'.pod ≡ some w =
          subst (λ p. worker k u p ≡ some w) same (now_held k t pool sid first) in
        ground (arith, second.was, second.was_idle, first.result, found)

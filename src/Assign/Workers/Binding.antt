-- ===== src/Assign/Workers/Binding.antt =====
-- The idle sets of assign.go agree with the workers' entries after every script.
use sandboxd_teleport.Prelude.{
  String, Bool, true, false, ◌+◌, ◌≡◌, refl, subst, inl, inr, Option, none, some, arith, str_eq,
  eq_iff, if◌then◌else◌, Bool-cases, Option-cases,
}
use sandboxd_teleport.Api.{WorkerEntry, idle, busy, is_busy}
use sandboxd_teleport.Valkey.{Valkey}
use sandboxd_teleport.Assign.Table.{Table, worker}
use sandboxd_teleport.Assign.Workers.{
  is_claimed, register, upsert_worker, remove_worker, ensure_pool_member, release_worker, freed,
}

-- Whether an entry is that of an idle worker of the pool.
abbrev pub offered : String → Option WorkerEntry → Bool
offered pool none = false
offered pool (some w) = if is_busy w.state then false else str_eq w.pool pool

module _ (k : Valkey) where
  pub record Sound (t : Table k) : Type 0 where
    pub offers :
        (pool pod : String) → (k.sets).has t.idle_set pool pod ≡ offered pool (worker k t pod)
    pub member :
        (pod : String) (w : WorkerEntry)
        → worker k t pod ≡ some w
        → (w.pod ≡ pod) × ((k.sets).has t.all_set w.pool pod ≡ true)

  -- The pool that a caller names is the one that the entry records, if there is an entry.
  abbrev pub InPool : Table k → String → String → Type 0
  InPool t pod pool = (w : WorkerEntry) → worker k t pod ≡ some w → w.pool ≡ pool

  -- One script's writes to the entries and sets, and what they need.
  module _ (t : Table k) (v : Sound t) where
    -- A pod is offered by no pool but its own.
    only_pool :
        (pod pool q : String) → InPool t pod pool → (k.sets).has t.idle_set q pod ≡ true → pool ≡ q
    only_pool pod pool q same h = elim (Option-cases (worker k t pod)) [
      | inl gone ↦ ground (arith, v.offers q pod)
      | inr (u, found) ↦ ground (arith, v.offers q pod, same u found, eq_iff u.pool q)
    ]

    -- SET of an entry with SADD, at the keys of its pod and pool.
    store_idle :
        (pod pool : String) (w : WorkerEntry)
        → w.state ≡ idle
        → w.pod ≡ pod
        → w.pool ≡ pool
        → InPool t pod pool
        → (k.sets).has t.all_set pool pod ≡ true
        → Sound (record t {
          workers = (k.strings WorkerEntry).set t.workers pod w;
          idle_set = (k.sets).sadd t.idle_set pool pod;
        })
    store_idle pod pool w s p q same known = record {
      offers = λ r x. ground (
        arith,
        (k.strings WorkerEntry).get-set t.workers pod x w,
        v.offers r x,
        (k.sets).has-sadd t.idle_set pool pod r x,
        eq_iff pod x,
        eq_iff pool r,
        eq_iff w.pool r,
        only_pool pod pool r same,
      );
      member = λ x u h.
          ground
            (arith, (k.strings WorkerEntry).get-set t.workers pod x w, eq_iff pod x, v.member x u);
    }

    -- SET of an entry with SREM, at the keys of its pod and pool.
    pub store_busy :
        (pod pool : String) (w : WorkerEntry)
        → w.state ≡ busy
        → w.pod ≡ pod
        → w.pool ≡ pool
        → InPool t pod pool
        → (k.sets).has t.all_set pool pod ≡ true
        → Sound (record t {
          workers = (k.strings WorkerEntry).set t.workers pod w;
          idle_set = (k.sets).srem t.idle_set pool pod;
        })
    store_busy pod pool w s p q same known = record {
      offers = λ r x. ground (
        arith,
        (k.strings WorkerEntry).get-set t.workers pod x w,
        v.offers r x,
        (k.sets).has-srem t.idle_set pool pod r x,
        eq_iff pod x,
        eq_iff pool r,
        eq_iff w.pool r,
        only_pool pod pool r same,
      );
      member = λ x u h.
          ground
            (arith, (k.strings WorkerEntry).get-set t.workers pod x w, eq_iff pod x, v.member x u);
    }

    pub ensure_pool_member-Sound : (pod pool : String) → Sound (ensure_pool_member k pod pool t)
    unfolding ensure_pool_member
    ensure_pool_member-Sound pod pool = record {
      offers = v.offers;
      member = λ x u h. ground (arith, (k.sets).has-sadd t.all_set pool pod u.pool x, v.member x u);
    }

    pub remove_worker-Sound :
        (pod pool : String) → InPool t pod pool → Sound (remove_worker k pod pool t)
    unfolding remove_worker
    remove_worker-Sound pod pool same = record {
      offers = λ q x. ground (
        arith,
        (k.strings WorkerEntry).get-del t.workers pod x,
        v.offers q x,
        (k.sets).has-srem t.idle_set pool pod q x,
        eq_iff pod x,
        eq_iff pool q,
        only_pool pod pool q same,
      );
      member = λ x u h. ground (
        arith,
        (k.strings WorkerEntry).get-del t.workers pod x,
        eq_iff pod x,
        v.member x u,
        (k.sets).has-srem t.all_set pool pod u.pool x,
      );
    }

  module _ (t : Table k) (v : Sound t) where
    register-Sound :
        (w : WorkerEntry)
        → InPool t w.pod w.pool
        → (k.sets).has t.all_set w.pool w.pod ≡ true
        → Sound (register k w t)
    unfolding register
    register-Sound w same known = elim (Bool-cases (is_busy w.state)) [
      | inl b ↦ rw (b, register) (store_busy t v w.pod w.pool w (ground arith) refl refl same known)
      | inr i ↦ elim (Bool-cases (is_claimed (worker k t w.pod))) [
        | inl c ↦ rw (i, c, register) v
        | inr c ↦
            rw (i, c, register) (store_idle t v w.pod w.pool w (ground arith) refl refl same known)
      ]
    ]

    pub release_worker-Sound :
        (pod pool : String) → InPool t pod pool → Sound (release_worker k pod pool t)
    unfolding release_worker
    release_worker-Sound pod pool same = elim (Option-cases (worker k t pod)) [
      | inl gone ↦
          rw (gone, release_worker)
            (record {
              offers = λ r x. ground (
                arith,
                v.offers r x,
                (k.sets).has-srem t.idle_set pool pod r x,
                eq_iff pod x,
                eq_iff pool r,
              );
              member = v.member;
            })
      | inr (w, found) ↦
          rw (found, release_worker)
            (store_idle t v pod pool (freed w) refl (v.member pod w found).0 (same w found) same (
              subst (λ q. (k.sets).has t.all_set q pod ≡ true) (same w found)
                (v.member pod w found).1))
    ]

    -- What SPOP takes from a pool is the pod of an idle worker of the pool.
    pub popped :
        (pod pool : String)
        → (k.sets).has t.idle_set pool pod ≡ true
        → (w : WorkerEntry) × (worker k t pod ≡ some w)
          × (w.state ≡ idle)
          × (w.pod ≡ pod)
          × (w.pool ≡ pool)
    popped pod pool h = elim (Option-cases (worker k t pod)) [
      | inl gone ↦ absurd (ground (arith, v.offers pool pod))
      | inr (w, found) ↦ (
        w,
        found,
        ground (arith, v.offers pool pod),
        (v.member pod w found).0,
        ground (arith, v.offers pool pod, eq_iff w.pool pool),
      )
    ]

  pub upsert_worker-Sound :
      (t : Table k)
      → Sound t
      → (w : WorkerEntry) → InPool t w.pod w.pool
      → Sound (upsert_worker k w t)
  unfolding upsert_worker ensure_pool_member
  upsert_worker-Sound t v w same =
      register-Sound _ (ensure_pool_member-Sound t v w.pod w.pool)
        (record w { version = w.version + 1 }) same
        (ground (
          arith,
          (k.sets).has-sadd t.all_set w.pool w.pod w.pool w.pod,
          eq_iff w.pool w.pool,
          eq_iff w.pod w.pod,
        ))

-- ===== src/Discovery/Reclaimed.antt =====
-- ReclaimOrphanBindings: which workers it never releases.
use sandboxd_teleport.Prelude.{
  ℕ, String, Bool, true, false, ◌+◌, ◌<◌, ◌≡◌, ◌≢◌, refl, sym, subst, ap, ◌∙◌, inl, inr, Option,
  none, some, List, [], ◌∷◌, arith, str_eq, eq_iff, ltb, ◌==◌, if◌then◌else◌, if_case, Bool-cases,
  Option-cases,
}
use sandboxd_teleport.Api.{SessionEntry, WorkerEntry, is_busy, is_suspended}
use sandboxd_teleport.Valkey.{Valkey}
use sandboxd_teleport.Assign.Table.{Table, session, worker}
use sandboxd_teleport.Assign.Workers.{release_worker, list_worker_pods, freed}
use sandboxd_teleport.Assign.Workers.Binding.{Sound, release_worker-Sound}
use sandboxd_teleport.Assign.History.{release_sessions}
use sandboxd_teleport.Resume.Types.{Plane}
use sandboxd_teleport.Resume.Suspend.{release}
use sandboxd_teleport.Discovery.{
  Marks, put_mark, is_healthy, session_reason, reclaim_reason, strike, reclaim_pod, reclaim_pods,
  reclaim,
}

abbrev first_of : Option (ℕ × ℕ) → ℕ
first_of none = 0
first_of (some (first, version)) = first

module _ (k : Valkey) (now grace : ℕ) where
  -- The three ends of a strike.
  strike_case :
      (P : ℕ × Marks × Plane k → Type 0) (pod : String) (v : WorkerEntry) (marks : Marks)
      (p : Plane k)
      → P (0, put_mark pod (some (now, v.version)) marks, p)
      → P (0, marks, p)
      → ((first : ℕ)
          → marks pod ≡ some (first, v.version)
          → ltb now (first + grace) ≡ false
          → P (1, put_mark pod none marks, release v.pod v.pool p))
      → P (strike k now grace pod v (marks, p))
  unfolding strike
  strike_case P pod v marks p arms waits releases = elim (Option-cases (marks pod)) [
    | inl unmarked ↦ rw (unmarked, strike) arms
    | inr ((first, version), found) ↦
        rw (found, strike)
          (if_case P (version == v.version) _ _
            (λ same.
              if_case P (ltb now (first + grace)) _ _ (λ _. waits)
                (λ old. releases first (ground (arith, found, same)) old))
            (λ _. arms))
  ]

  -- The worker of a session that is bound to it.
  module _ (pod : String) (v : WorkerEntry) (e : SessionEntry) (named : str_eq v.sid "" ≡ false)
      (awake : is_suspended e.state ≡ false) (bound : e.worker_pod ≡ v.pod) where
    same_some : {u : WorkerEntry} → some u ≡ some v → u ≡ v
    same_some h = cc

    record Keeps (t : Table k) : Type 0 where
      sound : Sound k t
      held : worker k t pod ≡ some v
      live : session k t v.sid ≡ some e

    healthy_here : (t : Table k) → Keeps t → is_healthy (reclaim_reason k v t) ≡ true
    unfolding reclaim_reason session_reason
    healthy_here t h = ground (arith, named, awake, bound, h.live, eq_iff e.worker_pod v.pod)

    other_worker :
        (u : WorkerEntry) (q : Plane k)
        → worker k q.table u.pod ≡ some u
        → u.pod ≢ pod
        → worker k (release_worker k u.pod u.pool q.table) pod ≡ worker k q.table pod
    unfolding release_worker
    other_worker u q found ne = ground (
      arith,
      found,
      ne,
      eq_iff u.pod pod,
      (k.strings WorkerEntry).get-set q.table.workers u.pod pod (freed u),
    )

    release-Keeps :
        (x : String) (u : WorkerEntry) (q : Plane k)
        → worker k q.table x ≡ some u
        → x ≢ pod
        → Keeps q.table
        → Keeps (release u.pod u.pool q).table
    unfolding release
    release-Keeps x u q found apart h =
        let at : u.pod ≡ x = (h.sound.member x u found).0 in
        let found' : worker k q.table u.pod ≡ some u =
          subst (λ y. worker k q.table y ≡ some u) (sym at) found in
        record {
          sound =
              release_worker-Sound k q.table h.sound u.pod u.pool
                (λ c other. ground (arith, found', other));
          held = other_worker u q found' (λ same. apart (sym at ∙ same)) ∙ h.held;
          live = rw ((release_sessions k u.pod u.pool q.table).0) h.live;
        }

    abbrev PodKeeps : Bool × ℕ × Marks × Plane k → Type 0
    PodKeeps (b, n, marks, q) = Keeps q.table

    pod_keeps :
        (x : String) (marks : Marks) (q : Plane k)
        → Keeps q.table
        → PodKeeps (reclaim_pod k now grace x (marks, q))
    unfolding reclaim_pod
    pod_keeps x marks q h = elim (Option-cases (worker k q.table x)) [
      | inl gone ↦ rw (gone, reclaim_pod) h
      | inr (u, found) ↦
          rw (found, reclaim_pod)
            (if_case PodKeeps (is_busy u.state) _ _
              (λ _.
                if_case PodKeeps (is_healthy (reclaim_reason k u q.table)) _ _ (λ _. h)
                  (λ sick.
                    strike_case (λ r. Keeps r.2.table) x u marks q h h
                      (λ first m old. release-Keeps x u q found (apart x u q h found sick) h)))
              (λ _. h))
    ]
      where
        apart :
            (x : String) (u : WorkerEntry) (q : Plane k)
            → Keeps q.table
            → worker k q.table x ≡ some u
            → is_healthy (reclaim_reason k u q.table) ≡ false
            → x ≢ pod
        apart x u q h found sick same =
            let one : u ≡ v = same_some (sym found ∙ ap (worker k q.table) same ∙ h.held) in
            ground (
              arith,
              healthy_here q.table h,
              subst (λ y. is_healthy (reclaim_reason k y q.table) ≡ false) one sick,
            )

    abbrev PodsKeep : ℕ × List String × Marks × Plane k → Type 0
    PodsKeep (n, seen, marks, q) = Keeps q.table

    pods_keep :
        (pods seen : List String) (marks : Marks) (q : Plane k)
        → Keeps q.table
        → PodsKeep (reclaim_pods k now grace pods seen (marks, q))
    unfolding reclaim_pods
    pods_keep [] seen marks q h = h
    pods_keep (x ∷ xs) seen marks q h =
        let r = reclaim_pod k now grace x (marks, q) in
        pods_keep xs (if r.0 then x ∷ seen else seen) r.2 r.3 (pod_keeps x marks q h)

    -- ReclaimOrphanBindings never releases the worker of a session that is bound to it, whatever it
    -- remembers from earlier sweeps: the worker has its entry afterwards. The session may be in any
    -- state but Suspended, and the sets of the table agree with its entries.
    pub reclaim_bound :
        (marks : Marks) (p : Plane k)
        → Sound k p.table
        → worker k p.table pod ≡ some v
        → session k p.table v.sid ≡ some e
        → worker k (reclaim k now grace (marks, p)).2.table pod ≡ some v
    unfolding reclaim
    reclaim_bound marks p sound held live =
        if_case (λ (r : ℕ × Marks × Plane k). worker k r.2.table pod ≡ some v) (grace == 0) _ _
          (λ _. held)
          (λ _.
            (pods_keep (list_worker_pods k p.table) [] marks p
              (record { sound = sound; held = held; live = live })).held)

  -- Every mark was made less than the grace ago.
  abbrev pub Recent : Marks → Type 0
  Recent marks =
      (pod : String) (first version : ℕ) → marks pod ≡ some (first, version) → now < first + grace

  abbrev Unchanged : Plane k → ℕ × Marks × Plane k → Type 0
  Unchanged p (n, marks, q) = (n ≡ 0) × Recent marks × (q ≡ p)

  module _ (positive : 0 < grace) where
    arm-Recent :
        (pod : String) (version : ℕ) (marks : Marks)
        → Recent marks
        → Recent (put_mark pod (some (now, version)) marks)
    arm-Recent pod version marks y x first other h = elim (Bool-cases (str_eq pod x)) [
      | inl same ↦
          let eq : first_of (if str_eq pod x then some (now, version) else marks x) ≡ first =
            ap first_of h in
          ground (arith, eq, same)
      | inr apart ↦ y x first other (ground (arith, h, apart))
    ]

    disarm-Recent : (pod : String) (marks : Marks) → Recent marks → Recent (put_mark pod none marks)
    disarm-Recent pod marks y x first other h = elim (Bool-cases (str_eq pod x)) [
      | inl same ↦ ground (arith, h, same)
      | inr apart ↦ y x first other (ground (arith, h, apart))
    ]

    abbrev PodUnchanged : Plane k → Bool × ℕ × Marks × Plane k → Type 0
    PodUnchanged p (b, n, marks, q) = (n ≡ 0) × Recent marks × (q ≡ p)

    pod_unchanged :
        (x : String) (marks : Marks) (p : Plane k)
        → Recent marks
        → PodUnchanged p (reclaim_pod k now grace x (marks, p))
    unfolding reclaim_pod
    pod_unchanged x marks p y = elim (Option-cases (worker k p.table x)) [
      | inl gone ↦ rw (gone, reclaim_pod) (refl, y, refl)
      | inr (u, found) ↦
          rw (found, reclaim_pod)
            (if_case (PodUnchanged p) (is_busy u.state) _ _
              (λ _.
                if_case (PodUnchanged p) (is_healthy (reclaim_reason k u p.table)) _ _
                  (λ _. (refl, disarm-Recent x marks y, refl))
                  (λ sick.
                    strike_case (Unchanged p) x u marks p
                      (refl, arm-Recent x u.version marks y, refl) (refl, y, refl)
                      (λ first m old. ground (arith, y x first u.version m, old))))
              (λ _. (refl, y, refl)))
    ]

    abbrev PodsUnchanged : Plane k → ℕ × List String × Marks × Plane k → Type 0
    PodsUnchanged p (n, seen, marks, q) = (n ≡ 0) × Recent marks × (q ≡ p)

    pods_unchanged :
        (pods seen : List String) (marks : Marks) (p : Plane k)
        → Recent marks
        → PodsUnchanged p (reclaim_pods k now grace pods seen (marks, p))
    unfolding reclaim_pods
    pods_unchanged [] seen marks p y = (refl, y, refl)
    pods_unchanged (x ∷ xs) seen marks p y =
        let r = reclaim_pod k now grace x (marks, p) in
        let (n, later, same) = pod_unchanged x marks p y in
        let (m, last, again) = pods_unchanged xs (if r.0 then x ∷ seen else seen) r.2 r.3 later in
        (ground (arith, n, m), last, again ∙ same)

    -- A sweep that has seen no binding to be anomalous for as long as the grace releases no worker and
    -- changes nothing: a claim whose session is not written yet is left alone. The grace is not zero.
    pub reclaim_early :
        (marks : Marks) (p : Plane k)
        → Recent marks
        → ((reclaim k now grace (marks, p)).0 ≡ 0) × ((reclaim k now grace (marks, p)).2 ≡ p)
    unfolding reclaim
    reclaim_early marks p y =
        if_case (λ (r : ℕ × Marks × Plane k). (r.0 ≡ 0) × (r.2 ≡ p)) (grace == 0) _ _
          (λ _. (refl, refl))
          (λ _.
            let (n, later, same) = pods_unchanged (list_worker_pods k p.table) [] marks p y in
            (n, same))

-- ===== src/Sandboxd/Supervisor/Bounded.antt =====
-- How often the supervisor starts a sandbox again.
use sandboxd_teleport.Prelude.{
  ℕ, suc, String, Bool, true, false, ◌≤◌, ◌<◌, not, ◌||◌, ◌≡◌, refl, subst, inl, inr, none, some,
  List, [], ◌∷◌, arith, str_eq, eq_iff, ltb, Option-cases, Bool-cases, if_case, if◌then◌else◌,
}
use sandboxd_teleport.Sandboxd.Supervisor.{
  Sandbox, HealthState, Start, restored, cold_started, Server, Host, health_state, put_health_state,
  new_health_state, start, start_again, restart_sandbox, observe, stopped, check_one, tick,
  run_ticks,
}

abbrev pub started : Start → String
started (restored id) = id
started (cold_started id) = id

-- The starts of one sandbox.
unfoldable pub count_starts : String → List Start → ℕ
count_starts id [] = 0
count_starts id (x ∷ xs) =
    let rest = count_starts id xs in if str_eq (started x) id then suc rest else rest

module _ (id : String) where
  -- The sandbox was started at most as often as its restarts count, and these are at most five.
  abbrev pub Bounded : Server → Type 0
  Bounded s =
      (count_starts id s.starts ≤ (health_state id s).restarts) × ((health_state id s).restarts ≤ 5)

  health_state-put :
      (x : String) (h : HealthState) (s : Server)
      → health_state id (put_health_state x h s) ≡ (if str_eq x id then h else health_state id s)
  health_state-put x h s = at (str_eq x id)
    where
      at :
          (b : Bool)
          → (elim (if b then some h else s.states id) [ none ↦ new_health_state | some g ↦ g ])
            ≡ (if b then h else health_state id s)
      at true = refl
      at false = refl

  restarts-put :
      (x : String) (h : HealthState) (s : Server)
      → h.restarts ≡ (health_state x s).restarts
      → (health_state id (put_health_state x h s)).restarts ≡ (health_state id s).restarts
  restarts-put x h s same = elim (Bool-cases (str_eq x id)) [
    | inl here ↦
        let one : x ≡ id = ground (arith, eq_iff x id, here) in
        rw (health_state-put x h s, here)
          (subst (λ z. h.restarts ≡ (health_state z s).restarts) one same)
    | inr other ↦ rw (health_state-put x h s, other) refl
  ]

  -- A state with the same count of restarts.
  put_health_state-Bounded :
      (x : String) (h : HealthState) (s : Server)
      → h.restarts ≡ (health_state x s).restarts
      → Bounded s
      → Bounded (put_health_state x h s)
  put_health_state-Bounded x h s same (few, five) =
      (rw (restarts-put x h s same) few, rw (restarts-put x h s same) five)

  -- One start is allowed for.
  abbrev pub Spare : String → Server → Type 0
  Spare x s =
      (str_eq x id ≡ true → suc (count_starts id s.starts) ≤ (health_state id s).restarts)
      × Bounded s

  start-Bounded :
      (w : Host) (call : Start) (fine : Bool) (s : Server)
      → Spare (started call) s
      → Bounded (start w call fine s)
  unfolding count_starts
  start-Bounded w call true s (room, (few, five)) = (ground (arith, room, few), five)
  start-Bounded w call false s (room, (few, five)) = (ground (arith, room, few), five)

  start_again-Bounded :
      (w : Host) (sb : Sandbox) (s : Server) → Spare sb.id s → Bounded (start_again w sb s)
  unfolding start_again
  start_again-Bounded w sb s b =
      if_case Bounded (str_eq (sb.health).restart_policy "restore") _ _
        (λ _.
          if_case Bounded (str_eq sb.snapshot "" || not w.has_s3) _ _ (λ _. b.1)
            (λ _.
              if_case Bounded (not (w.downloads sb.snapshot)) _ _ (λ _. b.1)
                (λ _. start-Bounded w (restored sb.id) (w.restores sb.id) s b)))
        (λ _.
          if_case Bounded (str_eq (sb.health).restart_policy "cold") _ _
            (λ _. start-Bounded w (cold_started sb.id) (w.creates sb.id) s b) (λ _. b.1))

  restart_sandbox-Bounded :
      (w : Host) (sb : Sandbox) (s : Server) → Bounded s → Bounded (restart_sandbox w sb s)
  unfolding restart_sandbox
  restart_sandbox-Bounded w sb s b =
      let h = health_state sb.id s in
      let counted = put_health_state sb.id (record h { restarts = suc h.restarts }) s in
      if_case Bounded (not (ltb h.restarts 5)) _ _ (λ _. b)
        (λ under.
          if_case Bounded _ _ _ (λ _. (spare under).1)
            (λ _. start_again-Bounded w sb counted (spare under)))
    where
      spare :
          not (ltb (health_state sb.id s).restarts 5) ≡ false
          → Spare sb.id (
              put_health_state sb.id
                (record (health_state sb.id s) { restarts = suc (health_state sb.id s).restarts })
                s)
      spare under = elim (Bool-cases (str_eq sb.id id)) [
        | inl here ↦
            let one : id ≡ sb.id = ground (arith, eq_iff sb.id id, here) in
            let few : count_starts id s.starts ≤ (health_state sb.id s).restarts =
              subst (λ z. count_starts id s.starts ≤ (health_state z s).restarts) one b.0 in
            let more : (health_state sb.id s).restarts < 5 = ground (arith, under) in
            rw
              (
                health_state-put sb.id
                    (record (health_state sb.id s) {
                      restarts = suc (health_state sb.id s).restarts;
                    })
                    s,
                here,
              )
              ((λ _. omega (arith, few)), (omega (arith, few), omega (arith, more)))
        | inr other ↦
            rw
              (
                health_state-put sb.id
                    (record (health_state sb.id s) {
                      restarts = suc (health_state sb.id s).restarts;
                    })
                    s,
                other,
              )
              ((λ same. absurd (ground (arith, same))), b)
      ]

  stopped-Bounded : (w : Host) (sb : Sandbox) (s : Server) → Bounded s → Bounded (stopped w sb s)
  unfolding stopped
  stopped-Bounded w sb s b =
      let reported =
        put_health_state sb.id (record (health_state sb.id s) { oom_reported = true }) s in
      let still =
        put_health_state-Bounded sb.id (record (health_state sb.id s) { oom_reported = true }) s
          refl b in
      if_case Bounded
        (str_eq (sb.health).restart_policy "cold" || str_eq (sb.health).restart_policy "restore") _
        _ (λ _. restart_sandbox-Bounded w sb reported still) (λ _. still)

  restarts-observe :
      (w : Host) (sb : Sandbox) (h : HealthState) → (observe w sb h).restarts ≡ h.restarts
  unfolding observe
  restarts-observe w sb h = ground arith

  check_one-Bounded :
      (w : Host) (sb : Sandbox) (s : Server) → Bounded s → Bounded (check_one w sb s)
  unfolding check_one
  check_one-Bounded w sb s b = elim (Option-cases (w.state sb.id)) [
    | inl failed ↦ rw (failed, check_one) (stopped-Bounded w sb s b)
    | inr (st, answered) ↦
        rw (answered, check_one)
          (if_case Bounded (str_eq st "stopped") _ _ (λ _. stopped-Bounded w sb s b)
            (λ _.
              if_case Bounded (not (str_eq st "running")) _ _
                (λ _. put_health_state-Bounded sb.id (health_state sb.id s) s refl b)
                (λ _.
                  put_health_state-Bounded sb.id (observe w sb (health_state sb.id s)) s
                    (restarts-observe w sb (health_state sb.id s)) b)))
  ]

  tick-Bounded : (w : Host) (sbs : List Sandbox) (s : Server) → Bounded s → Bounded (tick w sbs s)
  unfolding tick
  tick-Bounded w [] s b = b
  tick-Bounded w (sb ∷ sbs) s b = tick-Bounded w sbs (check_one w sb s) (check_one-Bounded w sb s b)

  -- However the engine, the network, the probes and object storage answer, and whatever sandboxes the
  -- worker has at each tick, the supervisor starts one sandbox again at most five times: a server that
  -- started it no more often than its restarts count, with at most five of them, stays so over any
  -- sequence of ticks.
  pub run_ticks-Bounded :
      (ticks : List (Host × List Sandbox)) (s : Server) → Bounded s → Bounded (run_ticks ticks s)
  unfolding run_ticks
  run_ticks-Bounded [] s b = b
  run_ticks-Bounded ((w, sbs) ∷ ticks) s b =
      run_ticks-Bounded ticks (tick w sbs s) (tick-Bounded w sbs s b)

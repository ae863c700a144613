-- ===== src/Sandboxd/Supervisor.antt =====
-- supervisor.go and the registry of state.go: the sandboxes of a worker, their health, and the restart
-- of one that stopped. The engine, the network, the probes' connections and the download of a snapshot
-- answer as arguments say; the deletion and the teardown before a start are not recorded. Times are
-- seconds.
pub mod Bounded
use sandboxd_teleport.Prelude.{
  ℕ, suc, String, Bool, true, false, ◌+◌, not, ◌&&◌, ◌||◌, Option, none, some, List, [], ◌∷◌,
  str_eq, ltb, ◌==◌, if◌then◌else◌,
}
use sandboxd_teleport.Api.{PortMap, Health}

-- The fields of a sandbox that the supervisor reads.
pub record Sandbox : Type 0 where
  pub id : String
  pub bundle : String
  pub snapshot : String
  pub ports : List PortMap
  pub health : Health

-- healthState; `last_ready` is `none` for the zero time.
pub record HealthState : Type 0 where
  pub ready : Bool
  pub restarts : ℕ
  pub last_ready : Option ℕ
  pub idle : Bool
  pub oom_reported : Bool

abbrev pub new_health_state : HealthState
new_health_state = record {
  ready = false;
  restarts = 0;
  last_ready = none;
  idle = false;
  oom_reported = false;
}

-- A call of the engine that starts a sandbox.
pub data Start : Type 0 where
  restored cold_started : String → Start

-- The server: its health states, the starts that were asked for (the newest first), and the counter
-- restart_failures.
pub record Server : Type 0 where
  pub states : String → Option HealthState
  pub starts : List Start
  pub restart_failures : ℕ

-- What surrounds a tick. `state` is the engine's answer, `none` for an error; `status` is the code of an
-- HTTP probe, `none` for no answer.
pub record Host : Type 0 where
  pub now : ℕ
  pub state : String → Option String
  pub connects : ℕ → Bool
  pub status : ℕ → String → Option ℕ
  pub netns : Bool
  pub builds_own_network : Bool
  pub sets_up : String → Bool
  pub has_s3 : Bool
  pub downloads : String → Bool
  pub restores : String → Bool
  pub creates : String → Bool

-- healthState and putHealthState.
abbrev pub health_state : String → Server → HealthState
health_state id s = elim (s.states id) [ none ↦ new_health_state | some h ↦ h ]

abbrev pub put_health_state : String → HealthState → Server → Server
put_health_state id h s = record s { states = λ x. if str_eq id x then some h else s.states x }

abbrev pub is_empty : List PortMap → Bool
is_empty [] = true
is_empty (p ∷ ps) = false

-- usesProbe.
unfoldable pub uses_probe : Health → List PortMap → Bool
uses_probe h ports = (str_eq h.probe "tcp" || str_eq h.probe "http") && not (is_empty ports)

-- Whether the idle timeout is over since the last time a sandbox was ready.
abbrev pub is_late : ℕ → ℕ → Option ℕ → Bool
is_late now timeout none = false
is_late now timeout (some t) = ltb (t + timeout) now

module _ (w : Host) where
  -- The port that is probed.
  unfoldable pub probe_port_of : Sandbox → ℕ
  probe_port_of sb = elim sb.ports [
    | [] ↦ (sb.health).probe_port
    | p ∷ ps ↦ if (sb.health).probe_port == 0 then p.container else (sb.health).probe_port
  ]

  -- probe.
  unfoldable pub probe : Sandbox → Bool
  unfolding probe_port_of
  probe sb =
      let port = probe_port_of sb in
      let path = if str_eq (sb.health).probe_path "" then "/" else (sb.health).probe_path in
      if str_eq (sb.health).probe "tcp"
      then w.connects port
      else if str_eq (sb.health).probe "http"
      then elim (w.status port path) [ none ↦ false | some code ↦ ltb code 500 ]
      else false

  abbrev pub count_failure : Server → Server
  count_failure s = record s { restart_failures = s.restart_failures + 1 }

  abbrev pub start : Start → Bool → Server → Server
  start call fine s =
      if fine
      then record s { starts = call ∷ s.starts }
      else count_failure (record s { starts = call ∷ s.starts })

  -- The start of restartSandbox, by its policy.
  unfoldable pub start_again : Sandbox → Server → Server
  start_again sb s =
      if str_eq (sb.health).restart_policy "restore"
      then (if str_eq sb.snapshot "" || not w.has_s3
          then count_failure s
          else if not (w.downloads sb.snapshot)
          then count_failure s
          else start (restored sb.id) (w.restores sb.id) s)
      else if str_eq (sb.health).restart_policy "cold"
      then start (cold_started sb.id) (w.creates sb.id) s
      else s

  -- restartSandbox.
  unfoldable pub restart_sandbox : Sandbox → Server → Server
  unfolding start_again
  restart_sandbox sb s =
      let h = health_state sb.id s in
      if not (ltb h.restarts 5)
      then s
      else (let counted = put_health_state sb.id (record h { restarts = suc h.restarts }) s in
          if not (is_empty sb.ports) && w.netns && not w.builds_own_network && not (w.sets_up sb.id)
          then count_failure counted
          else start_again sb counted)

  -- The health of a sandbox that runs.
  unfoldable pub observe : Sandbox → HealthState → HealthState
  unfolding probe uses_probe
  observe sb h =
      let fine = if uses_probe sb.health sb.ports then probe sb else true in
      let seen =
        if fine
        then record h { ready = true; last_ready = some w.now; idle = false; oom_reported = false }
        else record h { ready = false; oom_reported = false } in
      let timeout = (sb.health).idle_timeout_sec in
      if ltb 0 timeout && is_late w.now timeout seen.last_ready
      then record seen { idle = true }
      else seen

  -- A sandbox that stopped.
  unfoldable pub stopped : Sandbox → Server → Server
  unfolding restart_sandbox
  stopped sb s =
      let reported =
        put_health_state sb.id (record (health_state sb.id s) { oom_reported = true }) s in
      if str_eq (sb.health).restart_policy "cold" || str_eq (sb.health).restart_policy "restore"
      then restart_sandbox sb reported
      else reported

  -- checkOne.
  unfoldable pub check_one : Sandbox → Server → Server
  unfolding stopped observe
  check_one sb s = elim (w.state sb.id) [
    | none ↦ stopped sb s
    | some st ↦
        if str_eq st "stopped"
        then stopped sb s
        else if not (str_eq st "running")
        then put_health_state sb.id (health_state sb.id s) s
        else put_health_state sb.id (observe sb (health_state sb.id s)) s
  ]

  -- One tick of supervise.
  unfoldable pub tick : List Sandbox → Server → Server
  unfolding check_one
  tick [] s = s
  tick (sb ∷ sbs) s = tick sbs (check_one sb s)

-- supervise, as a sequence of ticks.
unfoldable pub run_ticks : List (Host × List Sandbox) → Server → Server
unfolding tick
run_ticks [] s = s
run_ticks ((w, sbs) ∷ ticks) s = run_ticks ticks (tick w sbs s)

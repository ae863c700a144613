-- ===== src/Resume/Heal.antt =====
-- selfheal.go: the ResumingHealer, which adopts or rolls back sessions that are stuck in Resuming.
pub mod Laws
pub mod Recovery
use sandboxd_teleport.Prelude.{
  ℕ, zero, suc, String, Bool, true, false, ◌+◌, ◌*◌, not, ◌&&◌, Option, none, some, List, [], ◌∷◌,
  str_eq, ltb, listed, if◌then◌else◌, Error, version_conflict, not_found, Result, ok, err,
}
use sandboxd_teleport.Api.{SessionEntry, running, suspended, is_resuming}
use sandboxd_teleport.Valkey.{Valkey}
use sandboxd_teleport.Assign.Table.{Table}
use sandboxd_teleport.Assign.Sessions.{get_session, put_session_cas, list_sessions}
use sandboxd_teleport.Resume.Types.{
  Plane, World, Phase, roll_back, promote_running, notify, mirror_if_durable,
}
use sandboxd_teleport.Resume.Cas.{max_tries}

-- `seenResuming`: when each session was first seen in Resuming.
abbrev pub Seen : Type 0
Seen = String → Option ℕ

abbrev pub mark : String → Option ℕ → Seen → Seen
mark sid o seen x = if str_eq sid x then o else seen x

-- What the two loops change, and when: `none` is a session that moved on.
unfoldable pub rolled : SessionEntry → Option SessionEntry
rolled e =
    if is_resuming e.state && not (str_eq e.snapshot "")
    then some (record e { state = suspended; worker_pod = ""; worker_ip = "" })
    else none

unfoldable pub promoted : String → SessionEntry → Option SessionEntry
promoted ip e =
    if is_resuming e.state && str_eq e.worker_ip ip
    then some (record e { state = running })
    else none

-- How a loop ends: with a written entry, without one, or with an error.
pub data Healed : Type 0 where
  wrote : SessionEntry → Healed
  moved_on gave_up : Healed
  failed : Error → Healed

module _ (k : Valkey) where
  unfoldable pub settle_heal :
      Result SessionEntry × Table k → (Table k → Healed × Table k) → Healed × Table k
  settle_heal (ok e, u) again = (wrote e, u)
  settle_heal (err version_conflict, u) again = again u
  settle_heal (err x, u) again = (failed x, u)

  -- The loop of rollback and of promote.
  unfoldable pub heal_loop :
      ℕ
      → (SessionEntry → Option SessionEntry)
      → (ℕ → Table k → Table k)
      → String
      → ℕ
      → ℕ
      → Table k
      → Healed × Table k
  unfolding settle_heal
  heal_loop now change others sid zero i t = (gave_up, t)
  heal_loop now change others sid (suc n) i t =
      let again = heal_loop now change others sid n (suc i) in
      elim (get_session k (others (2 * i) t) sid) [
        | err x ↦ (failed x, others (2 * i) t)
        | ok e ↦ elim (change e) [
          | none ↦ (moved_on, others (2 * i) t)
          | some f ↦
              settle_heal (put_session_cas k now f (others (2 * i + 1) (others (2 * i) t))) again
        ]
      ]

  module _ (w : World k) where
    unfoldable pub heal :
        Phase → (SessionEntry → Option SessionEntry) → String → Plane k → Healed × Plane k
    unfolding heal_loop
    heal phase change sid p =
        let (r, t) = heal_loop w.now change (w.others phase) sid max_tries 0 p.table in
        elim r [
          | wrote e ↦ (wrote e, mirror_if_durable e (record p { table = t }))
          | moved_on ↦ (moved_on, record p { table = t })
          | gave_up ↦ (gave_up, record p { table = t })
          | failed x ↦ (failed x, record p { table = t })
        ]

    -- rollback: whether it rolled back.
    unfoldable pub rollback : String → Seen × Plane k → Bool × Seen × Plane k
    unfolding heal
    rollback sid (seen, p) =
        let (r, q) = heal roll_back rolled sid p in
        elim r [
          | wrote e ↦ (true, mark sid none seen, q)
          | moved_on ↦ (false, seen, q)
          | gave_up ↦ (false, seen, q)
          | failed x ↦ (false, seen, q)
        ]

    -- promote: nil is returned for all but an error.
    unfoldable pub promote : String → String → Plane k → Option Error × Plane k
    unfolding heal
    promote sid ip p =
        let (r, q) = heal promote_running (promoted ip) sid p in
        elim r [
          | wrote e ↦ (none, q)
          | moved_on ↦ (none, q)
          | gave_up ↦ (none, q)
          | failed x ↦ (some x, q)
        ]

    abbrev pub count : Bool × Seen × Plane k → ℕ × Seen × Plane k
    count (healed, seen, q) = (if healed then 1 else 0, seen, q)

    -- A worker that does not run the sandbox: back to Suspended, where there is a snapshot.
    unfoldable pub give_up_worker : SessionEntry → Seen × Plane k → ℕ × Seen × Plane k
    unfolding rollback
    give_up_worker e (seen, p) =
        if str_eq e.snapshot "" then (0, seen, p) else count (rollback e.sid (seen, p))

    -- A worker that does.
    unfoldable pub adopt : SessionEntry → Seen × Plane k → ℕ × Seen × Plane k
    unfolding promote
    adopt e (seen, p) =
        let (x, q) = promote e.sid e.worker_ip p in
        elim x [ none ↦ (1, mark e.sid none seen, notify e.pool q) | some _ ↦ (0, seen, q) ]

    -- The healer asks the worker once the grace has passed.
    unfoldable pub probe : SessionEntry → Seen × Plane k → ℕ × Seen × Plane k
    unfolding give_up_worker adopt
    probe e s = elim (w.fleet.status e.worker_ip e.sid) [
      | none ↦ give_up_worker e s
      | some status ↦ if str_eq status "running" then adopt e s else give_up_worker e s
    ]

    -- The entries that the sweep looks at.
    unfoldable pub watched : SessionEntry → Bool
    watched e = is_resuming e.state && not (str_eq e.worker_ip "")

    unfoldable pub heal_session : ℕ → SessionEntry → Seen × Plane k → ℕ × Seen × Plane k
    unfolding watched probe
    heal_session grace e (seen, p) =
        if watched e
        then elim (seen e.sid) [
          | none ↦ (0, mark e.sid (some w.now) seen, p)
          | some first ↦ if ltb w.now (first + grace) then (0, seen, p) else probe e (seen, p)
        ]
        else (0, seen, p)

    unfoldable pub heal_sessions : ℕ → List SessionEntry → Seen × Plane k → ℕ × Seen × Plane k
    unfolding heal_session
    heal_sessions grace [] (seen, p) = (0, seen, p)
    heal_sessions grace (e ∷ es) s =
        let (n, later, q) = heal_session grace e s in
        let (m, last, r) = heal_sessions grace es (later, q) in (n + m, last, r)

    -- `current`: the sessions that the sweep saw in Resuming.
    unfoldable pub current : List SessionEntry → List String
    unfolding watched
    current [] = []
    current (e ∷ es) = let rest = current es in if watched e then e.sid ∷ rest else rest

    unfoldable pub prune : List String → Seen → Seen
    prune sids seen sid = if listed sid sids then seen sid else none

    unfoldable pub heal_sweep : ℕ → Seen × Plane k → ℕ × Seen × Plane k
    unfolding heal_sessions current prune
    heal_sweep grace (seen, p) =
        let es = list_sessions k p.table in
        let (n, after, q) = heal_sessions grace es (seen, p) in (n, prune (current es) after, q)

-- ===== src/Durability/Laws.antt =====
-- What the rebuild of session entries brings back.
use sandboxd_teleport.Prelude.{
  ℕ, String, true, false, ◌<◌, ◌≡◌, refl, ap, if_case, inl, inr, none, some, List, [], ◌∷◌, Option,
  arith, ◌&&◌, str_eq, eq_iff, Option-cases, if◌then◌else◌, listed, lt→ltb,
}
use sandboxd_teleport.Api.{SessionEntry, PortMap, Health}
use sandboxd_teleport.Cluster.{
  Objects, Answers, done, Session, SessionStatus, port_copies, health_to_cr, health_from_cr,
}
use sandboxd_teleport.Valkey.{Valkey}
use sandboxd_teleport.Assign.Table.{Table, session}
use sandboxd_teleport.Assign.Sessions.{
  bump, put_session_cas, stored_version, write_session, index_suspend,
}
use sandboxd_teleport.Assign.Sessions.Cas.{session-write_session}
use sandboxd_teleport.Durability.{
  apply_entry, status_to_entry, is_durable, mirror, rebuild_session, rebuild_sessions, rebuild_once,
}

-- What a Session resource stands for in a table without the entry.
abbrev pub durable_entry : String → Option Session → Option SessionEntry
durable_entry sid none = none
durable_entry sid (some s) =
    if is_durable s.status.phase then some (bump (status_to_entry sid s.status)) else none

abbrev pub or_else : Option SessionEntry → Option SessionEntry → Option SessionEntry
or_else none o = o
or_else (some e) o = some e

module _ (o : Objects Session) (a : Answers) (k : Valkey) (now : ℕ) where
  session-rebuild_session :
      (x sid : String) (st : SessionStatus) (t : Table k)
      → session k (rebuild_session o a k now x st t).1 sid ≡ (
          if str_eq x sid && is_durable st.phase
          then or_else (session k t sid) (some (bump (status_to_entry sid st)))
          else session k t sid)
  unfolding rebuild_session put_session_cas stored_version status_to_entry
  session-rebuild_session x sid st t = elim (Option-cases (session k t x)) [
    | inl gone ↦
        ground (
          arith,
          gone,
          eq_iff x sid,
          session-write_session k now (bump (status_to_entry x st)) t sid,
        )
    | inr (e, found) ↦ ground (arith, found, eq_iff x sid)
  ]

  session-rebuild_sessions :
      (m : o.Map) (sids : List String) (sid : String) (t : Table k)
      → session k (rebuild_sessions o a k now m sids t).1 sid
        ≡ or_else
            (session k t sid)
            (if listed sid sids then durable_entry sid (o.get m sid) else none)
  unfolding rebuild_sessions listed
  session-rebuild_sessions m [] sid t = ground (arith, Option-cases (session k t sid))
  session-rebuild_sessions m (x ∷ xs) sid t = elim (Option-cases (o.get m x)) [
    | inl gone ↦
        rw (gone, rebuild_sessions)
          (ground (arith, gone, eq_iff x sid, session-rebuild_sessions m xs sid t))
    | inr (s, found) ↦
        let u = (rebuild_session o a k now x s.status t).1 in
        rw (found, rebuild_sessions)
          (ground (
            arith,
            found,
            eq_iff x sid,
            session-rebuild_sessions m xs sid u,
            session-rebuild_session x sid s.status t,
          ))
  ]

  -- Where the Session resources can be listed, the rebuild leaves every entry that is there as it is,
  -- and brings back an entry for exactly those sessions without one whose resource has a phase other
  -- than unset and Absent, made from the resource's status.
  pub session-rebuild_once :
      (m : o.Map) (sid : String) (t : Table k)
      → a.lists ≡ true
      → session k (rebuild_once o a k now m t).1 sid
        ≡ or_else (session k t sid) (durable_entry sid (o.get m sid))
  unfolding rebuild_once
  session-rebuild_once m sid t h = elim (Option-cases (o.get m sid)) [
    | inl gone ↦
        rw (h, rebuild_once) (ground (arith, gone, session-rebuild_sessions m (o.names m) sid t))
    | inr (s, found) ↦
        rw (h, rebuild_once)
          (ground (
            arith,
            found,
            session-rebuild_sessions m (o.names m) sid t,
            o.names_complete m sid s found,
          ))
  ]

  undue_write :
      (x sid : String) (st : SessionStatus) (t : Table k)
      → (k.zset).score t.suspend_due sid ≡ none
      → (k.zset).score (rebuild_session o a k now x st t).1.suspend_due sid ≡ none
  unfolding rebuild_session put_session_cas stored_version status_to_entry write_session
      index_suspend
  undue_write x sid st t h = elim (Option-cases (session k t x)) [
    | inl gone ↦ ground (arith, gone, h, (k.zset).score-zrem t.suspend_due x sid)
    | inr (e, found) ↦ ground (arith, found, h)
  ]

  undue :
      (m : o.Map) (sids : List String) (sid : String) (t : Table k)
      → (k.zset).score t.suspend_due sid ≡ none
      → (k.zset).score (rebuild_sessions o a k now m sids t).1.suspend_due sid ≡ none
  unfolding rebuild_sessions
  undue m [] sid t h = h
  undue m (x ∷ xs) sid t h = elim (Option-cases (o.get m x)) [
    | inl gone ↦ rw (gone, rebuild_sessions) (undue m xs sid t h)
    | inr (s, found) ↦
        rw (found, rebuild_sessions)
          (undue m xs sid (rebuild_session o a k now x s.status t).1
            (undue_write x sid s.status t h))
  ]

undue_once :
    (o : Objects Session) (a : Answers) (k : Valkey) (now : ℕ) (m : o.Map) (sid : String)
    (t : Table k)
    → (k.zset).score t.suspend_due sid ≡ none
    → (k.zset).score (rebuild_once o a k now m t).1.suspend_due sid ≡ none
unfolding rebuild_once
undue_once o a k now m sid t h =
    if_case (λ (r : Option ℕ × Table k). (k.zset).score r.1.suspend_due sid ≡ none) a.lists _ _
      (λ _. undue o a k now m (o.names m) sid t h) (λ _. h)

port_copies_lem : (ps : List PortMap) → port_copies ps ≡ ps
unfolding port_copies
port_copies_lem [] = refl
port_copies_lem (p ∷ ps) = cc (port_copies_lem ps)

-- What a rebuilt entry keeps of the one that was mirrored.
abbrev pub no_idle : Option Health → Option Health
no_idle none = none
no_idle (some h) = some (record h { idle_timeout_sec = 0 })

abbrev pub recovered : (ℕ → ℕ) → SessionEntry → SessionEntry
recovered stored_time e = record e {
  health = no_idle e.health;
  egress = 0;
  ingress = 0;
  idle_timeout = 0;
  checkpoint_interval = 0;
  version = 1;
  last_active = stored_time e.last_active;
  last_checkpoint = 0;
}

health_round : (h : Option Health) → health_from_cr (health_to_cr h) ≡ no_idle h
unfolding health_from_cr health_to_cr
health_round none = refl
health_round (some h) = refl

status_round :
    (stored_time : ℕ → ℕ) (e : SessionEntry) (st : SessionStatus)
    → 0 < e.last_active
    → bump (status_to_entry e.sid (apply_entry stored_time e st)) ≡ recovered stored_time e
unfolding status_to_entry apply_entry
status_round stored_time e st h =
    rw
      (
        lt→ltb 0 e.last_active h,
        port_copies_lem e.ports,
        port_copies_lem e.ports,
        health_round e.health,
      )
      refl

get-mirror :
    (o : Objects Session) (a : Answers) (stored_time : ℕ → ℕ) (e : SessionEntry) (s : Session)
    (m : o.Map)
    → str_eq e.sid "" ≡ false
    → a.reads e.sid ≡ true
    → a.update_status e.sid ≡ done
    → o.get m e.sid ≡ some s
    → o.get (mirror o a stored_time e m) e.sid
      ≡ some (record s { status = apply_entry stored_time e s.status })
unfolding mirror
get-mirror o a stored_time e s m named reads writes found =
    rw (named, reads, found, writes)
      (ground (
        arith,
        eq_iff e.sid e.sid,
        o.get-put m e.sid e.sid (record s { status = apply_entry stored_time e s.status }),
      ))

durable_entry-apply_entry :
    (stored_time : ℕ → ℕ) (e : SessionEntry) (s : Session)
    → 0 < e.last_active
    → is_durable e.state ≡ true
    → durable_entry e.sid (some (record s { status = apply_entry stored_time e s.status }))
      ≡ some (recovered stored_time e)
unfolding apply_entry
durable_entry-apply_entry stored_time e s active durable =
    rw durable (ap (λ x. some x) (status_round stored_time e s.status active))

-- A session whose entry was mirrored to its resource, and that has then no entry and no suspend
-- deadline, as in a Valkey that was wiped, comes back with the rebuild: under version 1, with its
-- state, its worker, its snapshot with the runtime and engine version that made it, its image, its
-- ports and its role, and the activity time as it was stored. Its bandwidth caps, idle timeouts and
-- checkpoint times are lost, and it has no suspend deadline, also when it is running. The entry had
-- an activity time and a phase other than unset and Absent, and the API server answered.
pub rebuild_once-mirror :
    (o : Objects Session) (a : Answers) (k : Valkey) (now : ℕ) (stored_time : ℕ → ℕ)
    (e : SessionEntry) (s : Session) (m : o.Map) (t : Table k)
    → str_eq e.sid "" ≡ false
    → a.lists ≡ true
    → a.reads e.sid ≡ true
    → a.update_status e.sid ≡ done
    → o.get m e.sid ≡ some s
    → 0 < e.last_active
    → is_durable e.state ≡ true
    → session k t e.sid ≡ none
    → (k.zset).score t.suspend_due e.sid ≡ none
    → let u = (rebuild_once o a k now (mirror o a stored_time e m) t).1 in
      (session k u e.sid ≡ some (recovered stored_time e))
      × ((k.zset).score u.suspend_due e.sid ≡ none)
rebuild_once-mirror o a k now stored_time e s m t named lists reads writes found active durable gone
      calm =
    let n = mirror o a stored_time e m in
    (
      rw
          (
            session-rebuild_once o a k now n e.sid t lists,
            gone,
            get-mirror o a stored_time e s m named reads writes found,
          )
          (durable_entry-apply_entry stored_time e s active durable),
      undue_once o a k now n e.sid t calm,
    )

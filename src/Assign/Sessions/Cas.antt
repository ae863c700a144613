-- ===== src/Assign/Sessions/Cas.antt =====
-- The compare-and-set of assign.go: the guard against two writers.
use sandboxd_teleport.Prelude.{
  ℕ, String, ◌+◌, ◌*◌, ◌<◌, ◌≡◌, inl, inr, some, arith, str_eq, eq_iff, Option-cases,
  version_conflict, ok, err, if◌then◌else◌,
}
use sandboxd_teleport.Api.{SessionEntry, running}
use sandboxd_teleport.Valkey.{Valkey}
use sandboxd_teleport.Assign.Table.{Table, session}
use sandboxd_teleport.Assign.Sessions.{
  bump, stored_version, write_session, put_session_cas, delete_session, stamp_active, index_suspend,
}

module _ (k : Valkey) where
  pub session-write_session :
      (now : ℕ) (e : SessionEntry) (t : Table k) (sid : String)
      → session k (write_session k now e t) sid
        ≡ (if str_eq e.sid sid then some e else session k t sid)
  unfolding write_session
  session-write_session now e t sid = (k.strings SessionEntry).get-set t.sessions e.sid sid e

  -- Of two writers of a session that read the same version, where the first write succeeds, the
  -- second is refused and changes nothing, whatever each wrote.
  pub put_session_cas_second :
      (now later : ℕ) (e f b : SessionEntry) (t u : Table k)
      → e.sid ≡ f.sid
      → e.version ≡ f.version
      → put_session_cas k now e t ≡ (ok b, u)
      → put_session_cas k later f u ≡ (err version_conflict, u)
  unfolding put_session_cas stored_version
  put_session_cas_second now later e f b t u same_sid same_version h =
      ground (arith, session-write_session now (bump e) t f.sid, eq_iff e.sid f.sid)

  -- A write of an entry that was read at a version above zero is refused once the session is
  -- deleted, and changes nothing.
  pub delete_session_final :
      (now : ℕ) (e : SessionEntry) (t : Table k)
      → 0 < e.version
      → put_session_cas k now e (delete_session k e.sid t)
        ≡ (err version_conflict, delete_session k e.sid t)
  unfolding put_session_cas stored_version delete_session
  delete_session_final now e t h =
      ground (arith, (k.strings SessionEntry).get-del t.sessions e.sid e.sid, eq_iff e.sid e.sid)

  -- An activity stamp changes the stored version of no session.
  pub stored_version-stamp_active :
      (x sid : String) (now : ℕ) (t : Table k)
      → stored_version k (stamp_active k x now t) sid ≡ stored_version k t sid
  unfolding stamp_active stored_version
  stored_version-stamp_active x sid now t = elim (Option-cases (session k t x)) [
    | inl gone ↦ rw (gone, stamp_active)
    | inr (e, found) ↦
        rw (found, stamp_active)
          (ground (
            arith,
            eq_iff x sid,
            (k.strings SessionEntry).get-set t.sessions x sid (record e { last_active = now }),
          ))
  ]

  -- A writer that read the entry of a running session, with an idle timeout and an activity time,
  -- before a later stamp wins over the stamp: the write puts the older activity time back, and moves
  -- the suspend deadline back with it.
  pub stamp_active_lost :
      (now seen : ℕ) (e : SessionEntry) (t : Table k)
      → session k t e.sid ≡ some e
      → e.state ≡ running
      → 0 < e.idle_timeout
      → 0 < e.last_active
      → e.last_active < seen
      → let u = (put_session_cas k now e (stamp_active k e.sid seen t)).1 in
        (session k u e.sid ≡ some (bump e))
        × ((k.zset).score (stamp_active k e.sid seen t).suspend_due e.sid
            ≡ some (seen + e.idle_timeout * 1000))
        × ((k.zset).score u.suspend_due e.sid ≡ some (e.last_active + e.idle_timeout * 1000))
  unfolding stamp_active put_session_cas write_session index_suspend stored_version
  stamp_active_lost now seen e t found r i a s =
      let stamped = record e { last_active = seen } in
      let here = (k.strings SessionEntry).get-set t.sessions e.sid e.sid stamped in
      let over =
        (k.strings SessionEntry).get-set ((k.strings SessionEntry).set t.sessions e.sid stamped)
          e.sid e.sid (bump e) in
      let ahead = (k.zset).score-zadd t.suspend_due e.sid e.sid (seen + e.idle_timeout * 1000) in
      let back =
        (k.zset).score-zadd ((k.zset).zadd t.suspend_due e.sid (seen + e.idle_timeout * 1000)) e.sid
          e.sid (e.last_active + e.idle_timeout * 1000) in
      (
        ground (arith, found, here, over, eq_iff e.sid e.sid, r),
        ground (arith, found, ahead, eq_iff e.sid e.sid, r),
        ground (arith, found, here, back, eq_iff e.sid e.sid, r),
      )

-- ===== src/Assign/Sessions.antt =====
-- The session half of assign.go: GetSession, PutSessionCAS, DeleteSession, StampActive, SuspendDue,
-- CheckpointDue and ListSessions.
pub mod Cas
pub mod Due
pub mod Interleaved
pub mod Sweep
use sandboxd_teleport.Prelude.{
  ℕ, String, ◌+◌, ◌*◌, ◌&&◌, none, some, List, [], ◌∷◌, ltb, ◌==◌, if◌then◌else◌, version_conflict,
  not_found, Result, ok, err,
}
use sandboxd_teleport.Api.{SessionEntry, is_running}
use sandboxd_teleport.Valkey.{Valkey}
use sandboxd_teleport.Assign.Table.{Table, session}

-- The base of a session's next periodic checkpoint.
unfoldable pub checkpoint_base : ℕ → SessionEntry → ℕ
checkpoint_base now e =
    if ltb 0 e.last_checkpoint
    then e.last_checkpoint
    else if ltb 0 e.last_active
    then e.last_active
    else now

abbrev pub bump : SessionEntry → SessionEntry
bump e = record e { version = e.version + 1 }

module _ (k : Valkey) where
  unfoldable pub get_session : Table k → String → Result SessionEntry
  get_session t sid = elim (session k t sid) [ some e ↦ ok e | none ↦ err not_found ]

  -- The version that the script compares: 0 for an absent key.
  unfoldable pub stored_version : Table k → String → ℕ
  stored_version t sid = elim (session k t sid) [ some e ↦ e.version | none ↦ 0 ]

  -- What the script does to `idx:suspend:due`, after SET.
  unfoldable pub index_suspend : SessionEntry → (k.zset).Map → (k.zset).Map
  index_suspend e z =
      if is_running e.state
      then (if ltb 0 e.last_active && ltb 0 e.idle_timeout
          then (k.zset).zadd z e.sid (e.last_active + e.idle_timeout * 1000)
          else (k.zset).zrem z e.sid)
      else (k.zset).zrem z e.sid

  -- And to `idx:checkpoint:due`.
  unfoldable pub index_checkpoint : ℕ → SessionEntry → (k.zset).Map → (k.zset).Map
  index_checkpoint now e z =
      if is_running e.state
      then (if ltb 0 e.checkpoint_interval
          then (k.zset).zadd z e.sid (checkpoint_base now e + e.checkpoint_interval * 1000)
          else (k.zset).zrem z e.sid)
      else (k.zset).zrem z e.sid

  -- A successful write: SET of the entry under its new version, and both indexes.
  unfoldable pub write_session : ℕ → SessionEntry → Table k → Table k
  unfolding index_suspend index_checkpoint
  write_session now e t = record t {
    sessions = (k.strings SessionEntry).set t.sessions e.sid e;
    suspend_due = index_suspend e t.suspend_due;
    checkpoint_due = index_checkpoint now e t.checkpoint_due;
  }

  -- The entry comes back with its new version, as `e.Version = res` sets it.
  unfoldable pub put_session_cas : ℕ → SessionEntry → Table k → Result SessionEntry × Table k
  unfolding stored_version write_session
  put_session_cas now e t =
      if stored_version t e.sid == e.version
      then (ok (bump e), write_session now (bump e) t)
      else (err version_conflict, t)

  -- DEL of the entry, and then ZREM from each index: three commands, not one script.
  unfoldable pub delete_entry : String → Table k → Table k
  delete_entry sid t = record t { sessions = (k.strings SessionEntry).del t.sessions sid }

  unfoldable pub unindex_suspend : String → Table k → Table k
  unindex_suspend sid t = record t { suspend_due = (k.zset).zrem t.suspend_due sid }

  unfoldable pub unindex_checkpoint : String → Table k → Table k
  unindex_checkpoint sid t = record t { checkpoint_due = (k.zset).zrem t.checkpoint_due sid }

  unfoldable pub delete_session : String → Table k → Table k
  unfolding delete_entry unindex_suspend unindex_checkpoint
  delete_session sid t = unindex_checkpoint sid (unindex_suspend sid (delete_entry sid t))

  -- Activity: the version stays, and the suspend deadline slides forward.
  unfoldable pub stamp_active : String → ℕ → Table k → Table k
  stamp_active sid now t = elim (session k t sid) [
    | none ↦ t
    | some e ↦ record t {
      sessions = (k.strings SessionEntry).set t.sessions sid (record e { last_active = now });
      suspend_due =
          (if is_running e.state && ltb 0 e.idle_timeout
            then (k.zset).zadd t.suspend_due e.sid (now + e.idle_timeout * 1000)
            else t.suspend_due);
    }
  ]

  -- MGET of a list of sids: the entries that are there, and the sids that have none.
  unfoldable pub load : Table k → List String → List SessionEntry
  load t [] = []
  load t (sid ∷ sids) = elim (session k t sid) [ none ↦ load t sids | some e ↦ e ∷ load t sids ]

  unfoldable pub stale : Table k → List String → List String
  stale t [] = []
  stale t (sid ∷ sids) = elim (session k t sid) [
    | none ↦ sid ∷ stale t sids
    | some e ↦ stale t sids
  ]

  -- ZREM of several members.
  unfoldable pub zrem_all : (k.zset).Map → List String → (k.zset).Map
  zrem_all z [] = z
  zrem_all z (sid ∷ sids) = zrem_all ((k.zset).zrem z sid) sids

  -- `dueEntries` for each index: the entries that are due, with stale members pruned.
  unfoldable pub suspend_due : ℕ → Table k → List SessionEntry × Table k
  unfolding load stale zrem_all
  suspend_due now t =
      let sids = (k.zset).range t.suspend_due now in
      (load t sids, record t { suspend_due = zrem_all t.suspend_due (stale t sids) })

  unfoldable pub checkpoint_due : ℕ → Table k → List SessionEntry × Table k
  unfolding load stale zrem_all
  checkpoint_due now t =
      let sids = (k.zset).range t.checkpoint_due now in
      (load t sids, record t { checkpoint_due = zrem_all t.checkpoint_due (stale t sids) })

  unfoldable pub list_sessions : Table k → List SessionEntry
  unfolding load
  list_sessions t = load t ((k.strings SessionEntry).scan t.sessions)

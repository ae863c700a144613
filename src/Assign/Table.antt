-- ===== src/Assign/Table.antt =====
-- The keys of the assignment table, over a Valkey server.
use sandboxd_teleport.Prelude.{String, Option}
use sandboxd_teleport.Api.{SessionEntry, WorkerEntry}
use sandboxd_teleport.Valkey.{Valkey}

-- `session:<sid>`, `worker:<pod>`, `pool:<pool>:idle`, `pool:<pool>:all`, `idx:suspend:due` and
-- `idx:checkpoint:due`.
pub record Table (k : Valkey) : Type 0 where
  pub sessions : (k.strings SessionEntry).Map
  pub workers : (k.strings WorkerEntry).Map
  pub idle_set : (k.sets).Map
  pub all_set : (k.sets).Map
  pub suspend_due : (k.zset).Map
  pub checkpoint_due : (k.zset).Map

-- GET of a session's and of a worker's key.
abbrev pub session : (k : Valkey) → Table k → String → Option SessionEntry
session k t = (k.strings SessionEntry).get t.sessions

abbrev pub worker : (k : Valkey) → Table k → String → Option WorkerEntry
worker k t = (k.strings WorkerEntry).get t.workers

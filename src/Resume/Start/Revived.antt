-- ===== src/Resume/Start/Revived.antt =====
-- A rollback of a session that was deleted meanwhile.
use sandboxd_teleport.Prelude.{String, ◌≡◌, none, some, arith, eq_iff}
use sandboxd_teleport.Api.{SessionEntry, fresh_entry}
use sandboxd_teleport.Valkey.{Valkey}
use sandboxd_teleport.Assign.Table.{session}
use sandboxd_teleport.Assign.Sessions.{bump, delete_session}
use sandboxd_teleport.Assign.Sessions.Due.{Indexed, delete_session-Indexed}
use sandboxd_teleport.Resume.Types.{Plane, World, roll_back}
use sandboxd_teleport.Resume.Cas.Laws.{read_fresh}
use sandboxd_teleport.Resume.Start.{unbind, rollback_to_suspended}
use sandboxd_teleport.Resume.Start.Quiet.{IsQuiet, cas_mirrored_quiet, unbind-KeepsKey}

module _ (k : Valkey) (w : World k) (quiet : IsQuiet k w) where
  -- A rollback that comes after the session was deleted, with no other client at work, makes a new
  -- entry for the session, in no state and with nothing to restore.
  pub delete_session-rollback :
      (sid : String) (p : Plane k)
      → Indexed k p.table
      → let q = record p { table = delete_session k sid p.table } in
        session k (rollback_to_suspended k w sid q).table sid ≡ some (bump (fresh_entry sid))
  unfolding rollback_to_suspended unbind delete_session
  delete_session-rollback sid p v =
      let q : Plane k = record p { table = delete_session k sid p.table } in
      let i : Indexed k q.table = delete_session-Indexed k sid p.table v in
      let (found, fits) = read_fresh k q.table sid i (gone sid p) in
      (cas_mirrored_quiet k w quiet roll_back sid none unbind q (fresh_entry sid)
        (unbind-KeepsKey k w quiet) i found fits).1.at
    where
      gone : (sid : String) (p : Plane k) → session k (delete_session k sid p.table) sid ≡ none
      gone sid p =
          ground (arith, (k.strings SessionEntry).get-del p.table.sessions sid sid, eq_iff sid sid)

-- ===== src/Resume/Workflow/Undo.antt =====
-- A resume that failed leaves no worker bound, and a session that was suspended can be restored again.
use sandboxd_teleport.Prelude.{String, ◌≡◌, some, Result, ok, err}
use sandboxd_teleport.Api.{SessionEntry, WorkerEntry}
use sandboxd_teleport.Valkey.{Valkey}
use sandboxd_teleport.Assign.Table.{Table, session, worker}
use sandboxd_teleport.Resume.Types.{Plane, World}
use sandboxd_teleport.Resume.Start.Quiet.{IsQuiet}
use sandboxd_teleport.Api.{busy, suspended}

-- Every worker that is bound afterwards was bound before, in the same way.
abbrev pub NoneBound : (k : Valkey) → Table k → Table k → Type 0
NoneBound k t u =
    (pod : String) (v : WorkerEntry)
    → worker k u pod ≡ some v
    → v.state ≡ busy
    → worker k t pod ≡ some v

module _ (k : Valkey) (w : World k) (quiet : IsQuiet k w) where
  abbrev NoneIfErr : Table k → Result String × Plane k → Type 0
  NoneIfErr t (ok ip, q) = Unit
  NoneIfErr t (err x, q) = NoneBound k t q.table

  -- The session can be restored from the snapshot.
  abbrev pub Restorable : String → String → Plane k → Type 0
  Restorable sid snapshot q =
      (e : SessionEntry) × (session k q.table sid ≡ some e)
      × (e.state ≡ suspended)
      × (e.snapshot ≡ snapshot)

  abbrev RestorableIfErr : String → String → Result String × Plane k → Type 0
  RestorableIfErr sid snapshot (ok ip, q) = Unit
  RestorableIfErr sid snapshot (err x, q) = Restorable sid snapshot q

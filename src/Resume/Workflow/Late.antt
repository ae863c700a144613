-- ===== src/Resume/Workflow/Late.antt =====
-- A restore that fails once the deadline of the resume has passed: resumeFromSnapshot then undoes
-- nothing.
use sandboxd_teleport.Prelude.{String, true, false, ◌≡◌, ◌⊎◌, Result, ok, err, str_eq, some}
use sandboxd_teleport.Api.{SessionEntry, WorkerEntry, busy, suspended, resuming}
use sandboxd_teleport.Valkey.{Valkey}
use sandboxd_teleport.Assign.Table.{Table, session, worker}
use sandboxd_teleport.Assign.History.{InOrder}
use sandboxd_teleport.Resume.Types.{Plane, World}
use sandboxd_teleport.Resume.Start.Quiet.{IsQuiet}

module _ (k : Valkey) (w : World k) (quiet : IsQuiet k w) (late : w.late ≡ true) (sid : String)
    (p : Plane k) (e : SessionEntry) (v : InOrder k p.table)
    (found : session k p.table sid ≡ some e) (sleeping : e.state ≡ suspended)
    (kept : str_eq e.snapshot "" ≡ false) where
  -- The session is left Resuming, bound to a worker that stays busy with it.
  abbrev pub LeftResuming : Table k → Type 0
  LeftResuming t =
      (f : SessionEntry) × (c : WorkerEntry) × (session k t sid ≡ some f)
      × (f.state ≡ resuming)
      × (f.snapshot ≡ e.snapshot)
      × (f.worker_pod ≡ c.pod)
      × (worker k t c.pod ≡ some c)
      × (c.state ≡ busy)
      × (c.sid ≡ sid)

  abbrev LeftIfErr : Result String × Plane k → Type 0
  LeftIfErr (ok ip, q) = Unit
  LeftIfErr (err x, q) = (q.table ≡ p.table) ⊎ LeftResuming q.table

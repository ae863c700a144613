-- ===== src/Resume/Checkpoint.antt =====
-- checkpoint.go: the Checkpointer, which records snapshots of sessions that stay Running.
pub mod Laws
use sandboxd_teleport.Prelude.{
  ℕ, zero, suc, String, Bool, ◌+◌, ◌*◌, not, ◌&&◌, Option, none, some, List, [], ◌∷◌, str_eq,
  if◌then◌else◌, Error, version_conflict, not_found, worker_failed, Result, ok, err,
}
use sandboxd_teleport.Api.{SessionEntry, SnapshotResponse, is_running}
use sandboxd_teleport.Valkey.{Valkey}
use sandboxd_teleport.Assign.Table.{Table}
use sandboxd_teleport.Assign.Sessions.{get_session, put_session_cas, checkpoint_due}
use sandboxd_teleport.Resume.Types.{Plane, World, advance_snapshot, mirrored}
use sandboxd_teleport.Resume.Cas.{max_tries, read_entry}

-- The session is still where the checkpoint was made.
unfoldable pub still_there : String → SessionEntry → Bool
still_there pod cur = is_running cur.state && str_eq cur.worker_pod pod

unfoldable pub advance : ℕ → SnapshotResponse → SessionEntry → SessionEntry
advance now resp cur = record cur {
  snapshot = resp.snapshot;
  runtime = resp.runtime;
  engine_version = resp.engine_version;
  last_checkpoint = now;
}

module _ (k : Valkey) where
  -- How a turn ends: `some e` for a written entry, `none` for a snapshot that is dropped. Only a
  -- version conflict is tried again.
  unfoldable pub settle_checkpoint :
      Result SessionEntry × Table k
      → (Table k → Result (Option SessionEntry) × Table k)
      → Result (Option SessionEntry) × Table k
  settle_checkpoint (ok e, u) again = (ok (some e), u)
  settle_checkpoint (err version_conflict, u) again = again u
  settle_checkpoint (err x, u) again = (err x, u)

  -- The loop of checkpointOne: the entry of the sweep first, then what GET finds.
  unfoldable pub checkpoint_loop :
      ℕ
      → SnapshotResponse
      → (ℕ → Table k → Table k)
      → SessionEntry
      → ℕ
      → ℕ
      → Option SessionEntry
      → Table k
      → Result (Option SessionEntry) × Table k
  unfolding read_entry settle_checkpoint still_there advance
  checkpoint_loop now resp others e zero i seed t = (err version_conflict, t)
  checkpoint_loop now resp others e (suc n) i seed t =
      let again = checkpoint_loop now resp others e n (suc i) none in
      elim (read_entry k (err not_found) seed e.sid (others (2 * i) t)) [
        | err x ↦ (err x, others (2 * i) t)
        | ok cur ↦
            if still_there e.worker_pod cur
            then settle_checkpoint
                (put_session_cas k now (advance now resp cur)
                  (others (2 * i + 1) (others (2 * i) t)))
                again
            else (ok none, others (2 * i) t)
      ]

  module _ (w : World k) where
    unfoldable pub checkpoint_one : SessionEntry → Plane k → Option Error × Plane k
    unfolding checkpoint_loop
    checkpoint_one e p = elim (w.fleet.checkpoint e.worker_ip e.sid) [
      | none ↦ (some worker_failed, p)
      | some resp ↦
          let (r, t) =
            checkpoint_loop w.now resp (w.others advance_snapshot) e max_tries 0 (some e) p.table in
          elim r [
            | err x ↦ (some x, record p { table = t })
            | ok none ↦ (none, record p { table = t })
            | ok (some f) ↦ (none, record p { table = t; mirror = mirrored f ∷ p.mirror })
          ]
    ]

    -- One session of the sweep: whether it was checkpointed.
    unfoldable pub checkpoint_session : SessionEntry → Plane k → ℕ × Plane k
    unfolding checkpoint_one
    checkpoint_session e p =
        if is_running e.state && not (str_eq e.worker_ip "")
        then (let (failed, q) = checkpoint_one e p in (elim failed [ none ↦ 1 | some x ↦ 0 ], q))
        else (0, p)

    unfoldable pub checkpoint_sessions : List SessionEntry → Plane k → ℕ × Plane k
    unfolding checkpoint_session
    checkpoint_sessions [] p = (0, p)
    checkpoint_sessions (e ∷ es) p =
        let (n, q) = checkpoint_session e p in let (m, r) = checkpoint_sessions es q in (n + m, r)

    unfoldable pub checkpoint_sweep : Plane k → ℕ × Plane k
    unfolding checkpoint_sessions
    checkpoint_sweep p =
        let (es, t) = checkpoint_due k w.now p.table in
        checkpoint_sessions es (record p { table = t })

-- ===== src/Resume/Checkpoint/Laws.antt =====
-- checkpointOne, whatever other clients do meanwhile, and with none at work.
use sandboxd_teleport.Prelude.{
  ℕ, ◌+◌, ◌*◌, ◌<◌, ◌≡◌, ◌⊎◌, refl, ◌∙◌, Option, none, some, Result, ok, err, arith, eq_iff, ◌∷◌,
}
use sandboxd_teleport.Api.{SessionEntry, SnapshotResponse, running}
use sandboxd_teleport.Valkey.{Valkey}
use sandboxd_teleport.Assign.Table.{Table, session}
use sandboxd_teleport.Assign.Sessions.{
  bump, stored_version, write_session, put_session_cas, index_checkpoint, checkpoint_base,
}
use sandboxd_teleport.Assign.Sessions.Due.{Indexed, suspend_deadline, write_session-Indexed}
use sandboxd_teleport.Assign.Sessions.Cas.{session-write_session}
use sandboxd_teleport.Resume.Types.{Plane, World, advance_snapshot, mirrored}
use sandboxd_teleport.Resume.Cas.{read_entry, max_tries}
use sandboxd_teleport.Resume.Start.Quiet.{IsQuiet}
use sandboxd_teleport.Resume.Checkpoint.{
  still_there, advance, settle_checkpoint, checkpoint_loop, checkpoint_one,
}

module _ (k : Valkey) (now : ℕ) (resp : SnapshotResponse) (e : SessionEntry) where
  -- The written entry is a change of one that a turn took, from the sweep in the first turn and from
  -- the server's table `seen` in the later ones: one that was Running on the same worker, at the
  -- version that the table still had when it was written, with nothing but the snapshot, its engine
  -- and the time of the checkpoint changed.
  pub record Advanced (others : ℕ → Table k → Table k) (first : Option SessionEntry)
      (f : SessionEntry) (u : Table k) : Type 0 where
    pub turn : ℕ
    pub seen : Table k
    pub read : SessionEntry
    pub taken : (first ≡ some read) ⊎ (session k seen e.sid ≡ some read)
    pub base : Table k
    pub base_is : base ≡ others (2 * turn + 1) seen
    pub is_running : read.state ≡ running
    pub same_worker : read.worker_pod ≡ e.worker_pod
    pub is_result : f ≡ bump (advance now resp read)
    pub unchanged : stored_version k base read.sid ≡ read.version
    pub written : u ≡ write_session k now f base

  module _ (others : ℕ → Table k → Table k) where
    abbrev pub AdvancedIfSome :
        Option SessionEntry → Result (Option SessionEntry) × Table k → Type 0
    AdvancedIfSome first (ok (some f), u) = Advanced others first f u
    AdvancedIfSome first (ok none, u) = Unit
    AdvancedIfSome first (err x, u) = Unit

module _ (k : Valkey) (w : World k) (quiet : IsQuiet k w) (e : SessionEntry) (p : Plane k)
    (resp : SnapshotResponse) (at : session k p.table e.sid ≡ some e) (awake : e.state ≡ running)
    (answers : w.fleet.checkpoint e.worker_ip e.sid ≡ some resp) where
  loop_quiet :
      checkpoint_loop k w.now resp (w.others advance_snapshot) e max_tries 0 (some e) p.table ≡ (
        ok (some (bump (advance w.now resp e))),
        write_session k w.now (bump (advance w.now resp e)) p.table,
      )
  unfolding checkpoint_loop read_entry still_there put_session_cas settle_checkpoint stored_version
      advance
  loop_quiet =
      rw (quiet advance_snapshot 0 p.table, quiet advance_snapshot 1 p.table)
        (ground (arith, at, awake, eq_iff e.worker_pod e.worker_pod))

  score-checkpoint :
      0 < w.now
      → 0 < e.checkpoint_interval
      → (k.zset).score
          (write_session k w.now (bump (advance w.now resp e)) p.table).checkpoint_due
          e.sid
        ≡ some (w.now + e.checkpoint_interval * 1000)
  unfolding write_session index_checkpoint checkpoint_base advance
  score-checkpoint now interval = ground (
    arith,
    awake,
    (k.zset).score-zadd p.table.checkpoint_due e.sid e.sid (w.now + e.checkpoint_interval * 1000),
    eq_iff e.sid e.sid,
  )

  recorded :
      session k (write_session k w.now (bump (advance w.now resp e)) p.table) e.sid
      ≡ some (bump (advance w.now resp e))
  unfolding advance
  recorded = ground (
    arith,
    session-write_session k w.now (bump (advance w.now resp e)) p.table e.sid,
    eq_iff e.sid e.sid,
  )

  deadline-advance :
      suspend_deadline (some (bump (advance w.now resp e))) ≡ suspend_deadline (some e)
  unfolding advance
  deadline-advance = refl

  score-suspend :
      Indexed k p.table
      → (k.zset).score
          (write_session k w.now (bump (advance w.now resp e)) p.table).suspend_due
          e.sid
        ≡ (k.zset).score p.table.suspend_due e.sid
  score-suspend v =
      (write_session-Indexed k w.now (bump (advance w.now resp e)) p.table v).suspend e.sid
      ∙ rw (recorded, v.suspend e.sid, at) deadline-advance

  once : checkpoint_one k w e p ≡ (
    none,
    record p {
      table = write_session k w.now (bump (advance w.now resp e)) p.table;
      mirror = mirrored (bump (advance w.now resp e)) ∷ p.mirror;
    },
  )
  unfolding checkpoint_one
  once = rw (answers, checkpoint_one) (rw loop_quiet (rw loop_quiet))

  -- A periodic checkpoint of a session that is Running, with no other client at work: the snapshot is
  -- recorded and mirrored, the session's suspend deadline does not move, and its next checkpoint is
  -- due one interval from now. The session has an interval, and the clock is past zero.
  pub checkpoint_one_quiet :
      Indexed k p.table
      → 0 < w.now
      → 0 < e.checkpoint_interval
      → let q = (checkpoint_one k w e p).1 in
        ((checkpoint_one k w e p).0 ≡ none)
        × (session k q.table e.sid ≡ some (bump (advance w.now resp e)))
        × (q.mirror ≡ mirrored (bump (advance w.now resp e)) ∷ p.mirror)
        × ((k.zset).score q.table.suspend_due e.sid ≡ (k.zset).score p.table.suspend_due e.sid)
        × ((k.zset).score q.table.checkpoint_due e.sid
            ≡ some (w.now + e.checkpoint_interval * 1000))
  checkpoint_one_quiet v now interval =
      rw once (refl, recorded, refl, score-suspend v, score-checkpoint now interval)

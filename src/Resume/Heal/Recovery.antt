-- ===== src/Resume/Heal/Recovery.antt =====
-- A session that is stuck in Resuming is brought back, with no other client at work.
use sandboxd_teleport.Prelude.{
  ℕ, String, true, false, ◌+◌, ◌≤◌, ◌≡◌, refl, ap, ◌∙◌, Option, none, some, ok, arith, str_eq,
}
use sandboxd_teleport.Api.{SessionEntry, WorkerEntry, resuming, suspended}
use sandboxd_teleport.Valkey.{Valkey}
use sandboxd_teleport.Assign.Table.{Table, session, worker}
use sandboxd_teleport.Assign.Sessions.{
  bump, stored_version, write_session, put_session_cas, get_session,
}
use sandboxd_teleport.Assign.Workers.Binding.{offered}
use sandboxd_teleport.Assign.History.{InOrder, keep-Sound}
use sandboxd_teleport.Resume.Types.{Plane, World, Phase, roll_back, mirror_if_durable}
use sandboxd_teleport.Resume.Start.Quiet.{IsQuiet, Moved, written_Moved}
use sandboxd_teleport.Resume.Workflow.{resume}
use sandboxd_teleport.Resume.Suspend.Teleport.{Restores, RestoresTo, resume-RestoresTo}
use sandboxd_teleport.Resume.Heal.{
  Seen, mark, rolled, wrote, settle_heal, heal_loop, heal, rollback, watched, probe, give_up_worker,
  heal_session, count,
}

-- The entry after a rollback.
abbrev pub back : SessionEntry → SessionEntry
back e = bump (record e { state = suspended; worker_pod = ""; worker_ip = "" })

module _ (k : Valkey) (w : World k) (quiet : IsQuiet k w) where
  abbrev pub stored : SessionEntry → Plane k → Plane k
  stored e p = mirror_if_durable e (record p { table = write_session k w.now e p.table })

  gets :
      (t : Table k) (e : SessionEntry) → session k t e.sid ≡ some e → get_session k t e.sid ≡ ok e
  unfolding get_session
  gets t e at = rw (at, get_session)

  loop_quiet :
      (phase : Phase) (change : SessionEntry → Option SessionEntry) (p : Plane k)
      (e f : SessionEntry)
      → session k p.table e.sid ≡ some e
      → change e ≡ some f
      → f.sid ≡ e.sid
      → f.version ≡ e.version
      → heal_loop k w.now change (w.others phase) e.sid 5 0 p.table
        ≡ (wrote (bump f), write_session k w.now (bump f) p.table)
  unfolding heal_loop settle_heal put_session_cas stored_version
  loop_quiet phase change p e f at may same_sid same_version =
      rw (quiet phase 0 p.table, heal_loop)
        (rw (gets p.table e at) (
          rw may (
            rw (quiet phase 0 p.table, quiet phase 1 p.table)
              (ground (arith, at, may, same_sid, same_version)))))

  heal_quiet :
      (phase : Phase) (change : SessionEntry → Option SessionEntry) (p : Plane k)
      (e f : SessionEntry)
      → session k p.table e.sid ≡ some e
      → change e ≡ some f
      → f.sid ≡ e.sid
      → f.version ≡ e.version
      → heal k w phase change e.sid p ≡ (wrote (bump f), stored (bump f) p)
  unfolding heal
  heal_quiet phase change p e f at may same_sid same_version =
      let looped = loop_quiet phase change p e f at may same_sid same_version in
      rw (looped, heal) (rw looped)

  module _ (e : SessionEntry) (p : Plane k) (v : InOrder k p.table)
      (at : session k p.table e.sid ≡ some e) (stuck : e.state ≡ resuming)
      (bound : str_eq e.worker_ip "" ≡ false) (seen : Seen) (grace first : ℕ)
      (since : seen e.sid ≡ some first) (old : first + grace ≤ w.now) where
    probes : heal_session k w grace e (seen, p) ≡ probe k w e (seen, p)
    unfolding heal_session watched
    probes = ground (arith, stuck, bound, since, old)

    -- The worker does not answer, and the session has a snapshot.
    module _ (kept : str_eq e.snapshot "" ≡ false)
        (silent : w.fleet.status e.worker_ip e.sid ≡ none) where
      rolls : rolled e ≡ some (record e { state = suspended; worker_pod = ""; worker_ip = "" })
      unfolding rolled
      rolls = ground (arith, stuck, kept)

      rollback_quiet :
          rollback k w e.sid (seen, p) ≡ (true, mark e.sid none seen, stored (back e) p)
      unfolding rollback
      rollback_quiet =
          let healed = heal_quiet roll_back rolled p e _ at rolls refl refl in
          rw (healed, rollback) (rw healed)

      rolled_back :
          heal_session k w grace e (seen, p) ≡ (1, mark e.sid none seen, stored (back e) p)
      unfolding probe give_up_worker rollback
      rolled_back = probes ∙ rw (silent, probe) (rw kept (ap (count k w) rollback_quiet))

      moved : Moved k w quiet e.sid (back e) p (stored (back e) p)
      moved = written_Moved k w quiet e.sid (back e) p refl v.indexed

      -- A session that is stuck in Resuming with a snapshot, on a worker that does not answer, is
      -- healed once the grace has passed since it was first seen, and the next resume restores it,
      -- where a slot is free, its pool has an idle worker and every worker restores the snapshot.
      -- The table is in order and no other client is at work.
      pub heal_session-resume :
          (w' : World k) (quiet' : IsQuiet k w')
          → str_eq e.pool "" ≡ false
          → w'.slot ≡ true
          → Restores k w' quiet' e.snapshot
          → (pod : String) → offered e.pool (worker k p.table pod) ≡ true
          → (subject pool app : String)
          → let (n, later, q) = heal_session k w grace e (seen, p) in
            let (r, x) = resume k w' e.sid subject pool app q in
            (n ≡ 1) × RestoresTo k e.sid e.snapshot (r.answer, x)
      heal_session-resume w' quiet' pooled slot restores pod spare subject pool app =
          let order : InOrder k (stored (back e) p).table = record {
            indexed = moved.indexed;
            sound = keep-Sound k p.table _ (moved.workers, moved.idle_set, moved.all_set) v.sound;
          } in
          rw rolled_back (
            refl,
            resume-RestoresTo k w' quiet' (stored (back e) p) (back e) order moved.at refl kept
                pooled slot restores pod
                (ap (λ ws. offered e.pool ((k.strings WorkerEntry).get ws pod)) moved.workers
                  ∙ spare)
                subject pool app,
          )

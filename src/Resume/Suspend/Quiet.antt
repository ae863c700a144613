-- ===== src/Resume/Suspend/Quiet.antt =====
-- SuspendNow with no other client at work.
use sandboxd_teleport.Prelude.{
  String, false, ◌≡◌, refl, ◌∙◌, none, some, ◌∷◌, ok, err, arith, str_eq, not_found, worker_failed,
}
use mathlib.Core.Option
use sandboxd_teleport.Api.{SessionEntry, SnapshotResponse, running}
use sandboxd_teleport.Valkey.{Valkey}
use sandboxd_teleport.Assign.Table.{session, worker}
use sandboxd_teleport.Assign.Sessions.{bump, stored_version, write_session}
use sandboxd_teleport.Assign.Sessions.Due.{Indexed, is_some}
use sandboxd_teleport.Assign.Workers.{freed}
use sandboxd_teleport.Assign.Workers.Binding.{Sound, InPool, release_worker-Sound}
use sandboxd_teleport.Assign.Workers.Pools.{release_worker_offers}
use sandboxd_teleport.Assign.History.{InOrder, release_sessions, keep-Indexed, keep-Sound}
use sandboxd_teleport.Resume.Types.{
  Plane, World, Phase, mark_suspending, mark_suspended, mirror_if_durable, mirrored,
}
use sandboxd_teleport.Resume.Cas.{cas_session}
use sandboxd_teleport.Resume.Cas.Laws.{cas_loop_quiet, read_stored}
use sandboxd_teleport.Resume.Start.Quiet.{IsQuiet, KeepsKey, Moved, Moved-trans, written_Moved}
use sandboxd_teleport.Resume.Suspend.{
  begin_suspend, record_snapshot, release, cas_existing, checkpoint_out, suspend_one, suspend_entry,
  suspend_now,
}

begin_suspend-KeepsKey : KeepsKey begin_suspend
unfolding begin_suspend
begin_suspend-KeepsKey e = (refl, refl)

record_snapshot-KeepsKey : (resp : SnapshotResponse) → KeepsKey (record_snapshot resp)
unfolding record_snapshot
record_snapshot-KeepsKey resp e = (refl, refl)

-- The entry on the way, and the entry that a checkpoint leaves.
abbrev pub leaving : SessionEntry → SessionEntry
leaving e = bump (begin_suspend e)

abbrev pub asleep : SnapshotResponse → SessionEntry → SessionEntry
asleep resp e = bump (record_snapshot resp (leaving e))

module _ (k : Valkey) (w : World k) (quiet : IsQuiet k w) where
  -- The plane after a write of the entry.
  abbrev pub wrote : SessionEntry → Plane k → Plane k
  wrote e p = mirror_if_durable e (record p { table = write_session k w.now e p.table })

  pub cas_existing_quiet :
      (phase : Phase) (sid : String) (f : SessionEntry → SessionEntry) (p : Plane k)
      (e : SessionEntry)
      → KeepsKey f
      → Indexed k p.table
      → session k p.table sid ≡ some e
      → (cas_existing k w phase sid f p ≡ (ok (bump (f e)), wrote (bump (f e)) p))
        × Moved k w quiet sid (bump (f e)) p (wrote (bump (f e)) p)
  unfolding cas_existing cas_session
  cas_existing_quiet phase sid f p e keeps v at =
      let (found, fits) = read_stored k p.table sid v (err not_found) e at in
      let same : stored_version k p.table (f e).sid ≡ (f e).version =
        rw ((keeps e).0, (keeps e).1, fits.0) fits.1 in
      let looped =
        cas_loop_quiet k w.now f (err not_found) (w.others phase) sid 4 0 none p.table e
          (quiet phase) found same in
      (
        rw (looped, cas_existing) (rw looped),
        written_Moved k w quiet sid (bump (f e)) p ((keeps e).0 ∙ fits.0) v,
      )

  module _ (e : SessionEntry) (p : Plane k) (v : InOrder k p.table)
      (at : session k p.table e.sid ≡ some e) (awake : e.state ≡ running)
      (bound : str_eq e.worker_ip "" ≡ false) where
    entry_awake : suspend_entry k w e p ≡ suspend_one k w e "suspend" p
    unfolding suspend_entry
    entry_awake = ground (arith, awake, bound)

    -- A session that is Running on a worker is marked first.
    starts_suspend :
        (suspend_now k w e.sid p
          ≡ checkpoint_out k w e.sid e.worker_ip
              (λ x. (none, release e.worker_pod e.pool x))
              (wrote (leaving e) p))
        × Moved k w quiet e.sid (leaving e) p (wrote (leaving e) p)
    unfolding suspend_now suspend_one
    starts_suspend =
        let (marked, m) =
          cas_existing_quiet mark_suspending e.sid begin_suspend p e begin_suspend-KeepsKey
            v.indexed at in
        (rw (at, suspend_now) (entry_awake ∙ rw (marked, suspend_one)), m)

    -- What a suspended session looks like: the entry, and the workers.
    pub record Slept (resp : SnapshotResponse) (q : Plane k) : Type 0 where
      pub recorded : session k q.table e.sid ≡ some (asleep resp e)
      pub freed_worker :
          worker k q.table e.worker_pod ≡ Option.map freed (worker k p.table e.worker_pod)
      pub offered_again :
          (k.sets).has q.table.idle_set e.pool e.worker_pod
          ≡ is_some (worker k p.table e.worker_pod)
      pub durable : q.mirror ≡ mirrored (asleep resp e) ∷ p.mirror
      pub indexed : Indexed k q.table
      pub sound : InPool k p.table e.worker_pod e.pool → Sound k q.table

    released_Slept :
        (resp : SnapshotResponse) (q : Plane k)
        → Moved k w quiet e.sid (asleep resp e) p q
        → q.mirror ≡ mirrored (asleep resp e) ∷ p.mirror
        → Slept resp (release e.worker_pod e.pool q)
    unfolding release
    released_Slept resp q m d =
        let same = release_sessions k e.worker_pod e.pool q.table in
        let (offers, frees) = release_worker_offers k q.table e.worker_pod e.pool in
        record {
          recorded = rw (same.0) m.at;
          freed_worker = frees ∙ rw (m.workers);
          offered_again = offers ∙ rw (m.workers);
          durable = d;
          indexed = keep-Indexed k q.table _ same m.indexed;
          sound = λ own.
              release_worker-Sound k q.table
                (keep-Sound k p.table q.table (m.workers, m.idle_set, m.all_set) v.sound)
                e.worker_pod e.pool (rw (m.workers) own);
        }

    mirror-asleep :
        (resp : SnapshotResponse)
        → (wrote (asleep resp e) (wrote (leaving e) p)).mirror ≡ mirrored (asleep resp e) ∷ p.mirror
    unfolding mirror_if_durable record_snapshot begin_suspend
    mirror-asleep resp = refl

    -- SuspendNow of a session that is Running on a worker, where the worker makes a checkpoint, the
    -- table is in order and no other client is at work: no error; the entry is Suspended with that
    -- checkpoint, mirrored once, and bound to no worker; the worker's entry, if there is one, is
    -- idle and offered by the session's pool; and the table stays in order, where that pool is the
    -- worker's.
    pub suspend_now_lem :
        (resp : SnapshotResponse)
        → w.fleet.suspend e.worker_ip e.sid ≡ some resp
        → ((suspend_now k w e.sid p).0 ≡ none) × Slept resp (suspend_now k w e.sid p).1
    unfolding checkpoint_out
    suspend_now_lem resp answers =
        let (begun, m) = starts_suspend in
        let (marked, n) =
          cas_existing_quiet mark_suspended e.sid (record_snapshot resp) (wrote (leaving e) p)
            (leaving e) (record_snapshot-KeepsKey resp) m.indexed m.at in
        let all = Moved-trans k w quiet e.sid (leaving e) (asleep resp e) p _ _ m n in
        rw (begun, answers, checkpoint_out)
          (rw (marked) (refl, released_Slept resp _ all (mirror-asleep resp)))

    -- And where the worker fails, the entry is left Suspending, with its worker and its snapshot, and
    -- no worker's entry changes.
    pub suspend_now_failed :
        w.fleet.suspend e.worker_ip e.sid ≡ none
        → ((suspend_now k w e.sid p).0 ≡ some worker_failed)
          × Moved k w quiet e.sid (leaving e) p (suspend_now k w e.sid p).1
    unfolding checkpoint_out
    suspend_now_failed fails =
        let (begun, m) = starts_suspend in rw (begun, fails, checkpoint_out) (refl, m)

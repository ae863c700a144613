-- ===== src/Resume/Start/Quiet.antt =====
-- startAndBind with no other client at work: where the session is after each step.
use sandboxd_teleport.Prelude.{
  ℕ, String, true, false, ◌≡◌, refl, ◌∙◌, inl, inr, Option, none, some, Result, ok, err, arith,
  Bool-cases, eq_iff,
}
use mathlib.Core.Option
use sandboxd_teleport.Api.{SessionEntry, WorkerEntry, fresh_entry}
use sandboxd_teleport.Valkey.{Valkey}
use sandboxd_teleport.Assign.Table.{Table, session}
use sandboxd_teleport.Assign.Sessions.{bump, stored_version, write_session}
use sandboxd_teleport.Assign.Sessions.Cas.{session-write_session}
use sandboxd_teleport.Assign.Sessions.Due.{Indexed, write_session-Indexed}
use sandboxd_teleport.Resume.Types.{
  BindSpec, Plane, World, Phase, mark_resuming, mark_running, mirror_if_durable,
}
use sandboxd_teleport.Resume.Cas.{read_entry, cas_session_seed}
use sandboxd_teleport.Resume.Cas.Laws.{cas_loop_quiet, Fits, read_stored, read_fresh, read_seed}
use sandboxd_teleport.Resume.Start.{
  cas_mirrored, drive, drive_and_bind, start_and_bind, bind_resuming, bind_running, unbind,
}

-- No other client of the table does anything meanwhile.
abbrev pub IsQuiet : (k : Valkey) → World k → Type 0
IsQuiet k w = (phase : Phase) (j : ℕ) (u : Table k) → w.others phase j u ≡ u

-- A change that keeps the session's id and the version.
abbrev pub KeepsKey : (SessionEntry → SessionEntry) → Type 0
KeepsKey f = (e : SessionEntry) → ((f e).sid ≡ e.sid) × ((f e).version ≡ e.version)

-- What the workflow holds when it starts on a worker: an entry of this session at its stored
-- version, or none, where none is stored.
abbrev pub Seeded : (k : Valkey) → Table k → String → Option SessionEntry → Type 0
Seeded k t sid none = session k t sid ≡ none
Seeded k t sid (some e) = Fits k t sid e

module _ (k : Valkey) (w : World k) (quiet : IsQuiet k w) where
  -- A step that took the session from one entry to another, and left the workers alone.
  pub record Moved (sid : String) (e : SessionEntry) (p q : Plane k) : Type 0 where
    pub at : session k q.table sid ≡ some e
    pub indexed : Indexed k q.table
    pub workers : q.table.workers ≡ p.table.workers
    pub idle_set : q.table.idle_set ≡ p.table.idle_set
    pub all_set : q.table.all_set ≡ p.table.all_set

  table-mirror_if_durable :
      (e : SessionEntry) (p : Plane k) → (mirror_if_durable e p).table ≡ p.table
  unfolding mirror_if_durable
  table-mirror_if_durable e p = ground arith

  pub written_Moved :
      (sid : String) (e : SessionEntry) (p : Plane k)
      → e.sid ≡ sid
      → Indexed k p.table
      → Moved sid e p (mirror_if_durable e (record p { table = write_session k w.now e p.table }))
  unfolding write_session
  written_Moved sid e p same v =
      let step = table-mirror_if_durable e (record p { table = write_session k w.now e p.table }) in
      record {
        at =
            rw step (ground (arith, session-write_session k w.now e p.table sid, eq_iff e.sid sid));
        indexed = rw step (write_session-Indexed k w.now e p.table v);
        workers = rw step;
        idle_set = rw step;
        all_set = rw step;
      }

  pub cas_mirrored_quiet :
      (phase : Phase) (sid : String) (seed : Option SessionEntry) (f : SessionEntry → SessionEntry)
      (p : Plane k) (e : SessionEntry)
      → KeepsKey f
      → Indexed k p.table
      → read_entry k (ok (fresh_entry sid)) seed sid p.table ≡ ok e
      → Fits k p.table sid e
      → ((cas_mirrored k w phase sid seed f p).0 ≡ ok (bump (f e)))
        × Moved sid (bump (f e)) p (cas_mirrored k w phase sid seed f p).1
  unfolding cas_mirrored cas_session_seed
  cas_mirrored_quiet phase sid seed f p e keeps v found fits =
      let same : stored_version k p.table (f e).sid ≡ (f e).version =
        rw ((keeps e).0, (keeps e).1, fits.0) fits.1 in
      let looped =
        cas_loop_quiet k w.now f (ok (fresh_entry sid)) (w.others phase) sid 4 0 seed p.table e
          (quiet phase) found same in
      (
        rw (looped, cas_mirrored),
        rw (looped, cas_mirrored)
            (rw looped (written_Moved sid (bump (f e)) p ((keeps e).0 ∙ fits.0) v)),
      )

  bind_resuming-KeepsKey : (v : WorkerEntry) (b : BindSpec) → KeepsKey (bind_resuming v b)
  unfolding bind_resuming
  bind_resuming-KeepsKey v b e = (refl, refl)

  bind_running-KeepsKey : (v : WorkerEntry) → KeepsKey (bind_running v)
  unfolding bind_running
  bind_running-KeepsKey v e = (refl, refl)

  pub unbind-KeepsKey : KeepsKey unbind
  unfolding unbind
  unbind-KeepsKey e = (ground arith, ground arith)

  Seeded-read :
      (t : Table k) (sid : String) (seed : Option SessionEntry)
      → Indexed k t
      → Seeded k t sid seed
      → (e : SessionEntry) × (read_entry k (ok (fresh_entry sid)) seed sid t ≡ ok e)
        × Fits k t sid e
        × (e ≡ Option.get_or seed (fresh_entry sid))
  Seeded-read t sid none v h =
      let (found, fits) = read_fresh k t sid v h in (fresh_entry sid, found, fits, refl)
  Seeded-read t sid (some e) v h = (e, read_seed k t sid v (ok (fresh_entry sid)) e, h, refl)

  -- How startAndBind ends: Running on the worker, or Resuming with the recorded spec.
  abbrev pub Starts :
      String → WorkerEntry → BindSpec → SessionEntry → Plane k → Result String × Plane k → Type 0
  Starts sid v b e p (ok ip, q) =
      (ip ≡ v.pod_ip)
      × Moved sid (bump (bind_running v (bump (bind_resuming v b e)))) p q
      × (drive k w sid v b ≡ true)
  Starts sid v b e p (err x, q) =
      Moved sid (bump (bind_resuming v b e)) p q × (drive k w sid v b ≡ false)

  pub Moved-trans :
      (sid : String) (e f : SessionEntry) (p q r : Plane k)
      → Moved sid e p q
      → Moved sid f q r
      → Moved sid f p r
  Moved-trans sid e f p q r m n = record {
    at = n.at;
    indexed = n.indexed;
    workers = n.workers ∙ m.workers;
    idle_set = n.idle_set ∙ m.idle_set;
    all_set = n.all_set ∙ m.all_set;
  }

  drive_and_bind-Starts :
      (sid : String) (v : WorkerEntry) (b : BindSpec) (e : SessionEntry) (p q : Plane k)
      → Moved sid (bump (bind_resuming v b e)) p q
      → Starts sid v b e p (drive_and_bind k w sid v b q)
  unfolding drive_and_bind
  drive_and_bind-Starts sid v b e p q m = elim (Bool-cases (drive k w sid v b)) [
    | inr failed ↦ rw (failed, drive_and_bind) (m, failed)
    | inl driven ↦
        let mid = bump (bind_resuming v b e) in
        let (found, fits) = read_stored k q.table sid m.indexed (ok (fresh_entry sid)) mid m.at in
        let (same, n) =
          cas_mirrored_quiet mark_running sid none (bind_running v) q mid (bind_running-KeepsKey v)
            m.indexed found fits in
        rw (driven, same, drive_and_bind) (refl, Moved-trans sid mid _ p q _ m n, driven)
  ]

  -- startAndBind on a claimed worker: the entry is Running there exactly when the worker was driven
  -- to ready, and Resuming otherwise; no worker entry changes.
  pub start_and_bind-Starts :
      (sid : String) (v : WorkerEntry) (b : BindSpec) (p : Plane k)
      → Indexed k p.table
      → Seeded k p.table sid b.seed
      → Starts sid v b (Option.get_or b.seed (fresh_entry sid)) p (start_and_bind k w sid v b p)
  unfolding start_and_bind
  start_and_bind-Starts sid v b p i s =
      let (e, found, fits, same) = Seeded-read p.table sid b.seed i s in
      let (marked, m) =
        cas_mirrored_quiet mark_resuming sid b.seed (bind_resuming v b) p e
          (bind_resuming-KeepsKey v b) i found fits in
      rw (marked, start_and_bind, ← same) (drive_and_bind-Starts sid v b e p _ m)

-- ===== src/Gc.antt =====
-- checkpoint-restore/controlplane/internal/gc/gc.go: the collector of what dead sessions leave behind.
-- Object storage and the session resources of Kubernetes answer as arguments say, and what they are
-- asked to delete is recorded.
pub mod Laws
use sandboxd_teleport.Prelude.{
  ℕ, String, Bool, true, false, ◌+◌, ◌*◌, not, ◌&&◌, ◌||◌, Option, none, some, List, [], ◌∷◌,
  str_eq, ltb, ◌==◌, listed, if◌then◌else◌,
}
use sandboxd_teleport.Api.{SessionEntry, State, unset, absent, is_suspended, worker_holds}
use sandboxd_teleport.Valkey.{Valkey}
use sandboxd_teleport.Assign.Table.{Table, session, worker}
use sandboxd_teleport.Assign.Sessions.{delete_session, list_sessions}

-- CRSession: what the collector reads of a session resource.
pub record CrSession : Type 0 where
  pub sid : String
  pub phase : State
  pub operator_owned : Bool
  pub created : ℕ

-- Config, and the answers of storage and of the reaper. `dir_of` is snapDirOf; `dirs` is what
-- listSnapshotDirs returns, `none` for an error; `drops` is whether deletePrefix succeeds; `reaps` is
-- whether Reap deleted a resource without an error. A grace or a retention of 0 is off.
pub record Config : Type 0 where
  pub ttl_for : String → Option ℕ
  pub default_ttl : ℕ
  pub grace : ℕ
  pub dry_run : Bool
  pub reaper : Bool
  pub resources : Option (List CrSession)
  pub dir_of : String → String
  pub dirs : Option (List String)
  pub drops : String → Bool
  pub reaps : String → Bool

-- The table, the prefixes that were deleted and the sessions that the reaper was asked for.
pub record Ground (k : Valkey) : Type 0 where
  pub table : Table k
  pub dropped : List String
  pub reaped : List String

-- Counts of a sweep.
pub record SweepResult : Type 0 where
  pub ttl : ℕ
  pub abandoned : ℕ
  pub orphan_s3 : ℕ
  pub orphan_cr : ℕ

module _ (k : Valkey) (c : Config) (now : ℕ) where
  -- The retention of a session: its own, or the collector's.
  unfoldable pub retention : SessionEntry → ℕ
  retention e = elim (c.ttl_for e.sid) [
    | none ↦ c.default_ttl
    | some ttl ↦ if ttl == 0 then c.default_ttl else ttl
  ]

  unfoldable pub age_reference : SessionEntry → ℕ
  age_reference e = if e.last_checkpoint == 0 then e.last_active else e.last_checkpoint

  unfoldable pub ttl_expired : SessionEntry → Bool
  unfolding retention age_reference
  ttl_expired e =
      if retention e == 0
      then false
      else if age_reference e == 0
      then false
      else not (ltb now (age_reference e + retention e * 1000))

  -- The fence, with its guard on an empty pod name.
  unfoldable pub is_held : SessionEntry → Table k → Bool
  is_held e t = not (str_eq e.worker_pod "") && worker_holds (worker k t e.worker_pod) e.sid

  unfoldable pub is_abandoned : SessionEntry → Table k → Bool
  unfolding is_held
  is_abandoned e t =
      if c.grace == 0
      then false
      else if is_held e t
      then false
      else if e.last_active == 0
      then false
      else not (ltb now (e.last_active + c.grace * 1000))

  abbrev pub ask_reaper : String → Ground k → Ground k
  ask_reaper sid g = if c.reaper then record g { reaped = sid ∷ g.reaped } else g

  -- reapSession: `dir` is the prefix to delete first, `none` for "".
  unfoldable pub reap_session : SessionEntry → Option String → Ground k → Ground k
  reap_session e dir g = if c.dry_run then ask_reaper e.sid g else elim dir [
    | none ↦ ask_reaper e.sid (record g { table = delete_session k e.sid g.table })
    | some d ↦
        if c.drops d
        then ask_reaper e.sid
            (record g { table = delete_session k e.sid g.table; dropped = d ∷ g.dropped })
        else g
  ]

  -- One session of the sweep: its counts, the directories that are accounted for, and what is left.
  unfoldable pub sweep_entry :
      SessionEntry → List String × Ground k → ℕ × ℕ × List String × Ground k
  unfolding ttl_expired is_abandoned reap_session
  sweep_entry e (kept, g) =
      let dir = c.dir_of e.snapshot in
      if is_suspended e.state && not (str_eq e.snapshot "")
      then (if ttl_expired e
          then (1, 0, dir ∷ kept, reap_session e (some dir) g)
          else (0, 0, dir ∷ kept, g))
      else if not (is_suspended e.state) && is_abandoned e g.table
      then (0, 1, kept, reap_session e none g)
      else (0, 0, (if str_eq e.snapshot "" then kept else dir ∷ kept), g)

  unfoldable pub sweep_entries :
      List SessionEntry → List String × Ground k → ℕ × ℕ × List String × Ground k
  unfolding sweep_entry
  sweep_entries [] (kept, g) = (0, 0, kept, g)
  sweep_entries (e ∷ es) (kept, g) =
      let (a, b, more, h) = sweep_entry e (kept, g) in
      let (x, y, all, i) = sweep_entries es (more, h) in (a + x, b + y, all, i)

  -- The orphan directories.
  unfoldable pub sweep_dirs : List String → List String → Ground k → ℕ × Ground k
  sweep_dirs [] kept g = (0, g)
  sweep_dirs (d ∷ ds) kept g =
      let rest = λ (h : Ground k). sweep_dirs ds kept h in
      if listed d kept
      then rest g
      else if c.dry_run
      then (let (n, h) = rest g in (n + 1, h))
      else if c.drops d
      then (let (n, h) = rest (record g { dropped = d ∷ g.dropped }) in (n + 1, h))
      else rest g

  -- The session resources without an entry.
  unfoldable pub is_orphan_cr : CrSession → Table k → Bool
  is_orphan_cr cr t =
      cr.operator_owned
      && (elim cr.phase [ unset ↦ true | absent ↦ true | _ ↦ false ])
      && (elim (session k t cr.sid) [ none ↦ true | some e ↦ false ])
      && not (not (cr.created == 0) && ltb now (cr.created + c.grace * 1000))

  unfoldable pub sweep_crs : List CrSession → Ground k → ℕ × Ground k
  unfolding is_orphan_cr
  sweep_crs [] g = (0, g)
  sweep_crs (cr ∷ crs) g =
      let rest = λ (h : Ground k). sweep_crs crs h in
      if is_orphan_cr cr g.table
      then (let (n, h) = rest (record g { reaped = cr.sid ∷ g.reaped }) in
          (if c.dry_run || c.reaps cr.sid then n + 1 else n, h))
      else rest g

  unfoldable pub sweep_orphan_crs : Ground k → ℕ × Ground k
  unfolding sweep_crs
  sweep_orphan_crs g = elim c.resources [
    | none ↦ (0, g)
    | some crs ↦ if not c.reaper || c.grace == 0 then (0, g) else sweep_crs crs g
  ]

  -- SweepOnce; `none` where listing the directories failed.
  unfoldable pub collect_once : Ground k → Option SweepResult × Ground k
  unfolding sweep_entries sweep_dirs sweep_orphan_crs
  collect_once g =
      let (expired, abandoned, kept, h) = sweep_entries (list_sessions k g.table) ([], g) in
      elim c.dirs [
        | none ↦ (none, h)
        | some ds ↦
            let (n, i) = sweep_dirs ds kept h in
            let (m, j) = sweep_orphan_crs i in
            (
              some (record { ttl = expired; abandoned = abandoned; orphan_s3 = n; orphan_cr = m }),
              j,
            )
      ]

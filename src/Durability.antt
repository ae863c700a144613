-- ===== src/Durability.antt =====
-- checkpoint-restore/controlplane/internal/controller/session_durability.go: the mirror of a session's
-- entry in the status of its Session resource, the reaper of Session resources, and the rebuild of the
-- session entries from them after Valkey lost its keys.
pub mod Laws
use sandboxd_teleport.Prelude.{
  ℕ, String, Bool, true, false, ◌+◌, not, ◌&&◌, ◌||◌, Option, none, some, List, [], ◌∷◌, str_eq,
  ltb, if◌then◌else◌, Result, ok, err,
}
use sandboxd_teleport.Api.{SessionEntry, State, unset, absent}
use sandboxd_teleport.Cluster.{
  Objects, Answers, Write, done, conflict, gone, failed, Session, SessionStatus, operator, kept,
  delete_session_object, port_copies, health_to_cr, health_from_cr,
}
use sandboxd_teleport.Valkey.{Valkey}
use sandboxd_teleport.Assign.Table.{Table, session}
use sandboxd_teleport.Assign.Sessions.{put_session_cas}

-- applyEntryToStatus. The API server stores `stored_time` of a time, which has seconds.
unfoldable pub apply_entry : (ℕ → ℕ) → SessionEntry → SessionStatus → SessionStatus
apply_entry stored_time e st = record st {
  phase = e.state;
  worker_ip = e.worker_ip;
  worker_pod = e.worker_pod;
  snapshot = e.snapshot;
  image = e.image;
  runtime = e.runtime;
  engine_version = e.engine_version;
  pool = e.pool;
  iam_role = e.iam_role;
  ports = port_copies e.ports;
  health = health_to_cr e.health;
  last_active = (if ltb 0 e.last_active then some (stored_time e.last_active) else st.last_active);
}

-- statusToEntry.
unfoldable pub status_to_entry : String → SessionStatus → SessionEntry
status_to_entry sid st = record {
  sid = sid;
  state = st.phase;
  pool = st.pool;
  worker_ip = st.worker_ip;
  worker_pod = st.worker_pod;
  image = st.image;
  snapshot = st.snapshot;
  runtime = st.runtime;
  engine_version = st.engine_version;
  ports = port_copies st.ports;
  health = health_from_cr st.health;
  iam_role = st.iam_role;
  egress = 0;
  ingress = 0;
  idle_timeout = 0;
  checkpoint_interval = 0;
  version = 0;
  last_active = elim st.last_active [ none ↦ 0 | some t ↦ t ];
  last_checkpoint = 0;
}

-- The status of a session that is discarded: everything but the conditions is reset.
abbrev pub tombstone : SessionStatus → SessionStatus
tombstone st = record {
  phase = absent;
  worker_ip = "";
  snapshot = "";
  image = "";
  runtime = "";
  engine_version = "";
  pool = "";
  worker_pod = "";
  ports = [];
  health = none;
  iam_role = "";
  last_active = none;
  last_suspend_handled = "";
  conditions = st.conditions;
}

abbrev pub is_absent : State → Bool
is_absent absent = true
is_absent _ = false

-- Whether a phase is worth rebuilding.
abbrev pub is_durable : State → Bool
is_durable unset = false
is_durable absent = false
is_durable _ = true

module _ (o : Objects Session) (a : Answers) where
  -- Mirror.
  unfoldable pub mirror : (ℕ → ℕ) → SessionEntry → o.Map → o.Map
  mirror stored_time e m =
      if str_eq e.sid "" || not (a.reads e.sid) then m else elim (o.get m e.sid) [
        | none ↦ m
        | some s ↦
            kept o (a.update_status e.sid) e.sid
              (record s { status = apply_entry stored_time e s.status }) m
      ]

  -- Delete of the mirror.
  unfoldable pub erase : String → o.Map → o.Map
  erase sid m = if str_eq sid "" || not (a.reads sid) then m else elim (o.get m sid) [
    | none ↦ m
    | some s ↦ kept o (a.update_status sid) sid (record s { status = tombstone s.status }) m
  ]

  abbrev pub is_done : Write → Bool
  is_done done = true
  is_done _ = false

  -- Reap: whether a resource was deleted, `none` for an error.
  unfoldable pub reap_owned : Bool → String → Session → o.Map → Option Bool × o.Map
  unfolding delete_session_object
  reap_owned dry_run sid s m = if dry_run then (some true, m) else elim (a.delete sid) [
    | done ↦ (some true, delete_session_object o sid s m)
    | conflict ↦ (some false, m)
    | gone ↦ (some false, m)
    | failed ↦ (none, m)
  ]

  unfoldable pub reap_declared : Bool → String → Session → o.Map → Option Bool × o.Map
  reap_declared dry_run sid s m = if is_absent s.status.phase || dry_run then (some false, m) else (
    if is_done (a.update_status sid) then some false else none,
    kept o (a.update_status sid) sid (record s { status = tombstone s.status }) m,
  )

  unfoldable pub reap : Bool → String → o.Map → Option Bool × o.Map
  unfolding reap_owned reap_declared
  reap dry_run sid m =
      if str_eq sid ""
      then (some false, m)
      else if not (a.reads sid)
      then (none, m)
      else elim (o.get m sid) [
        | none ↦ (some false, m)
        | some s ↦
            if str_eq s.created_by operator
            then reap_owned dry_run sid s m
            else reap_declared dry_run sid s m
      ]

  module _ (k : Valkey) (now : ℕ) where
    -- One Session of the rebuild: its entry is written when it is durable and the table has none.
    unfoldable pub rebuild_session : String → SessionStatus → Table k → ℕ × Table k
    unfolding put_session_cas status_to_entry
    rebuild_session sid st t =
        if not (is_durable st.phase) then (0, t) else elim (session k t sid) [
          | some e ↦ (0, t)
          | none ↦
              let (r, u) = put_session_cas k now (status_to_entry sid st) t in
              (elim r [ ok e ↦ 1 | err x ↦ 0 ], u)
        ]

    unfoldable pub rebuild_sessions : o.Map → List String → Table k → ℕ × Table k
    unfolding rebuild_session
    rebuild_sessions m [] t = (0, t)
    rebuild_sessions m (sid ∷ sids) t = elim (o.get m sid) [
      | none ↦ rebuild_sessions m sids t
      | some s ↦
          let (n, u) = rebuild_session sid s.status t in
          let (i, v) = rebuild_sessions m sids u in (n + i, v)
    ]

    -- RebuildOnce; `none` where listing the resources failed.
    unfoldable pub rebuild_once : o.Map → Table k → Option ℕ × Table k
    unfolding rebuild_sessions
    rebuild_once m t =
        if a.lists
        then (let (n, u) = rebuild_sessions m (o.names m) t in (some n, u))
        else (none, t)

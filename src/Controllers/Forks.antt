-- ===== src/Controllers/Forks.antt =====
-- forkset_controller.go: the reconciler of a ForkSet, which keeps a number of child Sessions that
-- start from an image, an application or a base snapshot. `numbered` is the decimal text of a number,
-- and the messages of conditions are abridged.
pub mod Holds
pub mod Seeds
use Prim.Native.String.{◌++◌}
use sandboxd_teleport.Prelude.{
  ℕ, String, Bool, true, false, ◌+◌, not, ◌&&◌, ◌||◌, Option, none, some, List, [], ◌∷◌, str_eq,
  leb, listed, if◌then◌else◌, Result, ok, err, suc, zero,
}
use sandboxd_teleport.Api.{SessionEntry, suspended, unset, is_running, fresh_entry}
use sandboxd_teleport.Cluster.{
  Objects, Answers, Write, done, conflict, gone, failed, Session, SessionStatus, Base, Condition,
  Catalog, operator, kept, upsert_condition, delete_session_object, port_copies, health_from_cr,
}
use sandboxd_teleport.Valkey.{Valkey}
use sandboxd_teleport.Assign.Table.{Table, session}
use sandboxd_teleport.Assign.Sessions.{put_session_cas}
use sandboxd_teleport.Controllers.{Outcome, finished, requeued, erred, delayed}

pub record ForkSet : Type 0 where
  pub name : String
  pub generation : ℕ
  pub base_ref : Option String
  pub app_ref : Option String
  pub count : ℕ
  pub name_prefix : String
  pub pool : String
  pub subject : String
  pub iam : Option String
  pub idle_timeout : ℕ
  pub idle_action : String
  pub eager : Bool
  pub desired : ℕ
  pub ready : ℕ
  pub forks : List String
  pub is_ready : Bool
  pub conditions : List Condition

-- childNames, from `from` on.
unfoldable pub child_names_from : (ℕ → String) → String → ℕ → ℕ → List String
child_names_from numbered prefix from zero = []
child_names_from numbered prefix from (suc n) =
    ("sess-fork-" ++ prefix ++ "-" ++ numbered from) ∷ child_names_from numbered prefix (suc from) n

unfoldable pub child_names : (ℕ → String) → ForkSet → List String
unfolding child_names_from
child_names numbered fs =
    child_names_from numbered (if str_eq fs.name_prefix "" then fs.name else fs.name_prefix) 0
      fs.count

abbrev pub no_status : SessionStatus
no_status = record {
  phase = unset;
  worker_ip = "";
  snapshot = "";
  image = "";
  runtime = "";
  engine_version = "";
  pool = "";
  worker_pod = "";
  ports = [];
  health = none;
  iam_role = "";
  last_active = none;
  last_suspend_handled = "";
  conditions = [];
}

-- The child Session that ensureChild creates; `source` is the base, by name.
unfoldable pub child : ForkSet → Option (String × Base) → Session
child fs source = record {
  generation = 0;
  created_by = operator;
  fork_set = fs.name;
  fork_base = (elim source [ none ↦ "" | some (base, b) ↦ base ]);
  finalizer = false;
  deleting = false;
  pool_ref = some fs.pool;
  app_ref = (elim source [ none ↦ fs.app_ref | some x ↦ none ]);
  image = "";
  cmd = [];
  env = [];
  ports = [];
  subject = fs.subject;
  iam = fs.iam;
  idle_timeout = fs.idle_timeout;
  idle_action = fs.idle_action;
  suspend_request = "";
  status = no_status;
}

-- The role of a fork: the ForkSet's, or the base's.
abbrev pub fork_role : ForkSet → Base → String
fork_role fs b = elim fs.iam [
  | none ↦ b.status.iam_role
  | some role ↦ if str_eq role "" then b.status.iam_role else role
]

-- The entry from which a fork of a base is restored.
unfoldable pub seed : ForkSet → Base → String → SessionEntry
seed fs b name = record (fresh_entry name) {
  state = suspended;
  pool = fs.pool;
  image = b.status.image;
  snapshot = b.status.snapshot;
  ports = port_copies b.status.ports;
  health = health_from_cr b.status.health;
  iam_role = fork_role fs b;
  idle_timeout = fs.idle_timeout;
}

-- What a pass of the reconciler is given: the clock, the resumes that are in flight, and the resource's
-- number texts.
pub record ForkWorld : Type 0 where
  pub now : ℕ
  pub numbered : ℕ → String
  pub inflight : List String
  pub materializes : Bool

module _ (os : Objects Session) (ob : Objects Base) (sa ba : Answers) (k : Valkey)
    (w : ForkWorld) where
  -- Create of a child; AlreadyExists is no error.
  unfoldable pub create_child : ForkSet → Option (String × Base) → String → os.Map → Bool × os.Map
  unfolding child
  create_child fs source name m = elim (sa.create name) [
    | done ↦ (true, os.put m name (child fs source))
    | conflict ↦ (true, m)
    | gone ↦ (false, m)
    | failed ↦ (false, m)
  ]

  -- The entry of a fork of a base, where there is none.
  unfoldable pub seed_child : ForkSet → Option (String × Base) → String → Table k → Table k
  unfolding seed put_session_cas
  seed_child fs none name t = t
  seed_child fs (some (base, b)) name t = elim (session k t name) [
    | some e ↦ t
    | none ↦ (put_session_cas k w.now (seed fs b name) t).1
  ]

  -- ensureChild: `false` for an error.
  unfoldable pub ensure_child :
      ForkSet → Option (String × Base) → String → os.Map × Table k → Bool × os.Map × Table k
  unfolding create_child seed_child
  ensure_child fs source name (m, t) =
      if not (sa.reads name) then (false, m, t) else elim (os.get m name) [
        | some s ↦ (true, m, seed_child fs source name t)
        | none ↦
            let (fine, n) = create_child fs source name m in
            if fine then (true, n, seed_child fs source name t) else (false, n, t)
      ]

  unfoldable pub ensure_children :
      ForkSet → Option (String × Base) → List String → os.Map × Table k → Bool × os.Map × Table k
  unfolding ensure_child
  ensure_children fs source [] (m, t) = (true, m, t)
  ensure_children fs source (name ∷ names) (m, t) =
      let (fine, n, u) = ensure_child fs source name (m, t) in
      let rest = ensure_children fs source names (n, u) in if fine then rest else (false, n, u)

  -- reapExtraChildren: an error ends the loop.
  unfoldable pub reap_extra : String → List String → List String → os.Map → os.Map
  unfolding delete_session_object
  reap_extra set desired [] m = m
  reap_extra set desired (name ∷ names) m =
      let rest = λ (n : os.Map). reap_extra set desired names n in
      elim (os.get m name) [
        | none ↦ rest m
        | some s ↦
            if str_eq s.fork_set set && not (listed name desired)
            then elim (sa.delete name) [
              | done ↦ rest (delete_session_object os name s m)
              | gone ↦ rest m
              | conflict ↦ m
              | failed ↦ m
            ]
            else rest m
      ]

  unfoldable pub reap_extra_children : String → List String → os.Map → os.Map
  unfolding reap_extra
  reap_extra_children set desired m = if sa.lists then reap_extra set desired (os.names m) m else m

  -- materializeAndCountReady: how many children run, and the resumes that are in flight then.
  unfoldable pub materialize_and_count :
      Bool → List String → Table k → List String → ℕ × List String
  materialize_and_count eager [] t flying = (0, flying)
  materialize_and_count eager (sid ∷ sids) t flying =
      let rest = λ (now_flying : List String). materialize_and_count eager sids t now_flying in
      if elim (session k t sid) [ none ↦ false | some e ↦ is_running e.state ]
      then (let (n, all) = rest flying in (n + 1, all))
      else if eager && w.materializes && not (listed sid flying)
      then rest (sid ∷ flying)
      else rest flying

  -- setReady.
  unfoldable pub set_ready : Bool → String → String → ForkSet → ForkSet
  set_ready holds reason message fs = record fs {
    conditions =
        upsert_condition
          (record {
            kind = "Ready";
            holds = holds;
            reason = reason;
            message = message;
            generation = fs.generation;
            since = w.now;
          })
          fs.conditions;
  }

  -- A ForkSet whose source cannot be used yet.
  unfoldable pub unresolved : String → String → ForkSet → ForkSet
  unfolding set_ready
  unresolved reason message fs = record (set_ready false reason message fs) {
    is_ready = false;
    desired = fs.count;
  }

  -- The source: a reason why it cannot be used, or the base (`none` for an image or an application).
  unfoldable pub fork_source :
      Catalog → ob.Map → ForkSet → (Option (String × String)) × Option (String × Base)
  fork_source c bases fs = elim fs.base_ref [
    | none ↦ elim fs.app_ref [
      | none ↦ (none, none)
      | some app ↦ elim (c.apps app) [
        | none ↦ (some ("AppUnresolved", "appRef " ++ app), none)
        | some x ↦ (none, none)
      ]
    ]
    | some base ↦ elim fs.app_ref [
      | some app ↦ (some ("SourceConflict", "baseRef and appRef are mutually exclusive"), none)
      | none ↦
          if not (ba.reads base)
          then (some ("BaseUnresolved", "baseRef " ++ base), none)
          else elim (ob.get bases base) [
            | none ↦ (some ("BaseUnresolved", "baseRef " ++ base), none)
            | some b ↦
                if not b.status.ready
                then (some ("BaseNotReady", "baseRef " ++ base), none)
                else elim (c.pools fs.pool) [
                  | none ↦ (some ("PoolUnresolved", "pool " ++ fs.pool), none)
                  | some tmpl ↦ (none, some (base, b))
                ]
          ]
    ]
  ]

  -- The status of a pass that ran to its end.
  unfoldable pub rolled_up : ℕ → List String → ForkSet → ForkSet
  unfolding set_ready
  rolled_up ready desired fs =
      let counted = record fs { desired = fs.count; ready = ready; forks = desired } in
      if leb fs.count ready
      then record (set_ready true "AllForksReady" (w.numbered ready) counted) { is_ready = true }
      else record (set_ready false "Progressing" (w.numbered ready) counted) { is_ready = false }

  -- Reconcile, where `writes` is what the write of the status comes to.
  unfoldable pub reconcile_forks :
      Write
      → Catalog
      → ob.Map
      → ForkSet
      → os.Map × Table k
      → Outcome × ForkSet × List String × os.Map × Table k
  unfolding unresolved fork_source child_names ensure_children reap_extra_children
      materialize_and_count rolled_up
  reconcile_forks writes c bases fs (m, t) =
      let (reason, source) = fork_source c bases fs in
      let desired = child_names w.numbered fs in
      elim reason [
        | some (why, message) ↦ (delayed 5, unresolved why message fs, w.inflight, m, t)
        | none ↦
            let (fine, n, u) = ensure_children fs source desired (m, t) in
            if not fine
            then (erred, fs, w.inflight, n, u)
            else (let (ready, flying) = materialize_and_count fs.eager w.inflight u desired in
                let over = rolled_up ready desired fs in
                let outcome = if over.is_ready then finished else delayed 5 in
                (
                  elim writes [
                    | done ↦ outcome
                    | conflict ↦ delayed 2
                    | gone ↦ outcome
                    | failed ↦ outcome
                  ],
                  over,
                  flying,
                  reap_extra_children fs.name desired n,
                  u,
                ))
      ]

-- ===== src/Controllers/Promotion.antt =====
-- basesnapshot_controller.go: the reconciler of a BaseSnapshot, which promotes the snapshot of a
-- suspended session once, and reclaims it when the base is deleted. The messages of conditions are
-- abridged.
use sandboxd_teleport.Prelude.{
  ℕ, String, Bool, true, false, not, ◌&&◌, ◌||◌, Option, none, some, List, str_eq, if◌then◌else◌,
}
use sandboxd_teleport.Api.{SessionEntry, PortMap, is_suspended}
use sandboxd_teleport.Cluster.{
  Objects, Answers, Write, done, conflict, gone, failed, Session, Base, BaseStatus, CrHealth, kept,
  upsert_condition, port_copies, health_to_cr,
}
use sandboxd_teleport.Valkey.{Valkey}
use sandboxd_teleport.Assign.Table.{Table, session}
use sandboxd_teleport.Storage.{Bucket, Failures, trim_slash, promote, reclaim}
use sandboxd_teleport.Controllers.{Outcome, finished, requeued, erred}

-- sourceIdentity.
pub record SourceIdentity : Type 0 where
  pub snapshot : String
  pub image : String
  pub ports : List PortMap
  pub health : Option CrHealth
  pub iam_role : String
  pub runsc_version : String

-- snapDirOf.
unfoldable pub snap_dir_of : String → String
unfolding trim_slash
snap_dir_of uri = trim_slash uri

-- applySourceIdentity.
unfoldable pub apply_source_identity : SourceIdentity → BaseStatus → BaseStatus
apply_source_identity src st = record st {
  image = src.image;
  ports = src.ports;
  health = src.health;
  iam_role = src.iam_role;
  runsc_version = src.runsc_version;
}

-- What surrounds a pass: whether there is an assignment table, whether there is a store, the clock.
pub record PromotionWorld : Type 0 where
  pub wired : Bool
  pub stored : Bool
  pub now : ℕ

module _ {V : Type 0} (os : Objects Session) (ob : Objects Base) (sa ba : Answers) (k : Valkey)
    (s : Bucket V) (f : Failures) (w : PromotionWorld) where
  -- The identity in an entry, and in a status; `none` where there is no snapshot to promote.
  unfoldable pub identity_of_entry : SessionEntry → Option SourceIdentity
  unfolding port_copies health_to_cr
  identity_of_entry e =
      if not (is_suspended e.state) || str_eq e.snapshot ""
      then none
      else some (record {
        snapshot = e.snapshot;
        image = e.image;
        ports = port_copies e.ports;
        health = health_to_cr e.health;
        iam_role = e.iam_role;
        runsc_version = "";
      })

  unfoldable pub identity_of_status : Session → Option SourceIdentity
  identity_of_status c =
      let st = c.status in
      if not (is_suspended st.phase) || str_eq st.snapshot ""
      then none
      else some (record {
        snapshot = st.snapshot;
        image = st.image;
        ports = st.ports;
        health = st.health;
        iam_role = st.iam_role;
        runsc_version = "";
      })

  -- The fallback of resolveSource: the durable mirror.
  unfoldable pub identity_of_mirror : String → os.Map → Option SourceIdentity
  unfolding identity_of_status
  identity_of_mirror sid sessions =
      if not (sa.reads sid)
      then none
      else elim (os.get sessions sid) [ none ↦ none | some c ↦ identity_of_status c ]

  -- resolveSource: the table, or else the status.
  unfoldable pub resolve_source : String → os.Map → Table k → Option SourceIdentity
  unfolding identity_of_entry identity_of_mirror
  resolve_source sid sessions t =
      if not w.wired then identity_of_mirror sid sessions else elim (session k t sid) [
        | some e ↦ identity_of_entry e
        | none ↦ identity_of_mirror sid sessions
      ]

  -- setReady.
  unfoldable pub base_condition : Bool → String → Base → Base
  base_condition holds reason b = record b {
    status = record b.status {
      conditions =
          upsert_condition
            (record {
              kind = "Ready";
              holds = holds;
              reason = reason;
              message = "";
              generation = b.generation;
              since = w.now;
            })
            b.status.conditions;
    };
  }

  -- fail.
  unfoldable pub fail_base : String → String → Base → ob.Map → ob.Map
  unfolding base_condition
  fail_base x reason b m =
      kept ob (ba.update_status x) x
        (base_condition false reason
          (record b { status = record b.status { phase = "Failed"; ready = false } }))
        m

  abbrev pub after_base_write : Write → Outcome
  after_base_write done = finished
  after_base_write conflict = requeued
  after_base_write gone = erred
  after_base_write failed = erred

  -- The base after its promotion.
  unfoldable pub promoted_base : SourceIdentity → String → Base → Base
  unfolding apply_source_identity base_condition
  promoted_base src uri b = base_condition true "Promoted" (record b {
    status = record (apply_source_identity src b.status) {
      snapshot = uri;
      ready = true;
      phase = "Ready";
    };
  })

  -- A base that is not promoted yet.
  unfoldable pub promote_base :
      String → Base → os.Map → Table k → ob.Map × s.Map → Outcome × ob.Map × s.Map
  unfolding resolve_source fail_base promoted_base promote snap_dir_of
  promote_base x b sessions t (m, objects) = elim (resolve_source b.source sessions t) [
    | none ↦ (finished, fail_base x "SourceUnresolved" b m, objects)
    | some src ↦
        if not w.stored
        then (
          finished,
          kept ob (ba.update_status x) x
              (base_condition false "PromotePending" (record b {
                status = record (apply_source_identity src b.status) { phase = "Pending" };
              }))
              m,
          objects,
        )
        else (let (result, copied) = promote s f x (snap_dir_of src.snapshot) objects in
            elim result [
              | none ↦ (erred, fail_base x "PromoteFailed" b m, copied)
              | some (uri, n) ↦ (
                after_base_write (ba.update_status x),
                kept ob (ba.update_status x) x (promoted_base src uri b) m,
                copied,
              )
            ])
  ]

  -- The deletion path: the objects go before the finalizer.
  unfoldable pub finalize_base : String → Base → ob.Map × s.Map → Outcome × ob.Map × s.Map
  unfolding reclaim
  finalize_base x b (m, objects) =
      let (fine, left) = reclaim s f x objects in
      let released = record b { finalizer = false } in
      if not b.finalizer
      then (finished, m, objects)
      else if w.stored && not fine
      then (erred, m, left)
      else (
        after_base_write (ba.update x),
        kept ob (ba.update x) x released m,
        if w.stored then left else objects,
      )

  -- Reconcile.
  unfoldable pub reconcile_base :
      String → os.Map → Table k → ob.Map × s.Map → Outcome × ob.Map × s.Map
  unfolding finalize_base promote_base
  reconcile_base x sessions t (m, objects) =
      if not (ba.reads x) then (erred, m, objects) else elim (ob.get m x) [
        | none ↦ (finished, m, objects)
        | some b ↦
            if b.deleting
            then finalize_base x b (m, objects)
            else if not b.finalizer
            then (
              elim (ba.update x) [
                | done ↦ requeued
                | conflict ↦ requeued
                | gone ↦ erred
                | failed ↦ erred
              ],
              kept ob (ba.update x) x (record b { finalizer = true }) m,
              objects,
            )
            else if b.status.ready
            then (finished, m, objects)
            else promote_base x b sessions t (m, objects)
      ]

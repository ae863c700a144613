-- ===== src/Controllers/Requests.antt =====
-- session_controller.go: the reconciler of a Session, which suspends it once for each request, and
-- releases what it holds when it is deleted. The removal of an object whose last finalizer is gone is
-- the API server's.
pub mod Once
use sandboxd_teleport.Prelude.{
  ℕ, zero, suc, ◌-◌, String, Bool, true, false, not, ◌&&◌, ◌||◌, Option, none, some, List, [], ◌∷◌,
  length, str_eq, if◌then◌else◌, Error, transient,
}
use sandboxd_teleport.Cluster.{
  Objects, Answers, Write, done, conflict, gone, failed, Session, Condition, kept, upsert_condition,
}
use sandboxd_teleport.Valkey.{Valkey}
use sandboxd_teleport.Resume.Types.{Plane, World, MirrorCall, mirrored, erased}
use sandboxd_teleport.Durability.{mirror, erase, is_done}
use sandboxd_teleport.Resume.Suspend.{suspend_now, release_for_delete}
use sandboxd_teleport.Controllers.{Outcome, finished, requeued, erred, delayed}

-- client.IgnoreNotFound of a failed write, where a conflict asks for another pass.
abbrev pub after_write : Write → Outcome
after_write done = finished
after_write conflict = requeued
after_write gone = finished
after_write failed = erred

abbrev pub handled : Session → Session
handled s = record s { status = record s.status { last_suspend_handled = s.suspend_request } }

abbrev pub is_handled : Session → Bool
is_handled s = str_eq s.suspend_request "" || str_eq s.suspend_request s.status.last_suspend_handled

abbrev pub is_transient : Error → Bool
is_transient transient = true
is_transient _ = false

-- `shown` is the text of an error, `a` answers the reconciler and `b` the mirror of the sessions, which
-- writes the same resources; `stored_time` is as in `Durability`.
module _ (shown : Error → String) (stored_time : ℕ → ℕ) (o : Objects Session) (a b : Answers)
    (k : Valkey) (w : World k) where
  -- Whether a call of the mirror for this Session is stored.
  abbrev pub is_stored : String → o.Map → Bool
  is_stored x m =
      not (str_eq x "")
      && b.reads x
      && (elim (o.get m x) [ none ↦ false | some s ↦ true ])
      && is_done o b (b.update_status x)

  -- A call of the mirror: whether it rewrote the Session `sid`, and the Sessions.
  unfoldable pub mirror_call : String → MirrorCall → o.Map → Bool × o.Map
  unfolding mirror erase
  mirror_call sid (mirrored e) m =
      (str_eq e.sid sid && is_stored e.sid m, mirror o b stored_time e m)
  mirror_call sid (erased x) m = (str_eq x sid && is_stored x m, erase o b x m)

  -- The newest `n` calls, which stand at the head.
  unfoldable pub mirror_calls : String → ℕ → List MirrorCall → o.Map → Bool × o.Map
  unfolding mirror_call
  mirror_calls sid zero calls m = (false, m)
  mirror_calls sid (suc n) [] m = (false, m)
  mirror_calls sid (suc n) (call ∷ calls) m =
      let (earlier, u) = mirror_calls sid n calls m in
      let (last, v) = mirror_call sid call u in (earlier || last, v)

  -- What the mirror did between two planes. A Session that it rewrote has another resourceVersion than
  -- the one that the reconciler read, whose write then conflicts.
  unfoldable pub since : String → Plane k → Plane k → o.Map → Bool × o.Map
  unfolding mirror_calls
  since sid p q m = mirror_calls sid (length q.mirror - length p.mirror) q.mirror m

  abbrev pub answer_after : Bool → Write → Write
  answer_after moved answer = if moved then conflict else answer

  -- setSuspendCond, without the write that follows a failure.
  unfoldable pub suspend_condition : Bool → String → String → Session → Session
  suspend_condition holds reason message s = record s {
    status = record s.status {
      conditions =
          upsert_condition
            (record {
              kind = "SuspendRequest";
              holds = holds;
              reason = reason;
              message = message;
              generation = s.generation;
              since = w.now;
            })
            s.status.conditions;
    };
  }

  -- The deletion path.
  unfoldable pub finalize : String → Session → o.Map × Plane k → Outcome × o.Map × Plane k
  unfolding release_for_delete since
  finalize sid s (m, p) =
      let (failure, q) = release_for_delete k w sid p in
      let (moved, n) = since sid p q m in
      let answer = answer_after moved (a.update sid) in
      if s.finalizer
      then elim failure [
        | some x ↦ (erred, n, q)
        | none ↦ (after_write answer, kept o answer sid (record s { finalizer = false }) n, q)
      ]
      else (finished, m, p)

  -- A failed suspend: the watermark stays, and the condition is written.
  unfoldable pub postpone : String → Error → Session → Write → o.Map → Outcome × o.Map
  unfolding suspend_condition
  postpone sid x s answer m =
      if is_transient x
      then (
        delayed 5,
        kept o answer sid
            (suspend_condition false "SuspendPending"
              "session is transitioning (Resuming/Suspending); will retry" s)
            m,
      )
      else (erred, kept o answer sid (suspend_condition false "SuspendFailed" (shown x) s) m)

  -- The status write that ends a successful one.
  abbrev pub after_status : Write → Outcome
  after_status done = finished
  after_status conflict = requeued
  after_status _ = erred

  unfoldable pub suspend_once : String → Session → o.Map × Plane k → Outcome × o.Map × Plane k
  unfolding suspend_now since postpone suspend_condition
  suspend_once sid s (m, p) =
      let (failure, q) = suspend_now k w sid p in
      let (moved, n) = since sid p q m in
      let answer = answer_after moved (a.update_status sid) in
      elim failure [
        | some x ↦ let (r, u) = postpone sid x s answer n in (r, u, q)
        | none ↦ (
          after_status answer,
          kept o answer sid
              (suspend_condition true "Suspended" "checkpoint+suspend completed" (handled s)) n,
          q,
        )
      ]

  -- The live path, once the finalizer is there.
  unfoldable pub serve_request : String → Session → o.Map × Plane k → Outcome × o.Map × Plane k
  unfolding suspend_once
  serve_request sid s (m, p) = if is_handled s then (finished, m, p) else suspend_once sid s (m, p)

  unfoldable pub reconcile_session : String → o.Map × Plane k → Outcome × o.Map × Plane k
  unfolding finalize serve_request
  reconcile_session sid (m, p) = if not (a.reads sid) then (erred, m, p) else elim (o.get m sid) [
    | none ↦ (finished, m, p)
    | some s ↦
        if s.deleting
        then finalize sid s (m, p)
        else if s.finalizer
        then serve_request sid s (m, p)
        else (let live = record s { finalizer = true } in
            elim (a.update sid) [
              | done ↦ serve_request sid live (o.put m sid live, p)
              | conflict ↦ (requeued, m, p)
              | gone ↦ (finished, m, p)
              | failed ↦ (erred, m, p)
            ])
  ]

-- ===== src/Controllers/Requests/Once.antt =====
-- A request to suspend: the pass that serves it, and the pass that records that it is served.
use sandboxd_teleport.Prelude.{
  ℕ, suc, ◌-◌, String, true, false, ◌≡◌, ◌∙◌, refl, sym, ap, subst, inl, inr, Option-cases, none,
  some, ◌∷◌, arith, str_eq, eq_iff, length, Error,
}
use sandboxd_teleport.Api.{SessionEntry, SnapshotResponse, running}
use sandboxd_teleport.Cluster.{Objects, Answers, done, Session}
use sandboxd_teleport.Valkey.{Valkey}
use sandboxd_teleport.Assign.Table.{session}
use sandboxd_teleport.Assign.History.{InOrder}
use sandboxd_teleport.Resume.Types.{Plane, World, mirrored}
use sandboxd_teleport.Resume.Start.Quiet.{IsQuiet}
use sandboxd_teleport.Resume.Suspend.{suspend_now, suspend_entry, begin_suspend, record_snapshot}
use sandboxd_teleport.Resume.Suspend.Quiet.{suspend_now_lem, asleep}
use sandboxd_teleport.Durability.{apply_entry, mirror}
use sandboxd_teleport.Controllers.{Outcome, finished, requeued}
use sandboxd_teleport.Controllers.Requests.{
  is_handled, handled, suspend_condition, suspend_once, serve_request, reconcile_session, since,
  mirror_calls, mirror_call,
}

module _ (shown : Error → String) (stored_time : ℕ → ℕ) (o : Objects Session) (a b : Answers)
    (k : Valkey) (w : World k) (sid : String) where
  -- A Session that is live and has the finalizer.
  abbrev pub Live : Session → o.Map → Type 0
  Live s m = (o.get m sid ≡ some s) × (s.deleting ≡ false) × (s.finalizer ≡ true)

  -- A pass over a Session with no open request does nothing.
  pub idle_pass :
      (s : Session) (m : o.Map) (q : Plane k)
      → a.reads sid ≡ true
      → Live s m
      → is_handled s ≡ true
      → reconcile_session shown stored_time o a b k w sid (m, q) ≡ (finished, m, q)
  unfolding reconcile_session serve_request
  idle_pass s m q reads (found, live, marked) served = rw (reads, found, live, marked, served) refl

  open_pass :
      (s : Session) (m : o.Map) (q : Plane k)
      → a.reads sid ≡ true
      → Live s m
      → is_handled s ≡ false
      → reconcile_session shown stored_time o a b k w sid (m, q)
        ≡ suspend_once shown stored_time o a b k w sid s (m, q)
  unfolding reconcile_session serve_request
  open_pass s m q reads (found, live, marked) unserved =
      rw (reads, found, live, marked, unserved) refl

  abbrev pub with_status : SessionEntry → Session → Session
  with_status f s = record s { status = apply_entry stored_time f s.status }

  since_same : (q : Plane k) (m : o.Map) → since shown stored_time o a b k w sid q q m ≡ (false, m)
  unfolding since mirror_calls
  since_same q m =
      let none_new : length q.mirror - length q.mirror ≡ 0 = omega arith in rw none_new refl

  since_one :
      (f : SessionEntry) (s : Session) (p q : Plane k) (m : o.Map)
      → q.mirror ≡ mirrored f ∷ p.mirror
      → str_eq f.sid sid ≡ true
      → str_eq f.sid "" ≡ false
      → o.get m f.sid ≡ some s
      → b.reads f.sid ≡ true
      → b.update_status f.sid ≡ done
      → since shown stored_time o a b k w sid p q m ≡ (true, o.put m f.sid (with_status f s))
  unfolding since mirror_calls mirror_call mirror
  since_one f s p q m grown same named found reads stores =
      let one_new : suc (length p.mirror) - length p.mirror ≡ 1 = omega arith in
      rw (grown, one_new) (rw (same, named, reads, found, stores) refl)

  module _ (s : Session) (m : o.Map) (p q : Plane k) (reads : a.reads sid ≡ true) (live : Live s m)
      (unserved : is_handled s ≡ false) where
    rewritten :
        (f : SessionEntry)
        → suspend_now k w sid p ≡ (none, q)
        → since shown stored_time o a b k w sid p q m ≡ (true, o.put m sid (with_status f s))
        → reconcile_session shown stored_time o a b k w sid (m, p)
          ≡ (requeued, o.put m sid (with_status f s), q)
    unfolding suspend_once
    rewritten f slept moved =
        open_pass s m p reads live unserved ∙ rw (slept, suspend_once) (rw (slept, moved) refl)

    recorded :
        suspend_now k w sid q ≡ (none, q)
        → a.update_status sid ≡ done
        → reconcile_session shown stored_time o a b k w sid (m, q) ≡ (
          finished,
          o.put m sid (
              suspend_condition shown stored_time o a b k w true "Suspended"
                "checkpoint+suspend completed"
                (handled s)),
          q,
        )
    unfolding suspend_once
    recorded slept stores =
        open_pass s m q reads live unserved
        ∙ rw (slept, suspend_once) (rw (slept, since_same q m, stores) refl)

  handled_lem :
      (s : Session)
      → is_handled (
          suspend_condition shown stored_time o a b k w true "Suspended"
            "checkpoint+suspend completed"
            (handled s))
        ≡ true
  unfolding suspend_condition
  handled_lem s = ground (arith, eq_iff s.suspend_request s.suspend_request)

  suspends :
      (s : Session) (m : o.Map) (q : Plane k)
      → (suspend_once shown stored_time o a b k w sid s (m, q)).2 ≡ (suspend_now k w sid q).1
  unfolding suspend_once
  suspends s m q = elim (Option-cases (suspend_now k w sid q).0) [
    | inl fine ↦ rw (fine, suspend_once) refl
    | inr (x, bad) ↦ rw (bad, suspend_once) refl
  ]

  still_open : (f : SessionEntry) (s : Session) → is_handled (with_status f s) ≡ is_handled s
  unfolding apply_entry
  still_open f s = refl

module _ (shown : Error → String) (stored_time : ℕ → ℕ) (o : Objects Session) (a b : Answers)
    (k : Valkey) (w : World k) (quiet : IsQuiet k w) (e : SessionEntry) (p : Plane k)
    (v : InOrder k p.table) (at : session k p.table e.sid ≡ some e) (awake : e.state ≡ running)
    (bound : str_eq e.worker_ip "" ≡ false) where
  -- The Session is live, and its request is handled.
  abbrev pub AtRest : o.Map → Type 0
  AtRest m = (s : Session) × Live shown stored_time o a b k w e.sid s m × (is_handled s ≡ true)

  abbrev handled_session : Session → Session
  handled_session t =
      suspend_condition shown stored_time o a b k w true "Suspended" "checkpoint+suspend completed"
        (handled t)

  asleep_noop :
      (resp : SnapshotResponse) (q : Plane k)
      → session k q.table e.sid ≡ some (asleep resp e)
      → suspend_now k w e.sid q ≡ (none, q)
  unfolding suspend_now suspend_entry record_snapshot begin_suspend
  asleep_noop resp q found = rw (found, suspend_now) refl

  -- A request to suspend a session that is Running, where the worker makes a checkpoint, no other
  -- client is at work and the API server stores the writes of the reconciler and of the mirror. The
  -- first pass suspends the session, and its own write conflicts with the mirror's: it asks for another
  -- pass, and the request stays open. If the session is still suspended then, the next pass makes no
  -- checkpoint, leaves the table as it is and marks the request as handled. If the session has been
  -- resumed meanwhile, the next pass suspends it again.
  pub reconcile_session_twice :
      (resp : SnapshotResponse) (s : Session) (m : o.Map)
      → w.fleet.suspend e.worker_ip e.sid ≡ some resp
      → Live shown stored_time o a b k w e.sid s m
      → is_handled s ≡ false
      → str_eq e.sid "" ≡ false
      → a.reads e.sid ≡ true
      → a.update_status e.sid ≡ done
      → b.reads e.sid ≡ true
      → b.update_status e.sid ≡ done
      → let pass = reconcile_session shown stored_time o a b k w e.sid in
        let asleep_map =
          o.put m e.sid (with_status shown stored_time o a b k w e.sid (asleep resp e) s) in
        let q = (suspend_now k w e.sid p).1 in
        (pass (m, p) ≡ (requeued, asleep_map, q))
        × ((pass (asleep_map, q)).0 ≡ finished)
        × AtRest (pass (asleep_map, q)).1
        × ((pass (asleep_map, q)).2 ≡ q)
        × ((r : Plane k) → (pass (asleep_map, r)).2 ≡ (suspend_now k w e.sid r).1)
  unfolding record_snapshot begin_suspend suspend_condition
  reconcile_session_twice resp s m answers live unserved named reads stores mirror_reads
        mirror_stores =
      let (fine, slept) = suspend_now_lem k w quiet e p v at awake bound resp answers in
      let q = (suspend_now k w e.sid p).1 in
      let f = asleep resp e in
      let next = with_status shown stored_time o a b k w e.sid f s in
      let n = o.put m e.sid next in
      let moved =
        since_one shown stored_time o a b k w e.sid f s p q m slept.durable
          (ground (arith, eq_iff e.sid e.sid)) named live.0 mirror_reads mirror_stores in
      let live_next : Live shown stored_time o a b k w e.sid next n =
        (ground (arith, o.get-put m e.sid e.sid next, eq_iff e.sid e.sid), live.1, live.2) in
      let open_next : is_handled next ≡ false =
        still_open shown stored_time o a b k w e.sid f s ∙ unserved in
      let last = handled_session next in
      let done_next =
        recorded shown stored_time o a b k w e.sid next n q q reads live_next open_next
          (asleep_noop resp q slept.recorded) stores in
      (
        rewritten shown stored_time o a b k w e.sid s m p q reads live unserved f
            (ap (λ x. (x, q)) fine) moved,
        ap (λ (r : Outcome × o.Map × Plane k). r.0) done_next,
        subst AtRest (sym (ap (λ (r : Outcome × o.Map × Plane k). r.1) done_next)) (
          last,
          (ground (arith, o.get-put n e.sid e.sid last, eq_iff e.sid e.sid), live.1, live.2),
          handled_lem shown stored_time o a b k w e.sid next,
        ),
        ap (λ (r : Outcome × o.Map × Plane k). r.2) done_next,
        λ r.
            ap (λ (x : Outcome × o.Map × Plane k). x.2)
              (open_pass shown stored_time o a b k w e.sid next n r reads live_next open_next)
            ∙ suspends shown stored_time o a b k w e.sid next n r,
      )

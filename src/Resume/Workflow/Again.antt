-- ===== src/Resume/Workflow/Again.antt =====
-- A resume that succeeded leaves the session live, so that the next one takes the fast path.
use sandboxd_teleport.Prelude.{
  String, true, false, ◌≡◌, refl, subst, some, Result, ok, err, arith, str_eq, eq_iff,
}
use sandboxd_teleport.Api.{SessionEntry, WorkerEntry, worker_holds}
use sandboxd_teleport.Valkey.{Valkey}
use sandboxd_teleport.Assign.Table.{Table, session, worker}
use sandboxd_teleport.Assign.Sessions.{bump}
use sandboxd_teleport.Assign.Workers.Claim.{Took, now_held}
use sandboxd_teleport.Assign.History.{InOrder}
use sandboxd_teleport.Resume.Types.{BindSpec, Plane, World}
use sandboxd_teleport.Resume.Plan.{restore_spec}
use sandboxd_teleport.Resume.Start.{claim_and_start, bind_running, bind_resuming}
use sandboxd_teleport.Resume.Start.Quiet.{IsQuiet, Seeded, Starts}
use sandboxd_teleport.Resume.Start.Cases.{claim_and_start_cases, begun}
use sandboxd_teleport.Resume.Workflow.Cases.{resume_cases}
use sandboxd_teleport.Resume.Workflow.{no_kind, resume, is_live, demote}

-- Discovery registers pods with a name and an address only.
abbrev pub Named : (k : Valkey) → Table k → Type 0
Named k t =
    (pod : String) (v : WorkerEntry)
    → worker k t pod ≡ some v
    → (str_eq v.pod "" ≡ false) × (str_eq v.pod_ip "" ≡ false)

-- The session is live at the address.
abbrev pub Live : (k : Valkey) → String → String → Plane k → Type 0
Live k sid ip p =
    (e : SessionEntry) × (session k p.table sid ≡ some e)
    × (is_live k sid p.table e ≡ true)
    × (e.worker_ip ≡ ip)

module _ (k : Valkey) (w : World k) (quiet : IsQuiet k w) where
  abbrev LiveIfOk : String → Result String × Plane k → Type 0
  LiveIfOk sid (ok ip, q) = Live k sid ip q
  LiveIfOk sid (err x, q) = Unit

  started_Live :
      (pool sid : String) (b : BindSpec) (e : SessionEntry) (p q : Plane k) (v : WorkerEntry)
      (u : Table k)
      → Named k p.table
      → Took k p.table pool sid v u
      → Starts k w quiet sid v b e (begun k v u p) (ok v.pod_ip, q)
      → Live k sid v.pod_ip q
  unfolding is_live bind_running bind_resuming worker_holds
  started_Live pool sid b e p q v u named took s =
      let named_v = named v.pod took.before took.was in
      let held : worker k q.table v.pod ≡ some v =
        rw ((s.1).workers) (now_held k p.table pool sid took) in
      (
        bump (bind_running v (bump (bind_resuming v b e))),
        (s.1).at,
        ground (arith, held, named_v, took.result, eq_iff sid sid),
        refl,
      )

  claim_Live :
      (pool sid : String) (b : BindSpec) (undo : Plane k → Plane k) (p : Plane k)
      → InOrder k p.table
      → Named k p.table
      → Seeded k p.table sid b.seed
      → LiveIfOk sid (claim_and_start k w pool sid b undo p)
  claim_Live pool sid b undo p v named s =
      claim_and_start_cases k w quiet sid b undo (LiveIfOk sid) pool p v.indexed v.sound s (λ _. tt)
        (λ c u q took st. started_Live pool sid b _ p q c u named took st) (λ c u x q took st. tt)

  resume_Live :
      (sid subject pool app : String) (p : Plane k)
      → InOrder k p.table
      → Named k p.table
      → LiveIfOk sid
          ((resume k w sid subject pool app p).0.answer, (resume k w sid subject pool app p).1)
  unfolding restore_spec
  resume_Live sid subject pool app p v named =
      resume_cases k w (LiveIfOk sid) sid p
        (record {
          fast = λ e found live. (e, found, live, refl);
          refused = λ x. tt;
          starts = λ cur plan b n s. claim_Live plan.pool sid _ (λ q. q) p v named s;
          restores = λ e found can fits. claim_Live (demote e).pool sid _ _ p v named fits;
        })
        subject pool app v.indexed

  -- Resume is idempotent: where it returned an address, whatever the next call and its surroundings
  -- are, that call returns the same address on the fast path and changes nothing. The table is in
  -- order, no worker's entry lacks a name or an address, and no other client is at work during the
  -- first call.
  pub resume_again :
      (sid subject pool app ip : String) (p : Plane k)
      → InOrder k p.table
      → Named k p.table
      → (resume k w sid subject pool app p).0.answer ≡ ok ip
      → (w' : World k) (subject' pool' app' : String)
      → resume k w' sid subject' pool' app' (resume k w sid subject pool app p).1 ≡ (
        record { answer = ok ip; kind = no_kind; fast = true },
        (resume k w sid subject pool app p).1,
      )
  unfolding resume
  resume_again sid subject pool app ip p v named h w' subject' pool' app' =
      live_again w' subject' pool' app' (resume k w sid subject pool app p).1 (
        subst (λ a. LiveIfOk sid (a, (resume k w sid subject pool app p).1)) h
          (resume_Live sid subject pool app p v named))
    where
      live_again :
          (w' : World k) (subject' pool' app' : String) (q : Plane k)
          → Live k sid ip q
          → resume k w' sid subject' pool' app' q
            ≡ (record { answer = ok ip; kind = no_kind; fast = true }, q)
      live_again w' subject' pool' app' q (e, found, alive, same) =
          rw (found, alive, resume) (rw same)

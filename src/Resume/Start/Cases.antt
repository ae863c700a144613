-- ===== src/Resume/Start/Cases.antt =====
-- How claiming a worker and starting on it can end, with no other client at work.
use sandboxd_teleport.Prelude.{
  String, false, ◌≡◌, refl, subst, Option, none, some, Error, Result, ok, err, no_capacity, sym,
}
use mathlib.Core.Option
use sandboxd_teleport.Api.{SessionEntry, WorkerEntry, fresh_entry}
use sandboxd_teleport.Valkey.{Valkey}
use sandboxd_teleport.Assign.Table.{Table, worker}
use sandboxd_teleport.Assign.Sessions.{stored_version}
use sandboxd_teleport.Assign.Sessions.Due.{Indexed}
use sandboxd_teleport.Assign.Workers.{claim_idle_worker}
use sandboxd_teleport.Assign.Workers.Binding.{Sound, offered}
use sandboxd_teleport.Assign.Workers.Claim.{Took, Claims, claim_idle_worker-Claims}
use sandboxd_teleport.Assign.History.{SameSessions, keep-Indexed, claim_sessions}
use sandboxd_teleport.Resume.Types.{BindSpec, Plane, World, notify}
use sandboxd_teleport.Resume.Start.{start_and_bind, start_or_undo, claim_and_start, undo_start}
use sandboxd_teleport.Resume.Start.Quiet.{IsQuiet, Seeded, Starts, start_and_bind-Starts}

-- The plane on which the start begins.
abbrev pub begun : (k : Valkey) → WorkerEntry → Table k → Plane k → Plane k
begun k v u p = notify v.pool (record p { table = u })

module _ (k : Valkey) (w : World k) (quiet : IsQuiet k w) where
  Seeded-same :
      (t u : Table k) (sid : String) (seed : Option SessionEntry)
      → SameSessions k t u
      → Seeded k t sid seed
      → Seeded k u sid seed
  unfolding stored_version
  Seeded-same t u sid none s h = rw (s.0) h
  Seeded-same t u sid (some e) s h = rw (s.0) h

  module _ (sid : String) (b : BindSpec) (undo : Plane k → Plane k) where
    abbrev first : Option SessionEntry → SessionEntry
    first seed = Option.get_or seed (fresh_entry sid)

    -- The two ends of a start, with its undoing.
    after_start :
        (P : Result String × Plane k → Type 0) (v : WorkerEntry) (e : SessionEntry) (p : Plane k)
        (r : Result String × Plane k)
        → Starts k w quiet sid v b e p r
        → ((q : Plane k) → Starts k w quiet sid v b e p (ok v.pod_ip, q) → P (ok v.pod_ip, q))
        → ((x : Error) (q : Plane k)
            → Starts k w quiet sid v b e p (err x, q)
            → P (err x, undo_start k w v undo q))
        → P (elim r.0 [ ok ip ↦ (ok ip, r.1) | err x ↦ (err x, undo_start k w v undo r.1) ])
    after_start P v e p (ok ip, q) s good bad =
        subst (λ a. P (ok a, q)) (sym s.0) (good q (refl, s.1, s.2))
    after_start P v e p (err x, q) s good bad = bad x q s

    pub claim_and_start_cases :
        (P : Result String × Plane k → Type 0) (pool : String) (p : Plane k)
        → Indexed k p.table
        → Sound k p.table
        → Seeded k p.table sid b.seed
        → (((pod : String) → offered pool (worker k p.table pod) ≡ false) → P (err no_capacity, p))
        → ((v : WorkerEntry) (u : Table k) (q : Plane k)
            → Took k p.table pool sid v u
            → Starts k w quiet sid v b (first b.seed) (begun k v u p) (ok v.pod_ip, q)
            → P (ok v.pod_ip, q))
        → ((v : WorkerEntry) (u : Table k) (x : Error) (q : Plane k)
            → Took k p.table pool sid v u
            → Starts k w quiet sid v b (first b.seed) (begun k v u p) (err x, q)
            → P (err x, undo_start k w v undo q))
        → P (claim_and_start k w pool sid b undo p)
    unfolding claim_and_start start_or_undo
    claim_and_start_cases P pool p i v s none_idle good bad =
        split (claim_idle_worker k pool sid p.table) refl
      where
        begin :
            (c : WorkerEntry) (u : Table k)
            → SameSessions k p.table u
            → Took k p.table pool sid c u
            → P (start_or_undo k w sid c b undo (record p { table = u }))
        begin c u same took =
            after_start P c (first b.seed) (begun k c u p)
              (start_and_bind k w sid c b (begun k c u p))
              (start_and_bind-Starts k w quiet sid c b (begun k c u p)
                (keep-Indexed k p.table u same i) (Seeded-same p.table u sid b.seed same s))
              (λ q st. good c u q took st) (λ x q st. bad c u x q took st)

        split :
            (r : Result WorkerEntry × Table k)
            → claim_idle_worker k pool sid p.table ≡ r
            → P (claim_and_start k w pool sid b undo p)
        split (ok c, u) e =
            rw (e, claim_and_start)
              (rw e (
                begin c u
                  (subst (λ r. SameSessions k p.table r.1) e (claim_sessions k pool sid p.table))
                  (subst (Claims k p.table pool sid) e
                    (claim_idle_worker-Claims k p.table pool sid v))))
        split (err x, u) e =
            let (is, same, none_offered) =
              subst (Claims k p.table pool sid) e (claim_idle_worker-Claims k p.table pool sid v) in
            rw (e, claim_and_start) (rw (e, is, same) (none_idle none_offered))

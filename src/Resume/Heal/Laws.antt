-- ===== src/Resume/Heal/Laws.antt =====
-- The healer: what it never touches, whatever other clients do, and what it brings back.
use sandboxd_teleport.Prelude.{
  ℕ, zero, suc, String, ◌+◌, ◌*◌, ◌<◌, ◌≡◌, refl, ◌∙◌, inl, inr, Option, some, List, [], ◌∷◌, arith,
  eq_iff, ◌==◌, lt→ltb, Bool-cases, Option-cases, Result-cases, if_case,
}
use sandboxd_teleport.Api.{SessionEntry}
use sandboxd_teleport.Valkey.{Valkey}
use sandboxd_teleport.Assign.Table.{Table}
use sandboxd_teleport.Assign.Sessions.{
  bump, stored_version, write_session, put_session_cas, get_session, list_sessions,
}
use sandboxd_teleport.Resume.Types.{Plane, World}
use sandboxd_teleport.Resume.Heal.{
  Seen, mark, Healed, wrote, moved_on, gave_up, failed, settle_heal, heal_loop, watched,
  heal_session, heal_sessions, heal_sweep,
}

module _ (k : Valkey) (w : World k) (grace : ℕ) where
  -- Every session that was seen in Resuming was first seen less than the grace ago.
  abbrev pub Young : Seen → Type 0
  Young seen = (sid : String) (first : ℕ) → seen sid ≡ some first → w.now < first + grace

  -- Nothing is healed and the plane stays; what was seen stays young.
  abbrev Waits : Plane k → ℕ × Seen × Plane k → Type 0
  Waits p (n, seen, q) = (n ≡ 0) × Young seen × (q ≡ p)

  module _ (positive : 0 < grace) where
    mark-Young : (sid : String) (seen : Seen) → Young seen → Young (mark sid (some w.now) seen)
    mark-Young sid seen y x first h = ground (arith, y x first, eq_iff sid x)

    session-Waits :
        (e : SessionEntry) (seen : Seen) (p : Plane k)
        → Young seen
        → Waits p (heal_session k w grace e (seen, p))
    unfolding heal_session
    session-Waits e seen p y =
        if_case (Waits p) (watched k w e) _ _
          (λ _. elim (Option-cases (seen e.sid)) [
            | inl unseen ↦ rw unseen (refl, mark-Young e.sid seen y, refl)
            | inr (first, found) ↦
                rw found (rw (lt→ltb w.now (first + grace) (y e.sid first found)) (refl, y, refl))
          ])
          (λ _. (refl, y, refl))

    sessions_wait :
        (es : List SessionEntry) (seen : Seen) (p : Plane k)
        → Young seen
        → Waits p (heal_sessions k w grace es (seen, p))
    unfolding heal_sessions
    sessions_wait [] seen p y = (refl, y, refl)
    sessions_wait (e ∷ es) seen p y =
        let (n, later, same) = session-Waits e seen p y in
        let (m, last, again) =
          sessions_wait es (heal_session k w grace e (seen, p)).1
            (heal_session k w grace e (seen, p)).2 later in
        (ground (arith, n, m), last, again ∙ same)

    -- A sweep of a healer that has seen no session in Resuming for as long as the grace heals nothing
    -- and changes nothing: a resume that is within the grace is left alone, by a healer that has just
    -- started too. The grace is not zero.
    pub heal_sweep_early :
        (seen : Seen) (p : Plane k)
        → Young seen
        → ((heal_sweep k w grace (seen, p)).0 ≡ 0) × ((heal_sweep k w grace (seen, p)).2 ≡ p)
    unfolding heal_sweep
    heal_sweep_early seen p y =
        let (n, later, same) = sessions_wait (list_sessions k p.table) seen p y in (n, same)

module _ (k : Valkey) (now : ℕ) (change : SessionEntry → Option SessionEntry)
    (others : ℕ → Table k → Table k) (sid : String) where
  -- What the healer wrote is the change of an entry that it read, over the version it read.
  pub record Changed (f : SessionEntry) (u : Table k) : Type 0 where
    pub read : SessionEntry
    pub base : Table k
    pub new : SessionEntry
    pub allowed : change read ≡ some new
    pub is_result : f ≡ bump new
    pub unchanged : stored_version k base new.sid ≡ new.version
    pub written : u ≡ write_session k now f base

  abbrev pub ChangedIfWrote : Healed × Table k → Type 0
  ChangedIfWrote (wrote f, u) = Changed f u
  ChangedIfWrote (moved_on, u) = Unit
  ChangedIfWrote (gave_up, u) = Unit
  ChangedIfWrote (failed x, u) = Unit

  settle-Changed :
      (e f : SessionEntry) (t : Table k) (again : Table k → Healed × Table k)
      → change e ≡ some f
      → ((u : Table k) → ChangedIfWrote (again u))
      → ChangedIfWrote (settle_heal k (put_session_cas k now f t) again)
  unfolding settle_heal put_session_cas
  settle-Changed e f t again may h = elim (Bool-cases (stored_version k t f.sid == f.version)) [
    | inl same ↦
        rw (same, put_session_cas)
          (record {
            read = e;
            base = t;
            new = f;
            allowed = may;
            is_result = refl;
            unchanged = ground (arith, same);
            written = refl;
          })
    | inr differ ↦ rw (differ, put_session_cas) (h t)
  ]

  -- What a loop of the healer writes is the change that it allows of an entry that it read, over the
  -- version that it read, whatever other clients do meanwhile.
  pub heal_loop-Changed :
      (n i : ℕ) (t : Table k) → ChangedIfWrote (heal_loop k now change others sid n i t)
  unfolding heal_loop
  heal_loop-Changed zero i t = tt
  heal_loop-Changed (suc n) i t = elim (Result-cases (get_session k (others (2 * i) t) sid)) [
    | inr (x, absent) ↦ rw (absent, heal_loop) tt
    | inl (e, found) ↦ elim (Option-cases (change e)) [
      | inl stays ↦ rw (found, heal_loop) (rw stays tt)
      | inr (f, may) ↦
          rw (found, heal_loop)
            (rw may (
              settle-Changed e f (others (2 * i + 1) (others (2 * i) t))
                (heal_loop k now change others sid n (suc i)) may (heal_loop-Changed n (suc i))))
    ]
  ]

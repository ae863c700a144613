-- ===== src/Resume/Cas/Laws.antt =====
-- The compare-and-set loop: what a success means whatever other clients do, and what happens when
-- they do nothing.
use sandboxd_teleport.Prelude.{
  ℕ, suc, String, ◌+◌, ◌*◌, ◌≡◌, ◌⊎◌, refl, inl, inr, Option, none, some, Option-cases, Result, ok,
  err, arith,
}
use sandboxd_teleport.Api.{SessionEntry, fresh_entry}
use sandboxd_teleport.Valkey.{Valkey}
use sandboxd_teleport.Assign.Table.{Table, session}
use sandboxd_teleport.Assign.Sessions.{
  get_session, put_session_cas, bump, stored_version, write_session,
}
use sandboxd_teleport.Assign.Sessions.Due.{Indexed}
use sandboxd_teleport.Resume.Cas.{read_entry, settle, cas_loop}

-- Where a turn takes its entry from: the caller's seed, what the server has for the session at that
-- moment, or what the caller puts in place of an entry that is missing.
abbrev pub TakenFrom :
    (k : Valkey)
    → Result SessionEntry
    → Option SessionEntry
    → String
    → Table k
    → SessionEntry
    → Type 0
TakenFrom k absent seed sid seen e =
    (seed ≡ some e)
    ⊎ (session k seen sid ≡ some e)
    ⊎ ((session k seen sid ≡ none) × (absent ≡ ok e))

pub read_entry-TakenFrom :
    (k : Valkey) (absent : Result SessionEntry) (seed : Option SessionEntry) (sid : String)
    (t : Table k) (e : SessionEntry)
    → read_entry k absent seed sid t ≡ ok e
    → TakenFrom k absent seed sid t e
unfolding read_entry get_session
read_entry-TakenFrom k absent (some y) sid t e h = inl (ground (arith, h))
read_entry-TakenFrom k absent none sid t e h = elim (Option-cases (session k t sid)) [
  | inl gone ↦ inr (inr (gone, rw (gone, read_entry) at h))
  | inr (y, found) ↦ inr (inl (ground (arith, found, h)))
]

module _ (k : Valkey) (now : ℕ) (mutate : SessionEntry → SessionEntry)
    (absent : Result SessionEntry) (others : ℕ → Table k → Table k) (sid : String) where
  -- A write of the changed entry in a turn of the loop: `seen` is the table that the turn read, and
  -- `base` the table after what other clients did next, which has the version that was read.
  pub record Committed (first : Option SessionEntry) (e : SessionEntry) (u : Table k) : Type 0 where
    pub turn : ℕ
    pub seed : Option SessionEntry
    pub seed_is : (seed ≡ first) ⊎ (seed ≡ none)
    pub seen : Table k
    pub read : SessionEntry
    pub taken : TakenFrom k absent seed sid seen read
    pub base : Table k
    pub base_is : base ≡ others (2 * turn + 1) seen
    pub is_result : e ≡ bump (mutate read)
    pub unchanged : stored_version k base (mutate read).sid ≡ (mutate read).version
    pub written : u ≡ write_session k now e base

  abbrev pub CommittedIfOk : Option SessionEntry → Result SessionEntry × Table k → Type 0
  CommittedIfOk first (ok e, u) = Committed first e u
  CommittedIfOk first (err x, u) = Unit

module _ (k : Valkey) (now : ℕ) (mutate : SessionEntry → SessionEntry) where
  module _ (absent : Result SessionEntry) (others : ℕ → Table k → Table k) (sid : String) where
    -- With no other client at work the first turn succeeds.
    pub cas_loop_quiet :
        (n i : ℕ) (seed : Option SessionEntry) (t : Table k) (e : SessionEntry)
        → ((j : ℕ) (u : Table k) → others j u ≡ u)
        → read_entry k absent seed sid t ≡ ok e
        → stored_version k t (mutate e).sid ≡ (mutate e).version
        → cas_loop k now absent mutate others sid (suc n) i seed t
          ≡ (ok (bump (mutate e)), write_session k now (bump (mutate e)) t)
    unfolding cas_loop put_session_cas settle
    cas_loop_quiet n i seed t e quiet found same =
        rw (quiet (2 * i) t, found, cas_loop)
          (rw (quiet (2 * i) t, quiet (2 * i + 1) t) (ground (arith, same)))

-- What a turn reads belongs to the session and has the stored version, unless nothing is stored and
-- the caller has nothing to put in its place.
abbrev pub Fits : (k : Valkey) → Table k → String → SessionEntry → Type 0
Fits k t sid e = (e.sid ≡ sid) × (stored_version k t sid ≡ e.version)

module _ (k : Valkey) (t : Table k) (sid : String) (v : Indexed k t) where
  pub read_stored :
      (absent : Result SessionEntry) (e : SessionEntry)
      → session k t sid ≡ some e
      → (read_entry k absent none sid t ≡ ok e) × Fits k t sid e
  unfolding read_entry get_session stored_version
  read_stored absent e found = (ground (arith, found), (v.keyed sid e found, ground (arith, found)))

  pub read_fresh :
      session k t sid ≡ none
      → (read_entry k (ok (fresh_entry sid)) none sid t ≡ ok (fresh_entry sid))
        × Fits k t sid (fresh_entry sid)
  unfolding read_entry get_session stored_version
  read_fresh gone = (rw (gone, read_entry), (refl, ground (arith, gone)))

  pub read_seed :
      (absent : Result SessionEntry) (e : SessionEntry) → read_entry k absent (some e) sid t ≡ ok e
  unfolding read_entry
  read_seed absent e = refl

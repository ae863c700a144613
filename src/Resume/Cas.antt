-- ===== src/Resume/Cas.antt =====
-- The compare-and-set loop of casSessionSeed (resume.go) and casSession (suspend.go): read, change,
-- write, and try again after a conflict, five times at most.

pub mod Laws
use sandboxd_teleport.Prelude.{
  ℕ, zero, suc, String, ◌+◌, ◌*◌, Option, none, some, version_conflict, not_found, Result, ok, err,
}
use sandboxd_teleport.Api.{SessionEntry, fresh_entry}
use sandboxd_teleport.Valkey.{Valkey}
use sandboxd_teleport.Assign.Table.{Table}
use sandboxd_teleport.Assign.Sessions.{get_session, put_session_cas}

abbrev pub max_tries : ℕ
max_tries = 5

module _ (k : Valkey) where
  -- The entry that a turn starts from: the seed, or what GET finds, or what the caller puts in its
  -- place.
  unfoldable pub read_entry :
      Result SessionEntry → Option SessionEntry → String → Table k → Result SessionEntry
  unfolding get_session
  read_entry absent (some e) sid t = ok e
  read_entry absent none sid t = elim (get_session k t sid) [ ok e ↦ ok e | err _ ↦ absent ]

  -- Only a version conflict is tried again.
  unfoldable pub settle :
      Result SessionEntry × Table k
      → (Table k → Result SessionEntry × Table k)
      → Result SessionEntry × Table k
  settle (ok e, u) again = (ok e, u)
  settle (err version_conflict, u) again = again u
  settle (err x, u) again = (err x, u)

  unfoldable pub cas_loop :
      ℕ
      → Result SessionEntry
      → (SessionEntry → SessionEntry)
      → (ℕ → Table k → Table k)
      → String
      → ℕ
      → ℕ
      → Option SessionEntry
      → Table k
      → Result SessionEntry × Table k
  unfolding read_entry settle
  cas_loop now absent mutate others sid zero i seed t = (err version_conflict, t)
  cas_loop now absent mutate others sid (suc n) i seed t =
      let again = cas_loop now absent mutate others sid n (suc i) none in
      elim (read_entry absent seed sid (others (2 * i) t)) [
        | err x ↦ (err x, others (2 * i) t)
        | ok e ↦
            settle (put_session_cas k now (mutate e) (others (2 * i + 1) (others (2 * i) t))) again
      ]

  -- resume.go: an absent entry is created.
  unfoldable pub cas_session_seed :
      ℕ
      → (ℕ → Table k → Table k)
      → String
      → Option SessionEntry
      → (SessionEntry → SessionEntry)
      → Table k
      → Result SessionEntry × Table k
  unfolding cas_loop
  cas_session_seed now others sid seed mutate =
      cas_loop now (ok (fresh_entry sid)) mutate others sid max_tries 0 seed

  -- suspend.go: an absent entry is an error.
  unfoldable pub cas_session :
      ℕ
      → (ℕ → Table k → Table k)
      → String
      → (SessionEntry → SessionEntry)
      → Table k
      → Result SessionEntry × Table k
  unfolding cas_loop
  cas_session now others sid mutate =
      cas_loop now (err not_found) mutate others sid max_tries 0 none

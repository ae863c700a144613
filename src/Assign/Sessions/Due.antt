-- ===== src/Assign/Sessions/Due.antt =====
-- The two due-indexes of assign.go agree with the session entries after every write.
use sandboxd_teleport.Prelude.{
  ℕ, String, Bool, true, false, ◌+◌, ◌*◌, ◌<◌, ◌&&◌, ◌≡◌, inl, inr, Option, none, some, arith, ltb,
  str_eq, eq_iff, if◌then◌else◌, Option-cases,
}
use sandboxd_teleport.Api.{SessionEntry, is_running}
use sandboxd_teleport.Valkey.{Valkey}
use sandboxd_teleport.Assign.Table.{Table, session}
use sandboxd_teleport.Assign.Sessions.{
  checkpoint_base, index_suspend, index_checkpoint, write_session, put_session_cas, delete_session,
  stamp_active, bump,
}

-- The deadline that an entry asks for in `idx:suspend:due`.
abbrev pub suspend_deadline : Option SessionEntry → Option ℕ
suspend_deadline none = none
suspend_deadline (some e) =
    if is_running e.state
    then (if ltb 0 e.last_active && ltb 0 e.idle_timeout
        then some (e.last_active + e.idle_timeout * 1000)
        else none)
    else none

abbrev pub is_some {ℓ} : {A : Type ℓ} → Option A → Bool
is_some none = false
is_some (some a) = true

-- Whether an entry belongs in `idx:checkpoint:due`.
abbrev pub wants_checkpoint : Option SessionEntry → Bool
wants_checkpoint none = false
wants_checkpoint (some e) = is_running e.state && ltb 0 e.checkpoint_interval

module _ (k : Valkey) where
  pub record Indexed (t : Table k) : Type 0 where
    pub keyed : (sid : String) (e : SessionEntry) → session k t sid ≡ some e → e.sid ≡ sid
    pub suspend :
        (sid : String) → (k.zset).score t.suspend_due sid ≡ suspend_deadline (session k t sid)
    pub checkpoint :
        (sid : String)
        → is_some ((k.zset).score t.checkpoint_due sid) ≡ wants_checkpoint (session k t sid)

  score-index_suspend :
      (e : SessionEntry) (z : (k.zset).Map) (x : String)
      → (k.zset).score (index_suspend k e z) x
        ≡ (if str_eq e.sid x then suspend_deadline (some e) else (k.zset).score z x)
  unfolding index_suspend
  score-index_suspend e z x = ground (
    arith,
    (k.zset).score-zadd z e.sid x (e.last_active + e.idle_timeout * 1000),
    (k.zset).score-zrem z e.sid x,
  )

  score-index_checkpoint :
      (now : ℕ) (e : SessionEntry) (z : (k.zset).Map) (x : String)
      → is_some ((k.zset).score (index_checkpoint k now e z) x)
        ≡ (if str_eq e.sid x then wants_checkpoint (some e) else is_some ((k.zset).score z x))
  unfolding index_checkpoint
  score-index_checkpoint now e z x = ground (
    arith,
    (k.zset).score-zadd z e.sid x (checkpoint_base now e + e.checkpoint_interval * 1000),
    (k.zset).score-zrem z e.sid x,
  )

  pub write_session-Indexed :
      (now : ℕ) (e : SessionEntry) (t : Table k) → Indexed t → Indexed (write_session k now e t)
  unfolding write_session
  write_session-Indexed now e t v = record {
    keyed = λ sid e' h. ground (
      arith,
      (k.strings SessionEntry).get-set t.sessions e.sid sid e,
      eq_iff e.sid sid,
      v.keyed sid e',
    );
    suspend = λ sid. ground (
      arith,
      (k.strings SessionEntry).get-set t.sessions e.sid sid e,
      score-index_suspend e t.suspend_due sid,
      v.suspend sid,
    );
    checkpoint = λ sid. ground (
      arith,
      (k.strings SessionEntry).get-set t.sessions e.sid sid e,
      score-index_checkpoint now e t.checkpoint_due sid,
      v.checkpoint sid,
    );
  }

  pub put_session_cas-Indexed :
      (now : ℕ) (e : SessionEntry) (t : Table k) → Indexed t → Indexed (put_session_cas k now e t).1
  unfolding put_session_cas
  put_session_cas-Indexed now e t v = ground (arith, write_session-Indexed now (bump e) t v)

  pub delete_session-Indexed :
      (sid : String) (t : Table k) → Indexed t → Indexed (delete_session k sid t)
  unfolding delete_session
  delete_session-Indexed x t v = record {
    keyed =
        λ sid e h. ground (arith, (k.strings SessionEntry).get-del t.sessions x sid, v.keyed sid e);
    suspend = λ sid. ground (
      arith,
      (k.strings SessionEntry).get-del t.sessions x sid,
      (k.zset).score-zrem t.suspend_due x sid,
      v.suspend sid,
    );
    checkpoint = λ sid. ground (
      arith,
      (k.strings SessionEntry).get-del t.sessions x sid,
      (k.zset).score-zrem t.checkpoint_due x sid,
      v.checkpoint sid,
    );
  }

  stamp_found :
      (x : String) (now : ℕ) (t : Table k) (e : SessionEntry)
      → session k t x ≡ some e
      → 0 < now
      → Indexed t
      → Indexed (stamp_active k x now t)
  unfolding stamp_active
  stamp_found x now t e found pos v = record {
    keyed = λ sid e' h. ground (
      arith,
      (k.strings SessionEntry).get-set t.sessions x sid (record e { last_active = now }),
      eq_iff x sid,
      v.keyed sid e',
      v.keyed x e,
    );
    suspend = λ sid. ground (
      arith,
      (k.strings SessionEntry).get-set t.sessions x sid (record e { last_active = now }),
      (k.zset).score-zadd t.suspend_due e.sid sid (now + e.idle_timeout * 1000),
      v.suspend sid,
      v.keyed x e,
      eq_iff x sid,
      eq_iff e.sid sid,
    );
    checkpoint = λ sid. ground (
      arith,
      (k.strings SessionEntry).get-set t.sessions x sid (record e { last_active = now }),
      v.checkpoint sid,
      eq_iff x sid,
    );
  }

  pub stamp_active-Indexed :
      (x : String) (now : ℕ) (t : Table k) → 0 < now → Indexed t → Indexed (stamp_active k x now t)
  unfolding stamp_active
  stamp_active-Indexed x now t pos v = elim (Option-cases (session k t x)) [
    | inl gone ↦ rw (gone, stamp_active) v
    | inr (e, found) ↦ stamp_found x now t e found pos v
  ]

-- ===== src/Assign/Sessions/Sweep.antt =====
-- What the sweepers read: with the indexes in order, exactly the sessions that are due, and nothing
-- to prune.
use sandboxd_teleport.Prelude.{
  ℕ, String, true, ◌≡◌, refl, sym, subst, inl, inr, some, List, [], ◌∷◌, map, arith, eq_iff,
  Option-cases, listed,
}
use sandboxd_teleport.Api.{SessionEntry}
use sandboxd_teleport.Valkey.{Valkey, due}
use sandboxd_teleport.Assign.Table.{Table, session}
use sandboxd_teleport.Assign.Sessions.{load, stale, zrem_all, suspend_due, checkpoint_due}
use sandboxd_teleport.Assign.Sessions.Due.{Indexed, suspend_deadline}

abbrev pub sids : List SessionEntry → List String
sids = map (λ e. e.sid)

module _ (k : Valkey) (t : Table k) where
  -- Every sid of the list has an entry.
  abbrev Found : List String → Type 0
  Found xs = (x : String) → listed x xs ≡ true → (e : SessionEntry) × (session k t x ≡ some e)

  Found-tail : (x : String) (xs : List String) → Found (x ∷ xs) → Found xs
  unfolding listed
  Found-tail x xs f y h = f y (ground arith)

  -- The entries are those of the table.
  abbrev pub Stored : List SessionEntry → Type 0
  Stored [] = Unit
  Stored (e ∷ es) = (session k t e.sid ≡ some e) × Stored es

  pub load-Stored : (xs : List String) → Indexed k t → Stored (load k t xs)
  unfolding load
  load-Stored [] v = tt
  load-Stored (x ∷ xs) v = elim (Option-cases (session k t x)) [
    | inl gone ↦ rw (gone, load) (load-Stored xs v)
    | inr (e, found) ↦
        rw (found, load)
          (subst (λ y. session k t y ≡ some e) (sym (v.keyed x e found)) found, load-Stored xs v)
  ]

  load-Found :
      (xs : List String) → Indexed k t → Found xs → (sids (load k t xs) ≡ xs) × (stale k t xs ≡ [])
  unfolding load stale listed
  load-Found [] v f = (refl, refl)
  load-Found (x ∷ xs) v f =
      let (e, found) = f x (ground (arith, eq_iff x x)) in
      ground (arith, v.keyed x e found, load-Found xs v (Found-tail x xs f))

  checkpoint-Found : (now : ℕ) → Indexed k t → Found ((k.zset).range t.checkpoint_due now)
  checkpoint-Found now v x h = elim (Option-cases ((k.zset).score t.checkpoint_due x)) [
    | inl gone ↦ absurd (ground (arith, (k.zset).range-due t.checkpoint_due now x, gone, h))
    | inr (d, there) ↦ ground (arith, v.checkpoint x, there)
  ]

  -- With the indexes in order, CheckpointDue has nothing to prune.
  pub checkpoint_due_same : (now : ℕ) → Indexed k t → (checkpoint_due k now t).1 ≡ t
  unfolding checkpoint_due zrem_all
  checkpoint_due_same now v =
      rw ((load-Found ((k.zset).range t.checkpoint_due now) v (checkpoint-Found now v)).1) refl

  range-Found : (now : ℕ) → Indexed k t → Found ((k.zset).range t.suspend_due now)
  range-Found now v x h = ground (arith, (k.zset).range-due t.suspend_due now x, v.suspend x)

  -- With the indexes in order, SuspendDue returns exactly the sessions whose deadline has passed, as
  -- the table has them, and changes nothing.
  pub suspend_due_lem :
      (now : ℕ)
      → Indexed k t
      → ((sid : String)
          → listed sid (sids (suspend_due k now t).0)
            ≡ due now (suspend_deadline (session k t sid)))
        × Stored (suspend_due k now t).0
        × ((suspend_due k now t).1 ≡ t)
  unfolding suspend_due zrem_all
  suspend_due_lem now v =
      let (same, none_stale) =
        load-Found ((k.zset).range t.suspend_due now) v (range-Found now v) in
      (
        λ sid. rw (same, (k.zset).range-due t.suspend_due now sid, v.suspend sid),
        load-Stored ((k.zset).range t.suspend_due now) v,
        rw none_stale,
      )

-- ===== src/Controllers/Forks/Seeds.antt =====
-- The children that a ForkSet seeds from a base snapshot, and the base that they hold.
use sandboxd_teleport.Prelude.{
  String, Bool, true, ◌||◌, ◌≡◌, ◌∙◌, inl, inr, Option, none, some, List, [], ◌∷◌, arith, str_eq,
  eq_iff, Option-cases, if_case, if◌then◌else◌, listed,
}
use sandboxd_teleport.Api.{SessionEntry}
use sandboxd_teleport.Cluster.{Objects, Answers, Session, Base}
use sandboxd_teleport.Valkey.{Valkey}
use sandboxd_teleport.Assign.Table.{Table, session}
use sandboxd_teleport.Assign.Sessions.{bump, put_session_cas, stored_version}
use sandboxd_teleport.Assign.Sessions.Cas.{session-write_session}
use sandboxd_teleport.Durability.Laws.{or_else}
use sandboxd_teleport.Controllers.Forks.{
  ForkSet, ForkWorld, seed, seed_child, ensure_child, ensure_children,
}

module _ (os : Objects Session) (ob : Objects Base) (sa ba : Answers) (k : Valkey) (w : ForkWorld)
    (fs : ForkSet) (base : String) (b : Base) where
  session-seed_child :
      (x sid : String) (t : Table k)
      → session k (seed_child os ob sa ba k w fs (some (base, b)) x t) sid ≡ (
          if str_eq x sid
          then or_else (session k t sid) (some (bump (seed fs b x)))
          else session k t sid)
  unfolding seed_child put_session_cas stored_version seed
  session-seed_child x sid t = elim (Option-cases (session k t x)) [
    | inl missing ↦
        ground
          (arith, missing, eq_iff x sid, session-write_session k w.now (bump (seed fs b x)) t sid)
    | inr (e, found) ↦ ground (arith, found, eq_iff x sid)
  ]

  session-ensure_child :
      (x sid : String) (m : os.Map) (t : Table k)
      → (ensure_child os ob sa ba k w fs (some (base, b)) x (m, t)).0 ≡ true
      → session k (ensure_child os ob sa ba k w fs (some (base, b)) x (m, t)).2 sid ≡ (
          if str_eq x sid
          then or_else (session k t sid) (some (bump (seed fs b x)))
          else session k t sid)
  unfolding ensure_child
  session-ensure_child x sid m t fine =
      ground (arith, fine, session-seed_child x sid t, Option-cases (os.get m x))

  joined :
      (x : String) (xs : List String) (sid : String) (before between : Option SessionEntry)
      → between ≡ (if str_eq x sid then or_else before (some (bump (seed fs b x))) else before)
      → or_else between (if listed sid xs then some (bump (seed fs b sid)) else none)
        ≡ or_else before
            (if str_eq x sid || listed sid xs then some (bump (seed fs b sid)) else none)
  joined x xs sid none between h = ground (arith, h, eq_iff x sid)
  joined x xs sid (some e) between h = ground (arith, h, eq_iff x sid)

  -- The entries after the children of a ForkSet with a base have been ensured without an error: every
  -- entry that was there is left as it is, and each child without one has the entry of a suspended
  -- session with the base's snapshot.
  pub session-ensure_children :
      (names : List String) (sid : String) (m : os.Map) (t : Table k)
      → (ensure_children os ob sa ba k w fs (some (base, b)) names (m, t)).0 ≡ true
      → session k (ensure_children os ob sa ba k w fs (some (base, b)) names (m, t)).2 sid
        ≡ or_else (session k t sid) (if listed sid names then some (bump (seed fs b sid)) else none)
  unfolding ensure_children listed
  session-ensure_children [] sid m t fine = ground (arith, Option-cases (session k t sid))
  session-ensure_children (x ∷ xs) sid m t fine =
      let one = ensure_child os ob sa ba k w fs (some (base, b)) x (m, t) in
      let rest = ensure_children os ob sa ba k w fs (some (base, b)) xs (one.1, one.2) in
      if_case
        (λ (r : Bool × os.Map × Table k).
          r.0 ≡ true
          → session k r.2 sid
            ≡ or_else (session k t sid)
                (if str_eq x sid || listed sid xs then some (bump (seed fs b sid)) else none))
        one.0 _ _
        (λ go done_all.
          (session-ensure_children xs sid one.1 one.2 done_all)
          ∙ joined x xs sid (session k t sid) (session k one.2 sid)
              (session-ensure_child x sid m t go))
        (λ stop done_all. absurd (ground (arith, done_all))) fine

-- ===== src/Controllers/Reaper.antt =====
-- basereaper.go: the reaper of base snapshots that no fork needs any more. The clock gives one time
-- to a pass.
pub mod Held
use sandboxd_teleport.Prelude.{
  ℕ, String, Bool, true, false, ◌+◌, not, ◌&&◌, ◌||◌, Option, none, some, List, [], ◌∷◌, str_eq,
  ltb, ◌==◌, if◌then◌else◌,
}
use sandboxd_teleport.Api.{SessionEntry, is_suspended, is_resuming}
use sandboxd_teleport.Cluster.{
  Objects, Answers, Write, done, conflict, gone, failed, Session, Base, Condition, kept,
}
use sandboxd_teleport.Valkey.{Valkey}
use sandboxd_teleport.Assign.Table.{Table, session}

-- setCondition.
unfoldable pub set_condition : Condition → List Condition → List Condition
set_condition c [] = c ∷ []
set_condition c (d ∷ ds) =
    let rest = set_condition c ds in if str_eq d.kind c.kind then c ∷ ds else d ∷ rest

-- The time of the first condition that says that a base is unreferenced.
unfoldable pub unreferenced_since : List Condition → Option ℕ
unreferenced_since [] = none
unreferenced_since (c ∷ cs) =
    let rest = unreferenced_since cs in
    if str_eq c.kind "Unreferenced" && c.holds then some c.since else rest

abbrev pub unreferenced_condition : Bool → String → String → Base → ℕ → Condition
unreferenced_condition holds reason message b now = record {
  kind = "Unreferenced";
  holds = holds;
  reason = reason;
  message = message;
  generation = b.generation;
  since = now;
}

-- NewBaseReaper's arguments. `wired` is whether there is an assignment table.
pub record BaseReaper : Type 0 where
  pub wired : Bool
  pub grace : ℕ
  pub dry_run : Bool
  pub now : ℕ

module _ (os : Objects Session) (ob : Objects Base) (sa ba : Answers) (k : Valkey)
    (r : BaseReaper) where
  -- Whether a session's entry shows that it still depends on the base it was forked from.
  unfoldable pub needs_base : Option SessionEntry → Bool
  needs_base none = true
  needs_base (some e) = is_suspended e.state || is_resuming e.state

  unfoldable pub count_refs : String → os.Map → Table k → List String → ℕ
  unfolding needs_base
  count_refs base m t [] = 0
  count_refs base m t (name ∷ names) =
      let rest = count_refs base m t names in
      elim (os.get m name) [
        | none ↦ rest
        | some s ↦
            if str_eq s.fork_base base && needs_base (session k t name) then rest + 1 else rest
      ]

  -- refCountFor: an error is `none`, and -1 without an error is `some none`.
  unfoldable pub ref_count_for : String → os.Map → Table k → Option (Option ℕ)
  unfolding count_refs
  ref_count_for base m t =
      if not sa.lists
      then none
      else if not r.wired
      then some none
      else some (some (count_refs base m t (os.names m)))

  abbrev pub with_conditions : List Condition → Base → Base
  with_conditions cs b = record b { status = record b.status { conditions = cs } }

  -- markUnreferenced: the base as it is in memory, and the time, `none` for the zero time.
  unfoldable pub mark_unreferenced : String → Base → ob.Map → Option ℕ × ob.Map
  unfolding unreferenced_since set_condition
  mark_unreferenced x b m = elim (unreferenced_since b.status.conditions) [
    | some t ↦ (some t, m)
    | none ↦
        let c = unreferenced_condition true "RefCountZero" "no forks reference this base" b r.now in
        let n =
          kept ob (ba.update_status x) x (with_conditions (set_condition c b.status.conditions) b)
            m in
        elim (ba.update_status x) [
          | done ↦ (some r.now, n)
          | conflict ↦ (none, n)
          | gone ↦ (none, n)
          | failed ↦ (none, n)
        ]
  ]

  unfoldable pub clear_unreferenced : String → Base → ob.Map → ob.Map
  unfolding unreferenced_since set_condition
  clear_unreferenced x b m = elim (unreferenced_since b.status.conditions) [
    | none ↦ m
    | some t ↦
        let c = unreferenced_condition false "Referenced" "forks reference this base" b r.now in
        kept ob (ba.update_status x) x (with_conditions (set_condition c b.status.conditions) b) m
  ]

  -- The status.refCount of a base, where it changed.
  unfoldable pub note_refs : String → ℕ → Base → ob.Map → Base × ob.Map
  note_refs x n b m =
      let c = record b { status = record b.status { ref_count = n } } in
      if n == b.status.ref_count then (b, m) else (c, kept ob (ba.update_status x) x c m)

  -- What the API server does with a delete: an object with a finalizer is marked.
  unfoldable pub server_delete : String → ob.Map → ob.Map
  server_delete x m = elim (ob.get m x) [
    | none ↦ m
    | some b ↦ if b.finalizer then ob.put m x (record b { deleting = true }) else ob.remove m x
  ]

  -- A base that nothing references, once the grace is over.
  unfoldable pub delete_base : String → Option ℕ → ob.Map → ob.Map
  unfolding server_delete
  delete_base x none m = m
  delete_base x (some since) m =
      if ltb r.now (since + r.grace)
      then m
      else if r.dry_run
      then m
      else elim (ba.delete x) [ done ↦ server_delete x m | conflict ↦ m | gone ↦ m | failed ↦ m ]

  unfoldable pub reclaim_base : String → Base → ob.Map → ob.Map
  unfolding mark_unreferenced delete_base
  reclaim_base x b m = let (since, n) = mark_unreferenced x b m in delete_base x since n

  -- One base of the pass.
  unfoldable pub reap_base : os.Map → Table k → String → Base → ob.Map → ob.Map
  unfolding ref_count_for clear_unreferenced note_refs reclaim_base
  reap_base sessions t x b m = if not b.status.ready then m else elim (ref_count_for x sessions t) [
    | none ↦ m
    | some none ↦ clear_unreferenced x b m
    | some (some n) ↦
        let (c, l) = note_refs x n b m in
        if c.pinned || not (n == 0) then clear_unreferenced x c l else reclaim_base x c l
  ]

  unfoldable pub reap_bases : os.Map → Table k → List String → ob.Map → ob.Map
  unfolding reap_base
  reap_bases sessions t [] m = m
  reap_bases sessions t (x ∷ xs) m = elim (ob.get m x) [
    | none ↦ reap_bases sessions t xs m
    | some b ↦ reap_bases sessions t xs (reap_base sessions t x b m)
  ]

  -- reconcileOnce.
  unfoldable pub reap_once : os.Map → Table k → ob.Map → ob.Map
  unfolding reap_bases
  reap_once sessions t m = if ba.lists then reap_bases sessions t (ob.names m) m else m

-- ===== src/Controllers/Reaper/Held.antt =====
-- The bases that a pass of the reaper leaves alone.
use sandboxd_teleport.Prelude.{
  ℕ, String, Bool, true, false, ◌+◌, not, ◌||◌, ◌≡◌, ◌∙◌, ◌⊎◌, refl, sym, ap, subst, inl, inr,
  Option, none, some, List, [], ◌∷◌, arith, str_eq, eq_iff, ltb, ◌==◌, Option-cases, Bool-cases,
  if_case, if◌then◌else◌,
}
use sandboxd_teleport.Cluster.{
  Objects, Answers, Write, done, conflict, gone, failed, Session, Base, Condition, kept,
}
use sandboxd_teleport.Valkey.{Valkey}
use sandboxd_teleport.Assign.Table.{Table}
use sandboxd_teleport.Controllers.Reaper.{
  BaseReaper, set_condition, unreferenced_since, unreferenced_condition, ref_count_for,
  mark_unreferenced, clear_unreferenced, note_refs, delete_base, server_delete, reclaim_base,
  reap_base, reap_bases, reap_once, with_conditions,
}

marked_now :
    (b : Base) (now : ℕ) (cs : List Condition)
    → unreferenced_since cs ≡ none
    → unreferenced_since (
        set_condition
          (unreferenced_condition true "RefCountZero" "no forks reference this base" b now)
          cs)
      ≡ some now
unfolding unreferenced_since set_condition
marked_now b now [] h = refl
marked_now b now (c ∷ cs) h = ground (arith, marked_now b now cs, eq_iff c.kind "Unreferenced")

-- Whether a reference count is a reason to keep a base: an error, unknown, or above zero.
abbrev pub is_wanted : Option (Option ℕ) → Bool
is_wanted none = true
is_wanted (some none) = true
is_wanted (some (some n)) = not (n == 0)

-- Whether the grace of a base is not over.
abbrev pub is_fresh : BaseReaper → Option ℕ → Bool
is_fresh r none = ltb 0 r.grace
is_fresh r (some since) = ltb r.now (since + r.grace)

module _ (os : Objects Session) (ob : Objects Base) (sa ba : Answers) (k : Valkey) (r : BaseReaper)
    (sessions : os.Map) (t : Table k) (x : String) where
  -- Whether there is a reason to keep the base `x`: it is pinned, not promoted, wanted or within its
  -- grace, or the reaper only reports.
  abbrev pub is_safe : Base → Bool
  is_safe b =
      b.pinned
      || not b.status.ready
      || r.dry_run
      || is_wanted (ref_count_for os ob sa ba k r x sessions t)
      || is_fresh r (unreferenced_since b.status.conditions)

  -- The base is there, is not being deleted, and is safe.
  abbrev pub Kept : ob.Map → Type 0
  Kept m = (b : Base) × (ob.get m x ≡ some b) × (b.deleting ≡ false) × (is_safe b ≡ true)

  get-kept :
      (w : Write) (y : String) (c : Base) (m : ob.Map)
      → (ob.get (kept ob w y c m) x ≡ ob.get m x)
        ⊎ ((str_eq y x ≡ true) × (ob.get (kept ob w y c m) x ≡ some c))
  get-kept done y c m = ground (arith, ob.get-put m y x c)
  get-kept conflict y c m = inl refl
  get-kept gone y c m = inl refl
  get-kept failed y c m = inl refl

  -- A write of a safe base that is not being deleted.
  kept-Kept :
      (w : Write) (y : String) (c : Base) (m : ob.Map)
      → (str_eq y x ≡ true → (c.deleting ≡ false) × (is_safe c ≡ true))
      → Kept m
      → Kept (kept ob w y c m)
  kept-Kept w y c m good (b, found, live, safe) = elim (get-kept w y c m) [
    | inl same ↦ (b, same ∙ found, live, safe)
    | inr (e, at) ↦ (c, at, (good e).0, (good e).1)
  ]

  -- A reason that a change of the conditions does not touch.
  abbrev pub is_steady : Base → Bool
  is_steady b =
      b.pinned
      || not b.status.ready
      || r.dry_run
      || is_wanted (ref_count_for os ob sa ba k r x sessions t)

  abbrev pub Good : String → Base → Type 0
  Good y c = str_eq y x ≡ true → (c.deleting ≡ false) × (is_safe c ≡ true)

  server_delete-Kept :
      (y : String) (m : ob.Map)
      → str_eq y x ≡ false
      → Kept m
      → Kept (server_delete os ob sa ba k r y m)
  unfolding server_delete
  server_delete-Kept y m other (b, found, live, safe) = elim (Option-cases (ob.get m y)) [
    | inl none_there ↦ rw (none_there, server_delete) (b, found, live, safe)
    | inr (c, at) ↦
        rw (at, server_delete)
          (if_case Kept c.finalizer _ _
            (λ _. (
              b,
              ground (arith, found, other, ob.get-put m y x (record c { deleting = true })),
              live,
              safe,
            ))
            (λ _. (b, ground (arith, found, other, ob.get-remove m y x), live, safe)))
  ]

  delete_base-Kept :
      (y : String) (since : ℕ) (m : ob.Map)
      → (str_eq y x ≡ true → (r.dry_run || ltb r.now (since + r.grace)) ≡ true)
      → Kept m
      → Kept (delete_base os ob sa ba k r y (some since) m)
  unfolding delete_base
  delete_base-Kept y since m spared h =
      if_case Kept (ltb r.now (since + r.grace)) _ _ (λ _. h)
        (λ late.
          if_case Kept r.dry_run _ _ (λ _. h)
            (λ wet.
              after (ba.delete y) (ground (arith, spared, late, wet, Bool-cases (str_eq y x)))))
    where
      after :
          (w : Write)
          → str_eq y x ≡ false
          → Kept (elim w [
            | done ↦ server_delete os ob sa ba k r y m
            | conflict ↦ m
            | gone ↦ m
            | failed ↦ m
          ])
      after done other = server_delete-Kept y m other h
      after conflict other = h
      after gone other = h
      after failed other = h

  clear_unreferenced-Kept :
      (y : String) (b : Base) (m : ob.Map)
      → (str_eq y x ≡ true → (b.deleting ≡ false) × (is_steady b ≡ true))
      → Kept m
      → Kept (clear_unreferenced os ob sa ba k r y b m)
  unfolding clear_unreferenced
  clear_unreferenced-Kept y b m good h =
      elim (Option-cases (unreferenced_since b.status.conditions)) [
        | inl calm ↦ rw (calm, clear_unreferenced) h
        | inr (since, e) ↦
            rw (e, clear_unreferenced)
              (kept-Kept (ba.update_status y) y _ m
                (λ same. ((good same).0, ground (arith, (good same).1))) h)
      ]

  abbrev pub KeptAfter : String → Option ℕ × ob.Map → Type 0
  KeptAfter y (since, m) = Kept (delete_base os ob sa ba k r y since m)

  mark_unreferenced-KeptAfter :
      (y : String) (b : Base) (m : ob.Map)
      → Good y b
      → (str_eq y x ≡ true → is_steady b ≡ r.dry_run)
      → Kept m
      → KeptAfter y (mark_unreferenced os ob sa ba k r y b m)
  unfolding mark_unreferenced delete_base
  mark_unreferenced-KeptAfter y b m good unsteady h =
      elim (Option-cases (unreferenced_since b.status.conditions)) [
        | inl calm ↦
            rw (calm, mark_unreferenced) (after calm (ba.update_status y) (ba.update_status y))
        | inr (since, e) ↦
            rw (e, mark_unreferenced)
              (delete_base-Kept y since m (λ same. ground (arith, (good same).1, unsteady same, e))
                h)
      ]
    where
      marked : Base
      marked =
          with_conditions os ob sa ba k r
            (set_condition
              (unreferenced_condition true "RefCountZero" "no forks reference this base" b r.now)
              b.status.conditions)
            b

      stored :
          (u : Write) → unreferenced_since b.status.conditions ≡ none → Kept (kept ob u y marked m)
      stored u calm =
          kept-Kept u y marked m
            (λ same. (
              (good same).0,
              ground (arith, (good same).1, calm, marked_now b r.now b.status.conditions calm),
            ))
            h

      after :
          unreferenced_since b.status.conditions ≡ none
          → (w u : Write)
          → KeptAfter y (elim w [
            | done ↦ (some r.now, kept ob u y marked m)
            | conflict ↦ (none, kept ob u y marked m)
            | gone ↦ (none, kept ob u y marked m)
            | failed ↦ (none, kept ob u y marked m)
          ])
      after calm done u =
          delete_base-Kept y r.now (kept ob u y marked m)
            (λ same. ground (arith, (good same).1, unsteady same, calm)) (stored u calm)
      after calm conflict u = stored u calm
      after calm gone u = stored u calm
      after calm failed u = stored u calm

  same_base : (y : String) (b : Base) (m : ob.Map) → ob.get m y ≡ some b → Kept m → Good y b
  same_base y b m there (c, found, live, safe) same =
      let same_name : y ≡ x = ground (arith, eq_iff y x, same) in
      let at : ob.get m x ≡ some b = subst (λ z. ob.get m z ≡ some b) same_name there in
      let one : c ≡ b = cc (at, found) in
      subst (λ (d : Base). (d.deleting ≡ false) × (is_safe d ≡ true)) one (live, safe)

  reclaim_base-Kept :
      (y : String) (b : Base) (m : ob.Map)
      → Good y b
      → (str_eq y x ≡ true → is_steady b ≡ r.dry_run)
      → Kept m
      → Kept (reclaim_base os ob sa ba k r y b m)
  unfolding reclaim_base
  reclaim_base-Kept y b m good unsteady h = mark_unreferenced-KeptAfter y b m good unsteady h

  settle :
      (y : String) (n : ℕ) (c : Base) (m : ob.Map)
      → (str_eq y x ≡ true → ref_count_for os ob sa ba k r x sessions t ≡ some (some n))
      → c.status.ready ≡ true
      → Good y c
      → Kept m
      → Kept (
          if c.pinned || not (n == 0)
          then clear_unreferenced os ob sa ba k r y c m
          else reclaim_base os ob sa ba k r y c m)
  settle y n c m refs ready good h =
      if_case Kept (c.pinned || not (n == 0)) _ _
        (λ steady.
          clear_unreferenced-Kept y c m (λ same. ((good same).0, ground (arith, steady, refs same)))
            h)
        (λ loose. reclaim_base-Kept y c m good (λ same. ground (arith, loose, refs same, ready)) h)

  noted :
      (y : String) (n : ℕ) (b : Base) (m : ob.Map)
      → (str_eq y x ≡ true → ref_count_for os ob sa ba k r x sessions t ≡ some (some n))
      → b.status.ready ≡ true
      → Good y b
      → Kept m
      → let (c, l) = note_refs os ob sa ba k r y n b m in
        Kept (
          if c.pinned || not (n == 0)
          then clear_unreferenced os ob sa ba k r y c l
          else reclaim_base os ob sa ba k r y c l)
  unfolding note_refs
  noted y n b m refs ready good h =
      let counted_base = record b { status = record b.status { ref_count = n } } in
      if_case
        (λ (e : Base × ob.Map). Kept (
          if e.0.pinned || not (n == 0)
          then clear_unreferenced os ob sa ba k r y e.0 e.1
          else reclaim_base os ob sa ba k r y e.0 e.1))
        (n == b.status.ref_count) _ _ (λ _. settle y n b m refs ready good h)
        (λ _.
          settle y n counted_base _ refs ready good
            (kept-Kept (ba.update_status y) y counted_base m good h))

  counted :
      (y : String) (b : Base) (m : ob.Map)
      → not b.status.ready ≡ false
      → Good y b
      → Kept m
      → (c : Option (Option ℕ))
      → (str_eq y x ≡ true → ref_count_for os ob sa ba k r x sessions t ≡ c)
      → Kept (elim c [
        | none ↦ m
        | some none ↦ clear_unreferenced os ob sa ba k r y b m
        | some (some n) ↦
            let (d, l) = note_refs os ob sa ba k r y n b m in
            if d.pinned || not (n == 0)
            then clear_unreferenced os ob sa ba k r y d l
            else reclaim_base os ob sa ba k r y d l
      ])
  counted y b m unready good h none refs = h
  counted y b m unready good h (some none) refs =
      clear_unreferenced-Kept y b m (λ same. ((good same).0, ground (arith, refs same))) h
  counted y b m unready good h (some (some n)) refs =
      noted y n b m refs (ground (arith, unready)) good h

  reap_base-Kept :
      (y : String) (b : Base) (m : ob.Map)
      → ob.get m y ≡ some b
      → Kept m
      → Kept (reap_base os ob sa ba k r sessions t y b m)
  unfolding reap_base
  reap_base-Kept y b m there h =
      let good = same_base y b m there h in
      if_case Kept (not b.status.ready) _ _ (λ _. h)
        (λ unready.
          counted y b m unready good h (ref_count_for os ob sa ba k r y sessions t) (λ same.
            ap (λ z. ref_count_for os ob sa ba k r z sessions t)
              (sym (ground (arith, eq_iff y x, same)))))

  reap_bases-Kept :
      (ys : List String) (m : ob.Map) → Kept m → Kept (reap_bases os ob sa ba k r sessions t ys m)
  unfolding reap_bases
  reap_bases-Kept [] m h = h
  reap_bases-Kept (y ∷ ys) m h = elim (Option-cases (ob.get m y)) [
    | inl missing ↦ rw (missing, reap_bases) (reap_bases-Kept ys m h)
    | inr (b, there) ↦ rw (there, reap_bases) (reap_bases-Kept ys _ (reap_base-Kept y b m there h))
  ]

  -- A pass of the reaper leaves a base alone, neither deleted nor marked as being deleted, as long as
  -- one of these holds: it is pinned, it is not promoted, its references could not be counted or are
  -- not zero, the reaper only reports, or its condition says that it has been unreferenced for less
  -- than the grace, where one that has no such condition yet waits if the grace is not zero. This holds
  -- whatever calls of the API server fail.
  pub reap_once-Kept : (m : ob.Map) → Kept m → Kept (reap_once os ob sa ba k r sessions t m)
  unfolding reap_once
  reap_once-Kept m h = if_case Kept ba.lists _ _ (λ _. reap_bases-Kept (ob.names m) m h) (λ _. h)

-- ===== src/Controllers/Forks/Holds.antt =====
-- The base snapshot of a ForkSet is not reaped while a child has still to be restored from it.
use sandboxd_teleport.Prelude.{
  String, Bool, true, false, ◌&&◌, ◌≡◌, ◌⊎◌, refl, sym, subst, inl, inr, none, some, List, [], ◌∷◌,
  arith, str_eq, eq_iff, ◌==◌, Option-cases, Bool-cases, if_case, listed,
}
use sandboxd_teleport.Cluster.{Objects, Answers, done, Session, Base}
use sandboxd_teleport.Valkey.{Valkey}
use sandboxd_teleport.Assign.Table.{Table, session}
use sandboxd_teleport.Controllers.Forks.{
  ForkSet, ForkWorld, child, seed, create_child, ensure_child, ensure_children,
}
use sandboxd_teleport.Controllers.Forks.Seeds.{session-ensure_children}
use sandboxd_teleport.Controllers.Reaper.{
  BaseReaper, needs_base, count_refs, ref_count_for, reap_once,
}
use sandboxd_teleport.Controllers.Reaper.Held.{reap_once-Kept, is_safe}

module _ (os : Objects Session) (ob : Objects Base) (sa ba : Answers) (k : Valkey) where
  module _ (w : ForkWorld) (fs : ForkSet) (base : String) (b : Base) (name : String) where
    abbrev pub HasChild : os.Map → Type 0
    HasChild m = (s : Session) × (os.get m name ≡ some s) × (str_eq s.fork_base base ≡ true)

    abbrev ensured : String → os.Map → Table k → Bool × os.Map × Table k
    ensured x m t = ensure_child os ob sa ba k w fs (some (base, b)) x (m, t)

    child_stays : (x : String) (m : os.Map) (t : Table k) → HasChild m → HasChild (ensured x m t).1
    unfolding ensure_child create_child
    child_stays x m t (s, found, from_base) = (
      s,
      ground (arith, found, eq_iff x name, os.get-put m x name (child fs (some (base, b)))),
      from_base,
    )

    child_made :
        (m : os.Map) (t : Table k)
        → sa.create name ≡ done
        → os.get m name ≡ none
        → (ensured name m t).0 ≡ true
        → HasChild (ensured name m t).1
    unfolding ensure_child create_child child
    child_made m t creates missing fine = (
      child fs (some (base, b)),
      ground (
        arith,
        creates,
        missing,
        fine,
        eq_iff name name,
        os.get-put m name name (child fs (some (base, b))),
      ),
      ground (arith, eq_iff base base),
    )

    not_yet :
        (x : String) (m : os.Map) (t : Table k)
        → str_eq x name ≡ false
        → os.get m name ≡ none
        → os.get (ensured x m t).1 name ≡ none
    unfolding ensure_child create_child
    not_yet x m t other missing =
        ground (arith, other, missing, os.get-put m x name (child fs (some (base, b))))

    children_made :
        (names : List String) (m : os.Map) (t : Table k)
        → sa.create name ≡ done
        → HasChild m ⊎ ((os.get m name ≡ none) × (listed name names ≡ true))
        → (ensure_children os ob sa ba k w fs (some (base, b)) names (m, t)).0 ≡ true
        → HasChild (ensure_children os ob sa ba k w fs (some (base, b)) names (m, t)).1
    unfolding ensure_children listed
    children_made [] m t creates (inl has) fine = has
    children_made [] m t creates (inr (missing, there)) fine = absurd (ground (arith, there))
    children_made (x ∷ xs) m t creates start fine =
        if_case (λ (r : Bool × os.Map × Table k). r.0 ≡ true → HasChild r.1) (ensured x m t).0 _ _
          (λ go done_all.
            children_made xs (ensured x m t).1 (ensured x m t).2 creates (step start go) done_all)
          (λ stop done_all. absurd (ground (arith, done_all))) fine
      where
        at :
            (y : String)
            → str_eq y name ≡ true
            → os.get m name ≡ none
            → (ensured y m t).0 ≡ true
            → HasChild (ensured y m t).1
        at y same missing go =
            let one : name ≡ y = ground (arith, eq_iff y name, same) in
            subst (λ z. (ensured z m t).0 ≡ true → HasChild (ensured z m t).1) one
              (λ fine_here. child_made m t creates missing fine_here) go

        step :
            HasChild m ⊎ ((os.get m name ≡ none) × (listed name (x ∷ xs) ≡ true))
            → (ensured x m t).0 ≡ true
            → HasChild (ensured x m t).1
              ⊎ ((os.get (ensured x m t).1 name ≡ none) × (listed name xs ≡ true))
        step (inl has) go = inl (child_stays x m t has)
        step (inr (missing, there)) go = elim (Bool-cases (str_eq x name)) [
          | inl same ↦ inl (at x same missing go)
          | inr other ↦ inr (not_yet x m t other missing, ground (arith, other, there))
        ]

  count_refs_pos :
      (r : BaseReaper) (base name : String) (names : List String) (m : os.Map) (t : Table k)
      (s : Session)
      → os.get m name ≡ some s
      → str_eq s.fork_base base ≡ true
      → needs_base os ob sa ba k r (session k t name) ≡ true
      → listed name names ≡ true
      → (count_refs os ob sa ba k r base m t names == 0) ≡ false
  unfolding count_refs listed
  count_refs_pos r base name [] m t s found from_base needs there = absurd (ground (arith, there))
  count_refs_pos r base name (x ∷ xs) m t s found from_base needs there =
      let rest = count_refs_pos r base name xs m t s found from_base needs in
      elim (Bool-cases (str_eq x name)) [
        | inl same ↦ first (ground (arith, eq_iff x name, same))
        | inr other ↦ elim (Option-cases (os.get m x)) [
          | inl missing ↦ rw (missing, count_refs) (rest (ground (arith, other, there)))
          | inr (c, at) ↦
              rw (at, count_refs)
                (if_case (λ n. (n == 0) ≡ false)
                  (str_eq c.fork_base base && needs_base os ob sa ba k r (session k t x)) _ _
                  (λ _. ground arith) (λ _. rest (ground (arith, other, there))))
        ]
      ]
    where
      first : x ≡ name → (count_refs os ob sa ba k r base m t (x ∷ xs) == 0) ≡ false
      first e =
          let at : os.get m x ≡ some s = subst (λ z. os.get m z ≡ some s) (sym e) found in
          let wants : needs_base os ob sa ba k r (session k t x) ≡ true =
            subst (λ z. needs_base os ob sa ba k r (session k t z) ≡ true) (sym e) needs in
          rw (at, count_refs, from_base, wants) (ground arith)

  seeded :
      (w : ForkWorld) (r : BaseReaper) (fs : ForkSet) (base : String) (b : Base)
      (names : List String) (name : String) (m : os.Map) (t : Table k)
      → listed name names ≡ true
      → session k t name ≡ none
      → let u = ensure_children os ob sa ba k w fs (some (base, b)) names (m, t) in
        u.0 ≡ true → needs_base os ob sa ba k r (session k u.2 name) ≡ true
  unfolding needs_base seed
  seeded w r fs base b names name m t there fresh fine =
      rw (session-ensure_children os ob sa ba k w fs base b names name m t fine, fresh, there) refl

  wanted :
      (r : BaseReaper) (base name : String) (m : os.Map) (t : Table k) (s : Session) (c : Base)
      → os.get m name ≡ some s
      → str_eq s.fork_base base ≡ true
      → needs_base os ob sa ba k r (session k t name) ≡ true
      → is_safe os ob sa ba k r m t base c ≡ true
  unfolding ref_count_for
  wanted r base name m t s c found from_base needs = ground (
    arith,
    count_refs_pos r base name (os.names m) m t s found from_base needs
        (os.names_complete m name s found),
  )

  -- Take a base that is there and is not being deleted. After a ForkSet has ensured its children from
  -- that base without an error, a pass of the reaper over the sessions as they are then neither deletes
  -- the base nor marks it, if one of the children had neither a Session nor an entry before, and its
  -- Session was created. The reaper can be configured in any way, and any other call may fail.
  pub reap_once-ensure_children :
      (w : ForkWorld) (r : BaseReaper) (fs : ForkSet) (base : String) (b c : Base)
      (names : List String) (name : String) (m : os.Map) (t : Table k) (bases : ob.Map)
      → sa.create name ≡ done
      → listed name names ≡ true
      → os.get m name ≡ none
      → session k t name ≡ none
      → ob.get bases base ≡ some c
      → c.deleting ≡ false
      → let u = ensure_children os ob sa ba k w fs (some (base, b)) names (m, t) in
        u.0 ≡ true
        → (d : Base) × (ob.get (reap_once os ob sa ba k r u.1 u.2 bases) base ≡ some d)
          × (d.deleting ≡ false)
  reap_once-ensure_children w r fs base b c names name m t bases creates there missing fresh at live
        fine =
      let u = ensure_children os ob sa ba k w fs (some (base, b)) names (m, t) in
      let (s, found, from_base) =
        children_made w fs base b name names m t creates (inr (missing, there)) fine in
      let needs = seeded w r fs base b names name m t there fresh fine in
      let (d, kept_at, kept_live, safe) =
        reap_once-Kept os ob sa ba k r u.1 u.2 base bases
          (c, at, live, wanted r base name u.1 u.2 s c found from_base needs) in
      (d, kept_at, kept_live)

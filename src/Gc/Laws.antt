-- ===== src/Gc/Laws.antt =====
-- What the collector never touches.
use sandboxd_teleport.Prelude.{
  ℕ, String, true, false, not, ◌&&◌, ◌||◌, ◌==◌, ◌⊎◌, ◌≡◌, ◌≢◌, refl, sym, subst, ap, ◌∙◌, inl, inr,
  Option, none, some, List, [], ◌∷◌, arith, str_eq, eq_iff, listed, if_case, Bool-cases,
  Option-cases,
}
use sandboxd_teleport.Api.{SessionEntry, is_suspended}
use sandboxd_teleport.Valkey.{Valkey}
use sandboxd_teleport.Assign.Table.{Table, session}
use sandboxd_teleport.Assign.Sessions.{delete_session, list_sessions}
use sandboxd_teleport.Assign.Sessions.Due.{Indexed}
use sandboxd_teleport.Assign.Sessions.Sweep.{Stored, load-Stored}
use sandboxd_teleport.Gc.{
  Config, Ground, CrSession, ttl_expired, is_held, is_abandoned, reap_session, sweep_entry,
  sweep_entries, sweep_dirs, is_orphan_cr, sweep_crs, sweep_orphan_crs, collect_once,
}

module _ (k : Valkey) (c : Config) (now : ℕ) where
  -- A property of what is left that the passes over directories and resources keep.
  module _ (P : Table k → Type 0) where
    dirs_keep :
        (ds kept : List String) (g : Ground k)
        → P g.table
        → P (sweep_dirs k c now ds kept g).1.table
    unfolding sweep_dirs
    dirs_keep [] kept g h = h
    dirs_keep (d ∷ ds) kept g h =
        if_case (λ (r : ℕ × Ground k). P r.1.table) (listed d kept) _ _ (λ _. dirs_keep ds kept g h)
          (λ _.
            if_case (λ (r : ℕ × Ground k). P r.1.table) c.dry_run _ _ (λ _. dirs_keep ds kept g h)
              (λ _.
                if_case (λ (r : ℕ × Ground k). P r.1.table) (c.drops d) _ _
                  (λ _. dirs_keep ds kept (record g { dropped = d ∷ g.dropped }) h)
                  (λ _. dirs_keep ds kept g h)))

    crs_keep :
        (crs : List CrSession) (g : Ground k) → P g.table → P (sweep_crs k c now crs g).1.table
    unfolding sweep_crs
    crs_keep [] g h = h
    crs_keep (cr ∷ crs) g h =
        if_case (λ (r : ℕ × Ground k). P r.1.table) (is_orphan_cr k c now cr g.table) _ _
          (λ _. crs_keep crs (record g { reaped = cr.sid ∷ g.reaped }) h) (λ _. crs_keep crs g h)

    orphan_crs_keep : (g : Ground k) → P g.table → P (sweep_orphan_crs k c now g).1.table
    unfolding sweep_orphan_crs
    orphan_crs_keep g h = elim (Option-cases c.resources) [
      | inl off ↦ rw (off, sweep_orphan_crs) h
      | inr (crs, found) ↦
          rw (found, sweep_orphan_crs)
            (if_case (λ (r : ℕ × Ground k). P r.1.table) (not c.reaper || c.grace == 0) _ _ (λ _. h)
              (λ _. crs_keep crs g h))
    ]

    -- So the sweep keeps what its pass over the sessions keeps.
    collect_keeps :
        (g : Ground k)
        → P (sweep_entries k c now (list_sessions k g.table) ([], g)).3.table
        → P (collect_once k c now g).1.table
    unfolding collect_once
    collect_keeps g h =
        let r = sweep_entries k c now (list_sessions k g.table) ([], g) in
        elim (Option-cases c.dirs) [
          | inl failed ↦ rw (failed, collect_once) h
          | inr (ds, found) ↦
              rw (found, collect_once)
                (orphan_crs_keep (sweep_dirs k c now ds r.2 r.3).1 (dirs_keep ds r.2 r.3 h))
        ]

    abbrev EntriesKeep : ℕ × ℕ × List String × Ground k → Type 0
    EntriesKeep (a, b, kept, g) = P g.table

    -- And that keeps what reaping an entry keeps, where the entry is reaped at all.
    entry_keeps :
        (e : SessionEntry) (kept : List String) (g : Ground k)
        → P g.table
        → ((is_suspended e.state ≡ true) ⊎ (is_abandoned k c now e g.table ≡ true)
            → (dir : Option String) → P (reap_session k c now e dir g).table)
        → EntriesKeep (sweep_entry k c now e (kept, g))
    unfolding sweep_entry
    entry_keeps e kept g h reaps =
        if_case EntriesKeep (is_suspended e.state && not (str_eq e.snapshot "")) _ _
          (λ asleep.
            if_case EntriesKeep (ttl_expired k c now e) _ _
              (λ _. reaps (inl (ground (arith, asleep))) (some (c.dir_of e.snapshot))) (λ _. h))
          (λ _.
            if_case EntriesKeep (not (is_suspended e.state) && is_abandoned k c now e g.table) _ _
              (λ gone. reaps (inr (ground (arith, gone))) none) (λ _. h))

  reap_dry :
      (e : SessionEntry) (dir : Option String) (g : Ground k)
      → c.dry_run ≡ true
      → (reap_session k c now e dir g).table ≡ g.table
  unfolding reap_session
  reap_dry e dir g dry = ground (arith, dry)

  entries_dry :
      (es : List SessionEntry) (kept : List String) (g : Ground k) (t : Table k)
      → c.dry_run ≡ true
      → g.table ≡ t
      → (sweep_entries k c now es (kept, g)).3.table ≡ t
  unfolding sweep_entries
  entries_dry [] kept g t dry h = h
  entries_dry (e ∷ es) kept g t dry h =
      let r = sweep_entry k c now e (kept, g) in
      entries_dry es r.2 r.3 t dry
        (entry_keeps (λ u. u ≡ t) e kept g h (λ _ dir. reap_dry e dir g dry ∙ h))

  -- In a dry run the collector leaves the assignment table as it is.
  pub collect_once_dry :
      (g : Ground k) → c.dry_run ≡ true → (collect_once k c now g).1.table ≡ g.table
  collect_once_dry g dry =
      collect_keeps (λ u. u ≡ g.table) g
        (entries_dry (list_sessions k g.table) [] g g.table dry refl)

  -- A session that is not Suspended and that its worker holds.
  module _ (t : Table k) (e : SessionEntry) (at : session k t e.sid ≡ some e)
      (awake : is_suspended e.state ≡ false) (held : is_held k c now e t ≡ true) where
    abbrev Stays : Table k → Type 0
    Stays u = (session k u e.sid ≡ some e) × (u.workers ≡ t.workers)

    not_abandoned : (u : Table k) → u.workers ≡ t.workers → is_abandoned k c now e u ≡ false
    unfolding is_abandoned is_held
    not_abandoned u same = ground (arith, held, same)

    same_some : {f : SessionEntry} → some f ≡ some e → f ≡ e
    same_some h = cc

    reap_other :
        (f : SessionEntry) (dir : Option String) (g : Ground k)
        → f.sid ≢ e.sid
        → Stays g.table
        → Stays (reap_session k c now f dir g).table
    unfolding reap_session delete_session
    reap_other f none g apart (here, same) = (
      ground (
        arith,
        here,
        apart,
        eq_iff f.sid e.sid,
        (k.strings SessionEntry).get-del g.table.sessions f.sid e.sid,
      ),
      ground (arith, same),
    )
    reap_other f (some d) g apart (here, same) = (
      ground (
        arith,
        here,
        apart,
        eq_iff f.sid e.sid,
        (k.strings SessionEntry).get-del g.table.sessions f.sid e.sid,
      ),
      ground (arith, same),
    )

    reap-Stays :
        (f : SessionEntry) (dir : Option String) (g : Ground k)
        → session k t f.sid ≡ some f
        → Stays g.table
        → (is_suspended f.state ≡ true) ⊎ (is_abandoned k c now f g.table ≡ true)
        → Stays (reap_session k c now f dir g).table
    reap-Stays f dir g stored h dead = elim (Bool-cases (str_eq f.sid e.sid)) [
      | inr apart ↦ reap_other f dir g (λ same. ground (arith, apart, same, eq_iff f.sid e.sid)) h
      | inl same ↦
          let same_sid : f.sid ≡ e.sid = ground (arith, same, eq_iff f.sid e.sid) in
          let one : f ≡ e = same_some (sym stored ∙ ap (session k t) same_sid ∙ at) in
          absurd (
            alive g h (
              subst (λ x. (is_suspended x.state ≡ true) ⊎ (is_abandoned k c now x g.table ≡ true))
                one dead))
    ]
      where
        alive :
            (g : Ground k)
            → Stays g.table
            → (is_suspended e.state ≡ true) ⊎ (is_abandoned k c now e g.table ≡ true)
            → ⊥
        alive g h (inl asleep) = ground (arith, awake, asleep)
        alive g h (inr gone) = ground (arith, not_abandoned g.table h.1, gone)

    entries_stay :
        (es : List SessionEntry) (kept : List String) (g : Ground k)
        → Stored k t es
        → Stays g.table
        → Stays (sweep_entries k c now es (kept, g)).3.table
    unfolding sweep_entries
    entries_stay [] kept g stored h = h
    entries_stay (f ∷ es) kept g (stored, more) h =
        let r = sweep_entry k c now f (kept, g) in
        entries_stay es r.2 r.3 more
          (entry_keeps Stays f kept g h (λ dead dir. reap-Stays f dir g stored h dead))

  -- The collector never removes the entry of a session that is not Suspended and that its worker
  -- holds, however old its last activity is, in a table whose entries have their keys' ids.
  pub collect_once_held :
      (g : Ground k) (e : SessionEntry)
      → Indexed k g.table
      → session k g.table e.sid ≡ some e
      → is_suspended e.state ≡ false
      → is_held k c now e g.table ≡ true
      → session k (collect_once k c now g).1.table e.sid ≡ some e
  unfolding list_sessions
  collect_once_held g e v at awake held =
      (collect_keeps (Stays g.table e at awake held) g (
        entries_stay g.table e at awake held (list_sessions k g.table) [] g
          (load-Stored k g.table ((k.strings SessionEntry).scan g.table.sessions) v) (at, refl))).0

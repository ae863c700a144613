-- ===== src/Sandboxd/Credentials/Issued.antt =====
-- What the vendor gives out.
use sandboxd_teleport.Prelude.{
  ℕ, String, true, not, ◌≡◌, ◌∙◌, sym, subst, inl, inr, Option, none, some, arith, str_eq, eq_iff,
  Option-cases, Bool-cases, if_case, if◌then◌else◌, refl,
}
use sandboxd_teleport.Sandboxd.Credentials.{
  CredSet, CredVendor, Issuer, update, new_cred_vendor, register_role, deregister_role, CredRequest,
  CredResponse, vended, unavailable, is_valid_at, ask_sts, creds_for, serve_session_creds,
  serve_creds,
}

module _ (i : Issuer) where
  -- Credentials that STS gave out for a role and a session.
  abbrev pub Issued : String → String → CredSet → Type 0
  Issued role sid cs = (past : ℕ) × (i.assume past role sid ≡ some cs)

  -- What is cached was given out for the role that is registered now.
  abbrev pub CacheSound : CredVendor → Type 0
  CacheSound v =
      (sid : String) (cs : CredSet)
      → v.cache sid ≡ some cs
      → (role : String) × (v.roles sid ≡ some role) × Issued role sid cs

  pub new_cred_vendor-CacheSound : CacheSound new_cred_vendor
  new_cred_vendor-CacheSound sid cs h = absurd (ground (arith, h))

  pub register_role-CacheSound :
      (x role : String) (v : CredVendor) → CacheSound v → CacheSound (register_role x role v)
  unfolding register_role
  register_role-CacheSound x role v sound sid cs h = elim (Bool-cases (str_eq x sid)) [
    | inl same ↦ absurd (ground (arith, same, h))
    | inr other ↦
        let (r, found, issued) = sound sid cs (ground (arith, other, h)) in
        (r, ground (arith, other, found), issued)
  ]

  pub deregister_role-CacheSound :
      (x : String) (v : CredVendor) → CacheSound v → CacheSound (deregister_role x v)
  unfolding deregister_role
  deregister_role-CacheSound x v sound sid cs h = elim (Bool-cases (str_eq x sid)) [
    | inl same ↦ absurd (ground (arith, same, h))
    | inr other ↦
        let (r, found, issued) = sound sid cs (ground (arith, other, h)) in
        (r, ground (arith, other, found), issued)
  ]

  -- The answer of credsFor, and the maps after it.
  abbrev pub Good : String → CredVendor → Option CredSet × CredVendor → Type 0
  Good sid v (answer, u) =
      CacheSound u
      × ((cs : CredSet)
          → answer ≡ some cs
          → (role : String) × (v.roles sid ≡ some role) × Issued role sid cs)

  ask_sts-Good :
      (now : ℕ) (sid role : String) (v : CredVendor)
      → v.roles sid ≡ some role
      → CacheSound v
      → Good sid v (ask_sts i now (λ u. u) sid role v)
  unfolding ask_sts
  ask_sts-Good now sid role v found sound = elim (Option-cases (i.assume now role sid)) [
    | inl refused ↦ rw (refused, ask_sts) (sound, λ cs h. absurd (ground (arith, h)))
    | inr (cs, given) ↦
        rw (given, ask_sts)
          ((λ x c h. stored cs given x c h), λ c h. (role, found, (now, given ∙ h)))
  ]
    where
      stored :
          (cs : CredSet)
          → i.assume now role sid ≡ some cs
          → (x : String) (c : CredSet) → update sid (some cs) v.cache x ≡ some c
          → (r : String) × (v.roles x ≡ some r) × Issued r x c
      stored cs given x c h = elim (Bool-cases (str_eq sid x)) [
        | inl same ↦
            let one : sid ≡ x = ground (arith, eq_iff sid x, same) in
            subst (λ y. (r : String) × (v.roles y ≡ some r) × Issued r y c) one
              (role, found, (now, given ∙ ground (arith, same, h)))
        | inr other ↦ sound x c (ground (arith, other, h))
      ]

  creds_for-cold :
      (now : ℕ) (others : CredVendor → CredVendor) (sid role : String) (v : CredVendor)
      → v.roles sid ≡ some role
      → v.cache sid ≡ none
      → creds_for i now others sid v ≡ ask_sts i now others sid role v
  unfolding creds_for
  creds_for-cold now others sid role v found cold = rw (found, cold, creds_for) refl

  creds_for-warm :
      (now : ℕ) (others : CredVendor → CredVendor) (sid role : String) (cs : CredSet)
      (v : CredVendor)
      → v.roles sid ≡ some role
      → v.cache sid ≡ some cs
      → creds_for i now others sid v
        ≡ (if is_valid_at i now cs then (some cs, v) else ask_sts i now others sid role v)
  unfolding creds_for
  creds_for-warm now others sid role cs v found warm = rw (found, warm, creds_for) refl

  creds_for-Good :
      (now : ℕ) (sid : String) (v : CredVendor)
      → CacheSound v
      → Good sid v (creds_for i now (λ u. u) sid v)
  unfolding creds_for
  creds_for-Good now sid v sound = elim (Option-cases (v.roles sid)) [
    | inl nobody ↦ rw (nobody, creds_for) (sound, λ cs h. absurd (ground (arith, h)))
    | inr (role, found) ↦ elim (Option-cases (v.cache sid)) [
      | inl cold ↦
          subst (λ r. Good sid v r) (sym (creds_for-cold now (λ u. u) sid role v found cold))
            (ask_sts-Good now sid role v found sound)
      | inr (cs, warm) ↦
          subst (λ r. Good sid v r) (sym (creds_for-warm now (λ u. u) sid role cs v found warm))
            (if_case (λ r. Good sid v r) (is_valid_at i now cs) _ _
              (λ _. (sound, λ c h. sound sid c (warm ∙ h)))
              (λ _. ask_sts-Good now sid role v found sound))
    ]
  ]

  abbrev pub Vended : CredRequest → CredVendor → CredResponse × CredVendor → Type 0
  Vended r v (answer, u) =
      CacheSound u
      × ((cs : CredSet)
          → answer ≡ vended cs
          → (sid : String) × (role : String) × (r.sid ≡ some sid)
            × (str_eq r.authorization (i.session_token sid) ≡ true)
            × (v.roles sid ≡ some role)
            × Issued role sid cs)

  answer-Vended :
      (r : CredRequest) (v u : CredVendor) (sid : String) (answer : Option CredSet)
      → r.sid ≡ some sid
      → str_eq r.authorization (i.session_token sid) ≡ true
      → Good sid v (answer, u)
      → Vended r v (elim answer [ none ↦ unavailable | some cs ↦ vended cs ], u)
  answer-Vended r v u sid none named token good = (good.0, λ cs h. absurd (ground (arith, h)))
  answer-Vended r v u sid (some c) named token good = (
    good.0,
    λ cs h.
        let (role, found, issued) = good.1 cs (ground (arith, h)) in
        (sid, role, named, token, found, issued),
  )

  served :
      (now : ℕ) (r : CredRequest) (sid : String) (v : CredVendor)
      → r.sid ≡ some sid
      → serve_creds i now (λ u. u) r v ≡ serve_session_creds i now (λ u. u) sid r.authorization v
  unfolding serve_creds
  served now r sid v named = rw (named, serve_creds) refl

  session-Vended :
      (now : ℕ) (r : CredRequest) (sid : String) (v : CredVendor)
      → r.sid ≡ some sid
      → CacheSound v
      → Vended r v (serve_session_creds i now (λ u. u) sid r.authorization v)
  unfolding serve_session_creds
  session-Vended now r sid v named sound =
      if_case (λ q. Vended r v q) (str_eq sid "") _ _
        (λ _. (sound, λ cs h. absurd (ground (arith, h))))
        (λ _.
          if_case (λ q. Vended r v q) (not (str_eq r.authorization (i.session_token sid))) _ _
            (λ _. (sound, λ cs h. absurd (ground (arith, h))))
            (λ token.
              answer-Vended r v _ sid _ named (ground (arith, token))
                (creds_for-Good now sid v sound)))

  -- While nothing changes the maps during the call of STS, credentials are vended only to a request
  -- that carries the token of its session, for a session that has a role, and they were given out by
  -- STS for this session and the role that it has now. The cache keeps this property.
  pub serve_creds-Issued :
      (now : ℕ) (r : CredRequest) (v : CredVendor)
      → CacheSound v
      → CacheSound (serve_creds i now (λ u. u) r v).1
        × ((cs : CredSet)
            → (serve_creds i now (λ u. u) r v).0 ≡ vended cs
            → (sid : String) × (role : String) × (r.sid ≡ some sid)
              × (str_eq r.authorization (i.session_token sid) ≡ true)
              × (v.roles sid ≡ some role)
              × Issued role sid cs)
  unfolding serve_creds
  serve_creds-Issued now r v sound = elim (Option-cases r.sid) [
    | inl elsewhere ↦ rw (elsewhere, serve_creds) (sound, λ cs h. absurd (ground (arith, h)))
    | inr (sid, named) ↦
        subst (λ q. Vended r v q) (sym (served now r sid v named))
          (session-Vended now r sid v named sound)
  ]

  ask_given :
      (now : ℕ) (others : CredVendor → CredVendor) (sid role : String) (cs : CredSet)
      (v : CredVendor)
      → i.assume now role sid ≡ some cs
      → ask_sts i now others sid role v
        ≡ (some cs, record (others v) { cache = update sid (some cs) (others v).cache })
  unfolding ask_sts
  ask_given now others sid role cs v given = rw (given, ask_sts) refl

  -- If a session is registered with another role while STS is asked for the old one, the credentials
  -- of the old role are cached under the new role, and a later request of the session is given them as
  -- long as they are valid.
  pub creds_for_stale :
      (now later : ℕ) (sid old new : String) (cs : CredSet) (v : CredVendor)
      → v.roles sid ≡ some old
      → v.cache sid ≡ none
      → i.assume now old sid ≡ some cs
      → is_valid_at i later cs ≡ true
      → let u = (creds_for i now (register_role sid new) sid v).1 in
        (u.roles sid ≡ some new)
        × ((others : CredVendor → CredVendor) → (creds_for i later others sid u).0 ≡ some cs)
  unfolding creds_for ask_sts register_role
  creds_for_stale now later sid old new cs v had cold given valid =
      let w = record (register_role sid new v) {
        cache = update sid (some cs) (register_role sid new v).cache;
      } in
      let first =
        creds_for-cold now (register_role sid new) sid old v had cold
        ∙ ask_given now (register_role sid new) sid old cs v given in
      let renamed : w.roles sid ≡ some new = ground (arith, eq_iff sid sid) in
      let cached : w.cache sid ≡ some cs = ground (arith, eq_iff sid sid) in
      subst
        (λ (r : Option CredSet × CredVendor).
          (r.1.roles sid ≡ some new)
          × ((others : CredVendor → CredVendor) → (creds_for i later others sid r.1).0 ≡ some cs))
        (sym first)
        (
          renamed,
          λ others. rw (creds_for-warm later others sid new cs w renamed cached, valid) refl,
        )

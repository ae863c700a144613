-- ===== src/Router/Laws.antt =====
-- Where the router sends a request.
use sandboxd_teleport.Prelude.{
  ℕ, String, true, false, not, ◌&&◌, ◌⊎◌, ◌≡◌, refl, inl, inr, none, some, arith, str_eq, if_case,
  ok, Error, no_capacity, worker_failed, Result-cases, Option-cases, Bool-cases,
}
use sandboxd_teleport.Api.{SessionEntry, host_port}
use sandboxd_teleport.Valkey.{Valkey}
use sandboxd_teleport.Assign.Table.{Table, session}
use sandboxd_teleport.Resume.Workflow.{is_live}
use sandboxd_teleport.Router.{
  Router, Request, Response, unauthenticated, no_content, unavailable, bad_gateway, proxied,
  proxy_to, target_port, ensure_running, refuse, handle_warm, serve_resumed, serve_live, is_fast,
  worker_live, serve_session, serve, stamp, buffers,
}

module _ (k : Valkey) (rt : Router k) where
  -- The router's fence is that of the operator's fast path.
  fast-is_live :
      (sid : String) (e : SessionEntry) (t : Table k)
      → is_fast k rt sid e t ≡ true
      → is_live k sid t e ≡ true
  unfolding is_fast worker_live is_live
  fast-is_live sid e t h = ground (arith, h)

  module _ (sid : String) (t : Table k) where
    -- The session was live there, or the operator answered with the address.
    abbrev pub Known : String → Type 0
    Known ip =
        ((e : SessionEntry) × (session k t sid ≡ some e)
          × (is_live k sid t e ≡ true)
          × (e.worker_ip ≡ ip))
        ⊎ ((u : Table k) × ((rt.resumer sid u).0 ≡ ok ip) × (str_eq ip "" ≡ false))

    abbrev pub Sent : Response × Table k → Type 0
    Sent (proxied ip port, u) = Known ip
    Sent (unauthenticated, u) = Unit
    Sent (no_content, u) = Unit
    Sent (unavailable, u) = Unit
    Sent (bad_gateway, u) = Unit

    proxy_to-Sent :
        (ip : String) (port : ℕ) (u : Table k) → Known ip → Sent (proxy_to k rt ip port, u)
    unfolding proxy_to
    proxy_to-Sent ip port u known =
        if_case (λ r. Sent (r, u)) (rt.reaches ip (target_port k rt port)) _ _ (λ _. known)
          (λ _. tt)

    refuse-Sent : (x : Error) (u : Table k) → Sent (refuse k rt x, u)
    unfolding refuse
    refuse-Sent no_capacity u = tt
    refuse-Sent _ u = tt

    serve_resumed-Sent : (u : Table k) → Sent (serve_resumed k rt sid u)
    unfolding serve_resumed ensure_running proxy_to stamp
    serve_resumed-Sent u = elim (Result-cases (rt.resumer sid u).0) [
      | inr (x, failed) ↦ rw (failed, serve_resumed) (refuse-Sent x _)
      | inl (ip, found) ↦ elim (Bool-cases (str_eq ip "")) [
        | inl empty ↦ rw (found, serve_resumed) (rw empty (refuse-Sent worker_failed _))
        | inr there ↦
            rw (found, serve_resumed)
              (rw there (
                proxy_to-Sent ip
                  (elim (session k (rt.resumer sid u).1 sid) [
                    | none ↦ rt.worker_port
                    | some e ↦ host_port e
                  ])
                  (stamp k rt sid (stamp k rt sid (ensure_running k rt sid u).1))
                  (inr (u, found, there))))
      ]
    ]

    handle_warm-Sent : Sent (handle_warm k rt sid t)
    unfolding handle_warm
    handle_warm-Sent = elim (Result-cases (ensure_running k rt sid t).0) [
      | inr (x, failed) ↦ rw (failed, handle_warm) (refuse-Sent x _)
      | inl ((ip, port), found) ↦ rw (found, handle_warm) tt
    ]

    same_answer : (r : Response × Table k) (u : Table k) → Sent r → Sent (r.0, u)
    same_answer (proxied ip port, x) u h = h
    same_answer (unauthenticated, x) u h = tt
    same_answer (no_content, x) u h = tt
    same_answer (unavailable, x) u h = tt
    same_answer (bad_gateway, x) u h = tt

    serve_live-Sent :
        (q : Request) (e : SessionEntry)
        → session k t sid ≡ some e
        → is_fast k rt sid e t ≡ true
        → Sent (serve_live k rt q sid e t)
    unfolding serve_live
    serve_live-Sent q e at fast =
        if_case Sent (buffers q && not (rt.reaches e.worker_ip (target_port k rt (host_port e)))) _
          _
          (λ _.
            same_answer (serve_resumed k rt sid (stamp k rt sid t)) _
              (serve_resumed-Sent (stamp k rt sid t)))
          (λ _.
            proxy_to-Sent e.worker_ip (host_port e) _
              (inl (e, at, fast-is_live sid e t fast, refl)))

    serve_session-Sent : (q : Request) → Sent (serve_session k rt q sid t)
    unfolding serve_session
    serve_session-Sent q = elim (Option-cases (session k t sid)) [
      | inl gone ↦ rw (gone, serve_session) (serve_resumed-Sent t)
      | inr (e, found) ↦
          rw (found, serve_session)
            (if_case Sent (is_fast k rt sid e t) _ _ (λ fast. serve_live-Sent q e found fast)
              (λ _. serve_resumed-Sent t))
    ]

  -- Where a request of a session is answered by a worker, the session was live at that worker's
  -- address, by the same fence as the operator's, or the operator answered a resume of it with that
  -- address, which is not empty.
  pub serve-Sent :
      (q : Request) (sid : String) (t : Table k) → q.sid ≡ some sid → Sent sid t (serve k rt q t)
  unfolding serve
  serve-Sent q sid t named =
      rw (named, serve)
        (if_case (Sent sid t) q.warm _ _ (λ _. handle_warm-Sent sid t)
          (λ _. serve_session-Sent sid t q))

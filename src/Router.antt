-- ===== src/Router.antt =====
-- checkpoint-restore/controlplane/internal/router/router.go: the data-plane proxy. The call of the
-- operator and the workers' connections are arguments.
pub mod Laws
use sandboxd_teleport.Prelude.{
  ℕ, String, Bool, true, false, not, ◌&&◌, ◌||◌, Option, none, some, str_eq, ltb, ◌==◌,
  if◌then◌else◌, no_capacity, worker_failed, Error, Result, ok, err,
}
use sandboxd_teleport.Api.{SessionEntry, is_running, host_port, worker_holds}
use sandboxd_teleport.Valkey.{Valkey}
use sandboxd_teleport.Assign.Table.{Table, session, worker}
use sandboxd_teleport.Assign.Sessions.{stamp_active}

-- How a request is answered: 401, 204, 503, 502, or the worker's answer from an address and a port.
pub data Response : Type 0 where
  unauthenticated no_content unavailable bad_gateway : Response
  proxied : String → ℕ → Response

-- A request: the session that Resolve names, whether its path is /_warm, the ContentLength (`none`
-- when it is unknown), and how many bytes of the body could be read (`none` for an error).
pub record Request : Type 0 where
  pub sid : Option String
  pub warm : Bool
  pub length : Option ℕ
  pub read : Option ℕ

abbrev pub max_buffer_body : ℕ
max_buffer_body = 1048576

-- bufferBody: whether the request can be sent a second time.
unfoldable pub buffers : Request → Bool
buffers r = elim r.length [
  | none ↦ false
  | some n ↦
      if n == 0
      then true
      else if ltb max_buffer_body n
      then false
      else elim r.read [ none ↦ false | some m ↦ not (ltb max_buffer_body m) ]
]

-- The router: the worker port, the clock, the operator, and whether a worker's first byte comes.
pub record Router (k : Valkey) : Type 0 where
  pub worker_port : ℕ
  pub now : ℕ
  pub resumer : String → Table k → Result String × Table k
  pub reaches : String → ℕ → Bool

module _ (k : Valkey) (rt : Router k) where
  unfoldable pub worker_live : String → String → Table k → Bool
  worker_live pod sid t = if str_eq pod "" then false else worker_holds (worker k t pod) sid

  unfoldable pub stamp : String → Table k → Table k
  stamp sid t = stamp_active k sid rt.now t

  unfoldable pub target_port : ℕ → ℕ
  target_port port = if port == 0 then rt.worker_port else port

  unfoldable pub proxy_to : String → ℕ → Response
  unfolding target_port
  proxy_to ip port =
      if rt.reaches ip (target_port port) then proxied ip (target_port port) else bad_gateway

  -- ensureRunning: the address, and the port of the entry as it is then.
  unfoldable pub ensure_running : String → Table k → Result (String × ℕ) × Table k
  ensure_running sid t =
      let (r, u) = rt.resumer sid t in
      elim r [
        | err x ↦ (err x, u)
        | ok ip ↦ if str_eq ip "" then (err worker_failed, u) else (
          ok (ip, elim (session k u sid) [ none ↦ rt.worker_port | some e ↦ host_port e ]),
          u,
        )
      ]

  unfoldable pub refuse : Error → Response
  refuse no_capacity = unavailable
  refuse _ = bad_gateway

  unfoldable pub handle_warm : String → Table k → Response × Table k
  unfolding ensure_running stamp
  handle_warm sid t =
      let (r, u) = ensure_running sid t in
      elim r [ ok (ip, port) ↦ (no_content, stamp sid u) | err x ↦ (refuse x, u) ]

  -- The slow path: resume, then proxy, with a stamp on both sides.
  unfoldable pub serve_resumed : String → Table k → Response × Table k
  unfolding ensure_running proxy_to stamp
  serve_resumed sid t =
      let (r, u) = ensure_running sid t in
      elim r [ ok (ip, port) ↦ (proxy_to ip port, stamp sid (stamp sid u)) | err x ↦ (refuse x, u) ]

  -- The fast path: a request that can be sent again is resumed when its worker gives no byte. The
  -- last stamp is deferred.
  unfoldable pub serve_live : Request → String → SessionEntry → Table k → Response × Table k
  unfolding proxy_to stamp buffers target_port serve_resumed
  serve_live q sid e t =
      let port = host_port e in
      if buffers q && not (rt.reaches e.worker_ip (target_port port))
      then (let (r, u) = serve_resumed sid (stamp sid t) in (r, stamp sid u))
      else (proxy_to e.worker_ip port, stamp sid (stamp sid t))

  unfoldable pub is_fast : String → SessionEntry → Table k → Bool
  unfolding worker_live
  is_fast sid e t =
      is_running e.state && not (str_eq e.worker_ip "") && worker_live e.worker_pod sid t

  unfoldable pub serve_session : Request → String → Table k → Response × Table k
  unfolding is_fast serve_live serve_resumed
  serve_session q sid t = elim (session k t sid) [
    | none ↦ serve_resumed sid t
    | some e ↦ if is_fast sid e t then serve_live q sid e t else serve_resumed sid t
  ]

  unfoldable pub serve : Request → Table k → Response × Table k
  unfolding handle_warm serve_session
  serve q t = elim q.sid [
    | none ↦ (unauthenticated, t)
    | some sid ↦ if q.warm then handle_warm sid t else serve_session q sid t
  ]

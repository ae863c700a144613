-- ===== src/Sandboxd/Memory.antt =====
-- memlimit.go: the memory limit of a sandbox. Numbers of type int64 are natural here: a product wraps
-- to 64 bits, and one that turns negative is below every floor. strconv.ParseInt and
-- strings.TrimSpace are parameters; a parsed number is its sign and its magnitude.
use sandboxd_teleport.Prelude.{
  ℕ, String, Bool, true, false, ◌+◌, ◌-◌, ◌*◌, ◌/◌, ◌%◌, ◌≤◌, ◌<◌, ◌&&◌, ◌||◌, ◌≡◌, ◌⊎◌, Option,
  none, some, arith, str_eq, ltb, ◌==◌, if◌then◌else◌,
}

-- memReserveConfig.
pub record MemReserveConfig : Type 0 where
  pub floor_bytes : ℕ
  pub pct : ℕ

abbrev pub sandbox_mem_floor : ℕ
sandbox_mem_floor = 134217728

abbrev pub default_config : MemReserveConfig
default_config = record { floor_bytes = 268435456; pct = 12 }

-- What the environment and the parser give.
pub record Environment : Type 0 where
  pub var : String → String
  pub trim : String → String
  pub parse_int : String → Option (Bool × ℕ)

abbrev pub natural : Option (Bool × ℕ) → Option ℕ
natural none = none
natural (some (true, n)) = if n == 0 then some 0 else none
natural (some (false, n)) = some n

module _ (env : Environment) where
  -- loadMemReserveConfig.
  unfoldable pub load_mem_reserve_config : MemReserveConfig
  load_mem_reserve_config =
      let bytes = env.var "SANDBOXD_AGENT_MEMORY_RESERVE" in
      let pct = env.var "SANDBOXD_AGENT_MEMORY_RESERVE_PCT" in
      record {
        floor_bytes =
            (if str_eq bytes ""
              then default_config.floor_bytes
              else elim (natural (env.parse_int bytes)) [
                | none ↦ default_config.floor_bytes
                | some n ↦ n
              ]);
        pct =
            (if str_eq pct "" then default_config.pct else elim (natural (env.parse_int pct)) [
              | none ↦ default_config.pct
              | some n ↦ if ltb n 100 then n else default_config.pct
            ]);
      }

  -- parseMemLimitEnv; `none` for no limit.
  unfoldable pub parse_mem_limit_env : String → Option ℕ
  parse_mem_limit_env s =
      if str_eq (env.trim s) "" then none else elim (natural (env.parse_int (env.trim s))) [
        | none ↦ none
        | some n ↦ if n == 0 then none else some n
      ]

-- disabled.
abbrev pub is_disabled : MemReserveConfig → Bool
is_disabled c = c.floor_bytes == 0 && c.pct == 0

-- podLimit*c.pct/100 on int64, where it is not negative.
unfoldable pub pct_reserve : ℕ → ℕ → ℕ
pct_reserve pod_limit pct =
    let product = (pod_limit * pct) % 18446744073709551616 in
    if ltb product 9223372036854775808 then product / 100 else 0

-- sandboxMemLimit; 0 is no limit.
unfoldable pub sandbox_mem_limit : Option ℕ → MemReserveConfig → ℕ
unfolding pct_reserve
sandbox_mem_limit none c = 0
sandbox_mem_limit (some pod_limit) c =
    let part = pct_reserve pod_limit c.pct in
    let reserve = if ltb c.floor_bytes part then part else c.floor_bytes in
    if pod_limit == 0 || is_disabled c
    then 0
    else if ltb (pod_limit - reserve) sandbox_mem_floor
    then 0
    else pod_limit - reserve

-- computeSandboxMemLimit.
unfoldable pub compute_sandbox_mem_limit : Environment → MemReserveConfig → ℕ
unfolding parse_mem_limit_env sandbox_mem_limit
compute_sandbox_mem_limit env c =
    if is_disabled c
    then 0
    else sandbox_mem_limit (parse_mem_limit_env env (env.var "SANDBOXD_POD_MEM_LIMIT")) c

-- The memory limit of a sandbox is either absent or between 128Mi and what the pod's limit leaves
-- after the reserve in bytes. Where the pod's limit times the percentage stays below 2 ^ 63, it also
-- leaves the percentage of the pod's limit.
pub sandbox_mem_limit_bounds :
    (pod_limit : ℕ) (c : MemReserveConfig)
    → let limit = sandbox_mem_limit (some pod_limit) c in
      (limit ≡ 0)
      ⊎ ((134217728 ≤ limit)
          × (limit + c.floor_bytes ≤ pod_limit)
          × (pod_limit * c.pct < 9223372036854775808
              → limit + (pod_limit * c.pct) / 100 ≤ pod_limit))
unfolding sandbox_mem_limit pct_reserve
sandbox_mem_limit_bounds pod_limit c = ground arith

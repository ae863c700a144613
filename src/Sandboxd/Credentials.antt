-- ===== src/Sandboxd/Credentials.antt =====
-- credvendor.go: the vendor of temporary AWS credentials for the sessions of a worker. STS and the
-- HMAC of a session are parameters; times are seconds.
pub mod Issued
use Prim.Native.Char.{Char, code}
use Prim.Native.String.{◌++◌}
use text.Mathlib.Text.{starts_with}
use sandboxd_teleport.Prelude.{
  ℕ, zero, suc, String, Bool, true, false, ◌+◌, ◌≤◌, ◌<◌, not, ◌&&◌, ◌||◌, ◌≡◌, ◌∙◌, sym, subst,
  refl, inl, inr, Option, none, some, List, [], ◌∷◌, arith, str_eq, eq_iff, ltb, leb, ◌==◌,
  Option-cases, Bool-cases, if_case, if◌then◌else◌,
}

-- credSet.
pub record CredSet : Type 0 where
  pub access_key_id : String
  pub secret_access_key : String
  pub token : String
  pub expiration : ℕ

-- credVendor's maps.
pub record CredVendor : Type 0 where
  pub roles : String → Option String
  pub cache : String → Option CredSet

-- The rest of credVendor: the refresh skew, AssumeRole at a time (`none` for an error), sessionToken.
pub record Issuer : Type 0 where
  pub skew : ℕ
  pub assume : ℕ → String → String → Option CredSet
  pub session_token : String → String

abbrev pub update : {A : Type 0} → String → Option A → (String → Option A) → String → Option A
update x o f y = if str_eq x y then o else f y

-- newCredVendor.
abbrev pub new_cred_vendor : CredVendor
new_cred_vendor = record { roles = λ sid. none; cache = λ sid. none }

-- register and deregister.
unfoldable pub register_role : String → String → CredVendor → CredVendor
register_role sid role v = record {
  roles = update sid (some role) v.roles;
  cache = update sid none v.cache;
}

unfoldable pub deregister_role : String → CredVendor → CredVendor
deregister_role sid v = record { roles = update sid none v.roles; cache = update sid none v.cache }

-- A request: its path after /creds/ (`none` for another path), and its Authorization header.
pub record CredRequest : Type 0 where
  pub sid : Option String
  pub authorization : String

-- 404, 403, 500 or 200.
pub data CredResponse : Type 0 where
  not_here forbidden unavailable : CredResponse
  vended : CredSet → CredResponse

module _ (i : Issuer) where
  unfoldable pub is_valid_at : ℕ → CredSet → Bool
  is_valid_at now cs = ltb (now + i.skew) cs.expiration

  -- The call of STS. The lock is not held then: `others` is what happens to the maps meanwhile.
  unfoldable pub ask_sts :
      ℕ → (CredVendor → CredVendor) → String → String → CredVendor → Option CredSet × CredVendor
  ask_sts now others sid role v = elim (i.assume now role sid) [
    | none ↦ (none, others v)
    | some cs ↦ (some cs, record (others v) { cache = update sid (some cs) (others v).cache })
  ]

  -- credsFor.
  unfoldable pub creds_for :
      ℕ → (CredVendor → CredVendor) → String → CredVendor → Option CredSet × CredVendor
  unfolding is_valid_at ask_sts
  creds_for now others sid v = elim (v.roles sid) [
    | none ↦ (none, v)
    | some role ↦ elim (v.cache sid) [
      | none ↦ ask_sts now others sid role v
      | some cs ↦ if is_valid_at now cs then (some cs, v) else ask_sts now others sid role v
    ]
  ]

  -- ServeHTTP of a session's path.
  unfoldable pub serve_session_creds :
      ℕ → (CredVendor → CredVendor) → String → String → CredVendor → CredResponse × CredVendor
  unfolding creds_for
  serve_session_creds now others sid authorization v =
      if str_eq sid ""
      then (not_here, v)
      else if not (str_eq authorization (i.session_token sid))
      then (forbidden, v)
      else (let (answer, u) = creds_for now others sid v in
          (elim answer [ none ↦ unavailable | some cs ↦ vended cs ], u))

  -- ServeHTTP.
  unfoldable pub serve_creds :
      ℕ → (CredVendor → CredVendor) → CredRequest → CredVendor → CredResponse × CredVendor
  unfolding serve_session_creds
  serve_creds now others r v = elim r.sid [
    | none ↦ (not_here, v)
    | some sid ↦ serve_session_creds now others sid r.authorization v
  ]

  -- awsEnvForSession, with the text of the port.
  unfoldable pub aws_env_for_session : String → String → String → String → List String
  aws_env_for_session sid host port region =
      ("AWS_CONTAINER_CREDENTIALS_FULL_URI=http://" ++ host ++ ":" ++ port ++ "/creds/" ++ sid)
      ∷ ("AWS_CONTAINER_AUTHORIZATION_TOKEN=" ++ i.session_token sid)
      ∷ (if str_eq region "" then [] else ("AWS_REGION=" ++ region) ∷ [])

-- ===== src/Valkey.antt =====
-- Valkey, as a parameter. The assignment table of
-- checkpoint-restore/controlplane/internal/assign/assign.go is kept in a Valkey server, whose commands
-- are no code of this repository: these records name the commands that the scripts and the client
-- send, and the documented behaviour that the code relies on. `Valkey/Memory` is one way to meet them.
pub mod Memory
use sandboxd_teleport.Prelude.{
  ℕ, String, Bool, true, false, ◌&&◌, ◌≡◌, Option, none, some, List, str_eq, leb, if◌then◌else◌,
  listed, Distinct, length,
}

-- Keys that hold one value each: GET, SET, DEL, and SCAN with MGET.
pub record Strings (V : Type 0) : Type 1 where
  pub Map : Type 0
  pub get : Map → String → Option V
  pub set : Map → String → V → Map
  pub del : Map → String → Map
  pub scan : Map → List String
  pub get-set :
      (m : Map) (k j : String) (v : V)
      → get (set m k v) j ≡ (if str_eq k j then some v else get m j)
  pub get-del : (m : Map) (k j : String) → get (del m k) j ≡ (if str_eq k j then none else get m j)
  pub scan_complete : (m : Map) (k : String) (v : V) → get m k ≡ some v → listed k (scan m) ≡ true

-- Keys that hold a set each: SADD, SREM, SPOP, SMEMBERS, SCARD.
pub record Sets : Type 1 where
  pub Map : Type 0
  pub has : Map → String → String → Bool
  pub sadd : Map → String → String → Map
  pub srem : Map → String → String → Map
  pub spop : Map → String → Option (String × Map)
  pub smembers : Map → String → List String
  pub scard : Map → String → ℕ
  pub has-sadd :
      (m : Map) (k x j y : String)
      → has (sadd m k x) j y ≡ (if str_eq k j && str_eq x y then true else has m j y)
  pub has-srem :
      (m : Map) (k x j y : String)
      → has (srem m k x) j y ≡ (if str_eq k j && str_eq x y then false else has m j y)
  pub spop-none : (m : Map) (k y : String) → spop m k ≡ none → has m k y ≡ false
  pub spop-some :
      (m : Map) (k x : String) (n : Map)
      → spop m k ≡ some (x, n)
      → (has m k x ≡ true) × (n ≡ srem m k x)
  pub smembers-has : (m : Map) (k y : String) → listed y (smembers m k) ≡ has m k y
  pub smembers-Distinct : (m : Map) (k : String) → Distinct (smembers m k)
  pub scard-smembers : (m : Map) (k : String) → scard m k ≡ length (smembers m k)

-- Whether a member is due: it has a score, and that is no later than `now`.
abbrev pub due : ℕ → Option ℕ → Bool
due now none = false
due now (some t) = leb t now

-- One sorted set: ZADD, ZREM, ZRANGE BYSCORE from -inf.
pub record SortedSet : Type 1 where
  pub Map : Type 0
  pub score : Map → String → Option ℕ
  pub zadd : Map → String → ℕ → Map
  pub zrem : Map → String → Map
  pub range : Map → ℕ → List String
  pub score-zadd :
      (m : Map) (x y : String) (t : ℕ)
      → score (zadd m x t) y ≡ (if str_eq x y then some t else score m y)
  pub score-zrem :
      (m : Map) (x y : String) → score (zrem m x) y ≡ (if str_eq x y then none else score m y)
  pub range-due : (m : Map) (now : ℕ) (x : String) → listed x (range m now) ≡ due now (score m x)

pub record Valkey : Type 1 where
  pub strings : (V : Type 0) → Strings V
  pub sets : Sets
  pub zset : SortedSet

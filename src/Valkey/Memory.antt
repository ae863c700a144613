-- ===== src/Valkey/Memory.antt =====
-- A server that keeps its keys in memory, as association lists: an instance of the commands'
-- behaviour, on which the tests run.
use sandboxd_teleport.Prelude.{
  ℕ, String, Bool, true, false, not, ◌&&◌, ◌≡◌, refl, sym, Option, none, some, List, [], ◌∷◌, arith,
  str_eq, eq_iff, if◌then◌else◌, listed, select, without, listed-select, select-Distinct, Distinct,
  length,
}
use sandboxd_teleport.Valkey.{Valkey, due}

module _ {V : Type 0} where
  unfoldable pub find : List (String × V) → String → Option V
  find [] k = none
  find ((j, v) ∷ m) k = if str_eq j k then some v else find m k

  unfoldable pub delete : List (String × V) → String → List (String × V)
  delete [] k = []
  delete ((j, v) ∷ m) k = if str_eq j k then delete m k else (j, v) ∷ delete m k

  unfoldable pub put : List (String × V) → String → V → List (String × V)
  put m k v = (k, v) ∷ delete m k

  unfoldable pub keys : List (String × V) → List String
  keys [] = []
  keys ((k, v) ∷ m) = k ∷ keys m

  pub find-delete :
      (m : List (String × V)) (k j : String)
      → find (delete m k) j ≡ (if str_eq k j then none else find m j)
  unfolding find delete
  find-delete [] k j = ground arith
  find-delete ((i, v) ∷ m) k j =
      ground (arith, eq_iff i k, eq_iff i j, eq_iff k j, find-delete m k j)

  pub find-put :
      (m : List (String × V)) (k j : String) (v : V)
      → find (put m k v) j ≡ (if str_eq k j then some v else find m j)
  unfolding find put
  find-put m k j v = ground (arith, find-delete m k j)

  pub keys_complete :
      (m : List (String × V)) (k : String) (v : V) → find m k ≡ some v → listed k (keys m) ≡ true
  unfolding find keys listed
  keys_complete [] k v h = cc
  keys_complete ((j, w) ∷ m) k v h = ground (arith, keys_complete m k v)

-- The keys whose value passes the test.
due_keys : ℕ → List (String × ℕ) → List String
due_keys now m = select (λ k. due now (find m k)) (keys m)

none_of_unlisted :
    (m : List (String × ℕ)) (k : String) → listed k (keys m) ≡ false → find m k ≡ none
unfolding find keys listed
none_of_unlisted [] k h = refl
none_of_unlisted ((j, w) ∷ m) k h = ground (arith, none_of_unlisted m k)

listed-due_keys :
    (m : List (String × ℕ)) (now : ℕ) (k : String) → listed k (due_keys now m) ≡ due now (find m k)
unfolding due_keys
listed-due_keys m now k =
    ground (arith, listed-select (λ k. due now (find m k)) k (keys m), none_of_unlisted m k)

-- The members of a set key, each once.
members : List (String × String) → String → List String
members [] k = []
members ((j, x) ∷ m) k = if str_eq j k then x ∷ without x (members m k) else members m k

has : List (String × String) → String → String → Bool
has [] k x = false
has ((j, y) ∷ m) k x = if str_eq j k && str_eq y x then true else has m k x

remove : List (String × String) → String → String → List (String × String)
remove [] k x = []
remove ((j, y) ∷ m) k x = if str_eq j k && str_eq y x then remove m k x else (j, y) ∷ remove m k x

has-remove :
    (m : List (String × String)) (k x j y : String)
    → has (remove m k x) j y ≡ (if str_eq k j && str_eq x y then false else has m j y)
unfolding remove has
has-remove [] k x j y = ground arith
has-remove ((i, z) ∷ m) k x j y = ground (
  arith,
  eq_iff i k,
  eq_iff z x,
  eq_iff k j,
  eq_iff x y,
  eq_iff i j,
  eq_iff z y,
  has-remove m k x j y,
)

listed-members : (m : List (String × String)) (k y : String) → listed y (members m k) ≡ has m k y
unfolding has members listed
listed-members [] k y = refl
listed-members ((j, x) ∷ m) k y = ground (
  arith,
  eq_iff x y,
  eq_iff y x,
  listed-select (λ z. not (str_eq z x)) y (members m k),
  listed-members m k y,
)

members-Distinct : (m : List (String × String)) (k : String) → Distinct (members m k)
unfolding members
members-Distinct [] k = tt
members-Distinct ((j, x) ∷ m) k = ground (
  arith,
  members-Distinct m k,
  select-Distinct (λ z. not (str_eq z x)) (members m k),
  listed-select (λ z. not (str_eq z x)) x (members m k),
  eq_iff x x,
)

pop : List (String × String) → String → List String → Option (String × List (String × String))
pop m k [] = none
pop m k (x ∷ xs) = some (x, remove m k x)

pop-none :
    (m : List (String × String)) (k y : String) (xs : List String)
    → listed y xs ≡ has m k y
    → pop m k xs ≡ none
    → has m k y ≡ false
unfolding pop listed
pop-none m k y [] e h = sym e
pop-none m k y (x ∷ xs) e h = cc

pop-some :
    (m : List (String × String)) (k x : String) (n : List (String × String)) (xs : List String)
    → listed x xs ≡ has m k x
    → pop m k xs ≡ some (x, n)
    → (has m k x ≡ true) × (n ≡ remove m k x)
unfolding pop listed
pop-some m k x n [] e h = cc
pop-some m k x n (z ∷ xs) e h = ground (arith, eq_iff z x)

unfoldable pub memory : Valkey
unfolding find delete put keys due_keys members has remove pop find-put find-delete keys_complete
    has-remove pop-none pop-some listed-members members-Distinct listed-due_keys none_of_unlisted
memory = record {
  strings = λ V. record {
    Map = List (String × V);
    get = find;
    set = put;
    del = delete;
    scan = keys;
    get-set = find-put;
    get-del = find-delete;
    scan_complete = keys_complete;
  };
  sets = record {
    Map = List (String × String);
    has = has;
    sadd = λ m k x. (k, x) ∷ m;
    srem = remove;
    spop = λ m k. pop m k (members m k);
    smembers = members;
    scard = λ m k. length (members m k);
    has-sadd = λ m k x j y. refl;
    has-srem = has-remove;
    spop-none = λ m k y. pop-none m k y (members m k) (listed-members m k y);
    spop-some = λ m k x n. pop-some m k x n (members m k) (listed-members m k x);
    smembers-has = listed-members;
    smembers-Distinct = members-Distinct;
    scard-smembers = λ m k. refl;
  };
  zset = record {
    Map = List (String × ℕ);
    score = find;
    zadd = put;
    zrem = delete;
    range = λ m now. due_keys now m;
    score-zadd = λ m x y t. find-put m x y t;
    score-zrem = find-delete;
    range-due = λ m now x. listed-due_keys m now x;
  };
}

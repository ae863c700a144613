-- ===== src/Prelude/Lists.antt =====
-- Membership in lists of texts as a test, lengths in native numbers, and a count of distinct items.
use Prim.Native.Nat.{ℕ, suc, ◌≤◌}
use Prim.Native.String.{String}
use mathlib.Core.Path.{◌≡◌}
use mathlib.Core.Bool.{Bool, true, false, ◌||◌, ◌&&◌, not}
use mathlib.Core.List.{List, [], ◌∷◌}
use native.Mathlib.Omega.{arith}
use text.Mathlib.TextEquality.{eq_iff}
use text.Mathlib.Text.{◌==◌ as str_eq}
use sandboxd_teleport.Prelude.Tests.{if◌then◌else◌}

abbrev pub length {ℓ} : {A : Type ℓ} → List A → ℕ
length [] = 0
length (x ∷ xs) = suc (length xs)

unfoldable pub listed : String → List String → Bool
listed x [] = false
listed x (y ∷ ys) = str_eq y x || listed x ys

unfoldable pub select : (String → Bool) → List String → List String
select p [] = []
select p (y ∷ ys) = if p y then y ∷ select p ys else select p ys

abbrev pub without : String → List String → List String
without x = select (λ y. not (str_eq y x))

pub listed-select :
    (p : String → Bool) (x : String) (ys : List String)
    → listed x (select p ys) ≡ (p x && listed x ys)
unfolding listed select
listed-select p x [] = ground arith
listed-select p x (y ∷ ys) = ground (arith, eq_iff y x, listed-select p x ys)

abbrev pub Distinct : List String → Type 0
Distinct [] = Unit
Distinct (x ∷ xs) = (listed x xs ≡ false) × Distinct xs

pub select-Distinct : (p : String → Bool) (ys : List String) → Distinct ys → Distinct (select p ys)
unfolding select
select-Distinct p [] d = tt
select-Distinct p (y ∷ ys) d = ground (arith, listed-select p y ys, select-Distinct p ys d.1)

length-select-le : (p : String → Bool) (ys : List String) → length (select p ys) ≤ length ys
unfolding select
length-select-le p [] = omega arith
length-select-le p (y ∷ ys) = ground (arith, length-select-le p ys)

length-without-lt :
    (x : String) (ys : List String) → listed x ys ≡ true → suc (length (without x ys)) ≤ length ys
unfolding listed select
length-without-lt x [] h = cc
length-without-lt x (y ∷ ys) h =
    ground (arith, eq_iff y x, length-without-lt x ys, length-select-le (λ z. not (str_eq z x)) ys)

-- A list without repetitions is no longer than a list that has all its items.
pub length_of_subset :
    (xs ys : List String)
    → Distinct xs
    → ((z : String) → listed z xs ≡ true → listed z ys ≡ true)
    → length xs ≤ length ys
unfolding listed
length_of_subset [] ys d sub = omega arith
length_of_subset (x ∷ xs) ys d sub = omega (
  arith,
  length_of_subset xs (without x ys) d.1 (λ z h. kept z h),
  length-without-lt x ys (ground (arith, sub x, eq_iff x x)),
)
  where
    kept : (z : String) → listed z xs ≡ true → listed z (without x ys) ≡ true
    kept z h =
        ground (arith, listed-select (λ y. not (str_eq y x)) z ys, sub z, eq_iff z x, eq_iff x z)

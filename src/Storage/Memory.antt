-- ===== src/Storage/Memory.antt =====
-- A bucket that is kept in memory and lists one key to a page: an instance of the service's behaviour.
use text.Mathlib.Text.{starts_with}
use mathlib.Core.List.{◌++◌ as ◌+++◌}
use sandboxd_teleport.Prelude.{
  ℕ, zero, suc, String, true, false, ◌<◌, ◌&&◌, ◌≡◌, refl, ap, Option, none, some, List, [], ◌∷◌,
  arith, eq_iff, listed, select, listed-select, length, if◌then◌else◌,
}
use sandboxd_teleport.Valkey.Memory.{find, delete, put, keys, find-delete, find-put}
use sandboxd_teleport.Storage.{Bucket, Page, has_content}

unfoldable pub after : ℕ → List String → List String
after zero l = l
after (suc n) [] = []
after (suc n) (x ∷ l) = after n l

unfoldable pub tail : List String → List String
tail [] = []
tail (x ∷ l) = l

pub after-suc : (n : ℕ) (l : List String) → after (suc n) l ≡ tail (after n l)
unfolding after tail
after-suc zero [] = refl
after-suc zero (x ∷ l) = refl
after-suc (suc n) [] = refl
after-suc (suc n) (x ∷ l) = after-suc n l

unfoldable pub size : String → ℕ
size String.[] = 0
size (String.◌∷◌ c s) = suc (size s)

unfoldable pub at : Option String → ℕ
unfolding size
at none = 0
at (some token) = size token

unfoldable pub token_after : Option String → Option String
token_after none = some "n"
token_after (some token) = some (String.◌∷◌ "n" token)

pub at-token_after : (o : Option String) → at (token_after o) ≡ suc (at o)
unfolding at token_after size
at-token_after none = refl
at-token_after (some token) = refl

unfoldable pub page_of : List String → Option String → Page
page_of [] next = record { keys = []; truncated = false; next = none }
page_of (x ∷ []) next = record { keys = x ∷ []; truncated = false; next = none }
page_of (x ∷ y ∷ l) next = record { keys = x ∷ []; truncated = true; next = next }

pub next_of :
    (l : List String) (o : Option String) → (page_of l o).truncated ≡ true → (page_of l o).next ≡ o
unfolding page_of
next_of [] o h = absurd (ground (arith, h))
next_of (x ∷ []) o h = absurd (ground (arith, h))
next_of (x ∷ y ∷ l) o h = refl

pub page_whole :
    (l more : List String) (o : Option String)
    → ((page_of l o).truncated ≡ true → more ≡ tail l)
    → (page_of l o).keys +++ (if (page_of l o).truncated then more else []) ≡ l
unfolding page_of tail
page_whole [] more o h = refl
page_whole (x ∷ []) more o h = refl
page_whole (x ∷ y ∷ l) more o h = ap (λ z. x ∷ z) (h refl)

pub tail_shrinks :
    (l : List String) (o : Option String)
    → (page_of l o).truncated ≡ true
    → length (tail l) < length l
unfolding page_of tail
tail_shrinks [] o h = absurd (ground (arith, h))
tail_shrinks (x ∷ l) o h = omega arith

unfoldable pub under : {V : Type 0} → List (String × V) → String → List String
under m prefix = select (λ x. starts_with x prefix) (keys m)

pub listed-keys :
    {V : Type 0} (m : List (String × V)) (x : String) → listed x (keys m) ≡ has_content (find m x)
unfolding listed keys find
listed-keys [] x = refl
listed-keys ((j, v) ∷ m) x = ground (arith, eq_iff j x, listed-keys m x)

pub under_lem :
    {V : Type 0} (m : List (String × V)) (prefix x : String)
    → listed x (after 0 (under m prefix)) ≡ (starts_with x prefix && has_content (find m x))
unfolding under after
under_lem m prefix x =
    ground (arith, listed-select (λ y. starts_with y prefix) x (keys m), listed-keys m x)

pub following :
    {V : Type 0} (m : List (String × V)) (prefix : String) (o : Option String)
    → (page_of (after (at o) (under m prefix)) (token_after o)).truncated ≡ true
    → after (at (page_of (after (at o) (under m prefix)) (token_after o)).next) (under m prefix)
      ≡ tail (after (at o) (under m prefix))
following m prefix o h =
    rw (next_of (after (at o) (under m prefix)) (token_after o) h, at-token_after o)
      (after-suc (at o) (under m prefix))

unfoldable pub paged : {V : Type 0} → Bucket V
unfolding select find delete put keys after at size token_after page_of under under_lem page_whole
    following tail_shrinks
paged {V} = record {
  Map = List (String × V);
  get = find;
  put = put;
  del = delete;
  page = λ m prefix o. page_of (after (at o) (under m prefix)) (token_after o);
  rest = λ m prefix o. after (at o) (under m prefix);
  pages = λ m prefix o. length (after (at o) (under m prefix));
  source = λ key. key;
  get-put = find-put;
  get-del = find-delete;
  rest_all = λ m prefix x. under_lem m prefix x;
  rest-page = λ m prefix o. page_whole _ _ _ (λ h. following m prefix o h);
  pages_left = λ m prefix o h.
      rw (following m prefix o h) (tail_shrinks (after (at o) (under m prefix)) (token_after o) h);
}

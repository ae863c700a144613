-- ===== src/Storage.antt =====
-- checkpoint-restore/controlplane/internal/snapshot/snapshot.go: base snapshots in object storage. The
-- storage service is a parameter: `Bucket` names the calls and their documented behaviour.
pub mod Memory
pub mod Copies
pub mod Pages
use Prim.Native.Char.{Char, code}
use Prim.Native.String.{◌++◌}
use text.Mathlib.Text.{starts_with}
use sandboxd_teleport.Prelude.{
  ℕ, zero, suc, String, Bool, true, false, ◌+◌, ◌<◌, not, ◌&&◌, ◌||◌, ◌≡◌, Option, none, some, List,
  [], ◌∷◌, str_eq, ◌==◌, if◌then◌else◌, listed,
}
use mathlib.Core.List.{◌++◌ as ◌+++◌}

-- One page of ListObjectsV2: its keys, IsTruncated, and NextContinuationToken.
pub record Page : Type 0 where
  pub keys : List String
  pub truncated : Bool
  pub next : Option String

abbrev pub has_content : {A : Type 0} → Option A → Bool
has_content none = false
has_content (some x) = true

-- Objects of content `V`. `rest` is what the pages from a token on hold, and `pages` how many follow:
-- a page may be empty, but the pages of a bucket come to an end, and from the start they hold the keys
-- under the prefix. `source` is the key that CopyObject reads for a CopySource with a text for a key:
-- the service URL-decodes it.
pub record Bucket (V : Type 0) : Type 1 where
  pub Map : Type 0
  pub get : Map → String → Option V
  pub put : Map → String → V → Map
  pub del : Map → String → Map
  pub page : Map → String → Option String → Page
  pub rest : Map → String → Option String → List String
  pub pages : Map → String → Option String → ℕ
  pub source : String → String
  pub get-put :
      (m : Map) (x y : String) (v : V)
      → get (put m x v) y ≡ (if str_eq x y then some v else get m y)
  pub get-del : (m : Map) (x y : String) → get (del m x) y ≡ (if str_eq x y then none else get m y)
  pub rest_all :
      (m : Map) (prefix x : String)
      → listed x (rest m prefix none) ≡ (starts_with x prefix && has_content (get m x))
  pub rest-page :
      (m : Map) (prefix : String) (token : Option String)
      → (page m prefix token).keys
          +++ (if (page m prefix token).truncated
              then rest m prefix (page m prefix token).next
              else [])
        ≡ rest m prefix token
  pub pages_left :
      (m : Map) (prefix : String) (token : Option String)
      → (page m prefix token).truncated ≡ true
      → pages m prefix (page m prefix token).next < pages m prefix token

-- The calls that fail.
pub record Failures : Type 0 where
  pub list : String → Bool
  pub copy : String → Bool
  pub delete : String → Bool

-- What the loop over the pages comes to.
pub data Listing : Type 0 where
  all_keys : List String → Listing
  list_failed out_of_fuel : Listing

abbrev pub is_slash : Char → Bool
is_slash c = code c == 47

-- strings.TrimSuffix(s, "/").
unfoldable pub trim_slash : String → String
trim_slash String.[] = String.[]
trim_slash (String.◌∷◌ c String.[]) = if is_slash c then String.[] else String.◌∷◌ c String.[]
trim_slash (String.◌∷◌ c (String.◌∷◌ d s)) = String.◌∷◌ c (trim_slash (String.◌∷◌ d s))

unfoldable pub has_slash : String → Bool
has_slash String.[] = false
has_slash (String.◌∷◌ c s) = is_slash c || has_slash s

-- s[strings.LastIndex(s, "/")+1:].
unfoldable pub base_name : String → String
unfolding has_slash
base_name String.[] = String.[]
base_name (String.◌∷◌ c s) =
    let rest = base_name s in if has_slash s then rest else if is_slash c then s else String.◌∷◌ c s

abbrev pub base_prefix : String → String
base_prefix base = "bases/" ++ base ++ "/"

module _ {V : Type 0} (s : Bucket V) (f : Failures) where
  -- The loop of listKeys, on fuel.
  unfoldable pub list_pages : ℕ → s.Map → String → Option String → Listing
  list_pages zero m prefix token = out_of_fuel
  list_pages (suc fuel) m prefix token =
      let g = s.page m prefix token in
      let more = list_pages fuel m prefix g.next in
      if f.list prefix
      then list_failed
      else if g.truncated
      then elim more [
        | all_keys keys ↦ all_keys (g.keys +++ keys)
        | list_failed ↦ list_failed
        | out_of_fuel ↦ out_of_fuel
      ]
      else all_keys g.keys

  -- listKeys, with fuel for every page.
  unfoldable pub list_keys : s.Map → String → Listing
  unfolding list_pages
  list_keys m prefix = list_pages (suc (s.pages m prefix none)) m prefix none

  -- The copies of Promote: how many there were, `none` for an error. The key stands in CopySource as it
  -- is, not URL-encoded.
  unfoldable pub copy_keys : String → List String → s.Map → Option ℕ × s.Map
  unfolding base_name
  copy_keys dst [] m = (some 0, m)
  copy_keys dst (key ∷ keys) m =
      let next = λ (n : s.Map). copy_keys dst keys n in
      if f.copy key then (none, m) else elim (s.get m (s.source key)) [
        | none ↦ (none, m)
        | some v ↦
            let (n, u) = next (s.put m (dst ++ "/" ++ base_name key) v) in
            (elim n [ none ↦ none | some i ↦ some (suc i) ], u)
      ]

  -- The key of a promoted snapshot.
  abbrev pub promoted_uri : String → String → String
  promoted_uri base src = base_prefix base ++ base_name src

  -- Promote, once the source is listed: SnapshotURI and Objects, `none` for an error.
  unfoldable pub promote_listed : String → Listing → s.Map → Option (String × ℕ) × s.Map
  unfolding copy_keys
  promote_listed dst list_failed m = (none, m)
  promote_listed dst out_of_fuel m = (none, m)
  promote_listed dst (all_keys []) m = (none, m)
  promote_listed dst (all_keys (key ∷ keys)) m =
      let (n, u) = copy_keys dst (key ∷ keys) m in
      (elim n [ none ↦ none | some i ↦ some (dst, i) ], u)

  unfoldable pub promote : String → String → s.Map → Option (String × ℕ) × s.Map
  unfolding trim_slash list_keys promote_listed
  promote base src_prefix m =
      let src = trim_slash src_prefix in
      if str_eq src ""
      then (none, m)
      else promote_listed (promoted_uri base src) (list_keys m (src ++ "/")) m

  unfoldable pub delete_keys : List String → s.Map → Bool × s.Map
  delete_keys [] m = (true, m)
  delete_keys (key ∷ keys) m =
      let next = delete_keys keys (s.del m key) in if f.delete key then (false, m) else next

  -- Reclaim: whether there was no error.
  unfoldable pub reclaim : String → s.Map → Bool × s.Map
  unfolding list_keys delete_keys
  reclaim base m = elim (list_keys m (base_prefix base)) [
    | list_failed ↦ (false, m)
    | out_of_fuel ↦ (false, m)
    | all_keys keys ↦ delete_keys keys m
  ]

-- ===== src/Storage/Copies.antt =====
-- What a promotion copies.
use Prim.Native.String.{◌++◌}
use text.Mathlib.Text.{starts_with}
use text.Mathlib.TextLemmas.{append_cancel_left}
use sandboxd_teleport.Prelude.{
  ℕ, suc, String, true, false, ◌≡◌, ◌⊎◌, ◌∙◌, refl, sym, ap, subst, inl, inr, Option, none, some,
  List, [], ◌∷◌, arith, str_eq, eq_iff, Option-cases, Bool-cases, listed, length,
}
use sandboxd_teleport.Storage.{
  Bucket, Failures, all_keys, copy_keys, base_name, base_prefix, promoted_uri, promote,
  promote_listed, trim_slash,
}
use sandboxd_teleport.Storage.Pages.{list_keys-rest, copied_under, untouched}

abbrev plus_one : Option ℕ → Option ℕ
plus_one none = none
plus_one (some i) = some (suc i)

module _ {V : Type 0} (s : Bucket V) (f : Failures) (base name : String)
    (copies : (key : String) → f.copy key ≡ false) where
  abbrev pub target : String → String
  target key = (base_prefix base ++ name) ++ "/" ++ base_name key

  -- Keys outside the base that have a content, and that URL-decoding leaves alone.
  abbrev pub Ready : List String → s.Map → Type 0
  Ready keys m =
      (j : String)
      → listed j keys ≡ true
      → (s.source j ≡ j)
        × (starts_with j (base_prefix base) ≡ false)
        × (x : V) × (s.get m j ≡ some x)

  abbrev after : List String → s.Map → Option ℕ × s.Map
  after keys m = copy_keys s f (base_prefix base ++ name) keys m

  source_stays :
      (key j : String) (x : V) (m : s.Map)
      → starts_with j (base_prefix base) ≡ false
      → s.get (s.put m (target key) x) j ≡ s.get m j
  source_stays key j x m outside =
      untouched s f base (s.put m (target key) x) m x (target key) j
        (copied_under s f base name ("/" ++ base_name key)) outside (s.get-put m (target key) j x)

  Ready-put :
      (key : String) (x : V) (keys : List String) (m : s.Map)
      → Ready keys m
      → Ready keys (s.put m (target key) x)
  Ready-put key x keys m ready j there =
      let (plain, outside, y, found) = ready j there in
      (plain, outside, y, source_stays key j x m outside ∙ found)

  Ready-tail : (key : String) (keys : List String) (m : s.Map) → Ready (key ∷ keys) m → Ready keys m
  unfolding listed
  Ready-tail key keys m ready j there = ready j (ground (arith, there))

  here : (key : String) (keys : List String) → listed key (key ∷ keys) ≡ true
  unfolding listed
  here key keys = ground (arith, eq_iff key key)

  copied_step :
      (key : String) (keys : List String) (m : s.Map) (x : V)
      → s.source key ≡ key
      → s.get m key ≡ some x
      → (((after (key ∷ keys) m).1) ≡ (after keys (s.put m (target key) x)).1)
        × ((after keys (s.put m (target key) x)).0 ≡ some (length keys)
            → (after (key ∷ keys) m).0 ≡ some (suc (length keys)))
  unfolding copy_keys
  copied_step key keys m x plain found =
      rw (copies key, ap (s.get m) plain ∙ found, copy_keys) (refl, λ h. ap plus_one h)

  counted : (keys : List String) (m : s.Map) → Ready keys m → (after keys m).0 ≡ some (length keys)
  unfolding copy_keys
  counted [] m ready = refl
  counted (key ∷ keys) m ready =
      let (plain, outside, x, found) = ready key (here key keys) in
      (copied_step key keys m x plain found).1 (
        counted keys (s.put m (target key) x)
          (Ready-put key x keys m (Ready-tail key keys m ready)))

  module _ (key : String) (v : V) (outside : starts_with key (base_prefix base) ≡ false) where
    -- No other of the keys has the name of this one.
    abbrev pub Alone : List String → Type 0
    Alone keys = (j : String) → listed j keys ≡ true → base_name j ≡ base_name key → j ≡ key

    abbrev pub HasCopy : s.Map → Type 0
    HasCopy m = s.get m (target key) ≡ some v

    HasCopy-put :
        (j : String) (x : V) (m : s.Map)
        → s.get m key ≡ some v
        → s.get m j ≡ some x
        → (base_name j ≡ base_name key → j ≡ key)
        → HasCopy m ⊎ (j ≡ key)
        → HasCopy (s.put m (target j) x)
    HasCopy-put j x m source found alone start =
        elim (Bool-cases (str_eq (target j) (target key))) [
          | inl same ↦
              let at : target j ≡ target key =
                ground (arith, eq_iff (target j) (target key), same) in
              let one : j ≡ key = alone (
                append_cancel_left "/" _ _
                  (append_cancel_left (base_prefix base ++ name) _ _ at)) in
              let content : s.get m j ≡ some v = subst (λ z. s.get m z ≡ some v) (sym one) source in
              rw (s.get-put m (target j) (target key) x, same) (sym found ∙ content)
          | inr other ↦
              rw (s.get-put m (target j) (target key) x, other) (kept_copy j m other start)
        ]
      where
        kept_copy :
            (i : String) (n : s.Map)
            → str_eq (target i) (target key) ≡ false
            → HasCopy n ⊎ (i ≡ key)
            → HasCopy n
        kept_copy i n other (inl has) = has
        kept_copy i n other (inr one) =
            absurd (ground (arith, eq_iff (target i) (target key), other, ap target one))

    HasCopy-after :
        (keys : List String) (m : s.Map)
        → Ready keys m
        → Alone keys
        → s.get m key ≡ some v
        → HasCopy m ⊎ (listed key keys ≡ true)
        → HasCopy (after keys m).1
    unfolding copy_keys listed
    HasCopy-after [] m ready alone source (inl has) = has
    HasCopy-after [] m ready alone source (inr there) = absurd (ground (arith, there))
    HasCopy-after (j ∷ js) m ready alone source start =
        let (plain, away, x, found) = ready j (here j js) in
        let next = s.put m (target j) x in
        subst HasCopy (sym (copied_step j js m x plain found).0) (
          HasCopy-after js next (Ready-put j x js m (Ready-tail j js m ready))
            (λ i there. alone i (ground (arith, there))) (source_stays j key x m outside ∙ source)
            (step j js m x source found (alone j (here j js)) start))
      where
        step :
            (i : String) (is : List String) (n : s.Map) (y : V)
            → s.get n key ≡ some v
            → s.get n i ≡ some y
            → (base_name i ≡ base_name key → i ≡ key)
            → HasCopy n ⊎ (listed key (i ∷ is) ≡ true)
            → HasCopy (s.put n (target i) y) ⊎ (listed key is ≡ true)
        step i is n y source_n found_n single (inl has) =
            inl (HasCopy-put i y n source_n found_n single (inl has))
        step i is n y source_n found_n single (inr there) = elim (Bool-cases (str_eq i key)) [
          | inl same ↦
              inl (
                HasCopy-put i y n source_n found_n single
                  (inr (ground (arith, eq_iff i key, same))))
          | inr other ↦ inr (ground (arith, other, there))
        ]

ready_of :
    {V : Type 0} (s : Bucket V) (f : Failures) (base src : String) (m : s.Map) (j : String)
    → ((x : String)
        → starts_with x (trim_slash src ++ "/") ≡ true
        → starts_with x (base_prefix base) ≡ false)
    → s.source j ≡ j
    → listed j (s.rest m (trim_slash src ++ "/") none) ≡ true
    → (s.source j ≡ j) × (starts_with j (base_prefix base) ≡ false) × (x : V) × (s.get m j ≡ some x)
ready_of s f base src m j apart plain at = elim (Option-cases (s.get m j)) [
  | inl missing ↦ absurd (ground (arith, s.rest_all m (trim_slash src ++ "/") j, at, missing))
  | inr (x, found) ↦
      (plain, apart j (ground (arith, s.rest_all m (trim_slash src ++ "/") j, at)), x, found)
]

listed_copies :
    {V : Type 0} (s : Bucket V) (f : Failures) (base name : String)
    (copies : (x : String) → f.copy x ≡ false) (key : String) (v : V)
    (outside : starts_with key (base_prefix base) ≡ false) (keys : List String) (m : s.Map)
    → Ready s f base name copies keys m
    → Alone s f base name copies key v outside keys
    → s.get m key ≡ some v
    → listed key keys ≡ true
    → ((promote_listed s f (base_prefix base ++ name) (all_keys keys) m).0
        ≡ some (base_prefix base ++ name, length keys))
      × (s.get
            (promote_listed s f (base_prefix base ++ name) (all_keys keys) m).1
            ((base_prefix base ++ name) ++ "/" ++ base_name key)
          ≡ some v)
unfolding promote_listed listed
listed_copies s f base name copies key v outside [] m ready alone found there =
    absurd (ground (arith, there))
listed_copies s f base name copies key v outside (x ∷ xs) m ready alone found there = (
  rw (counted s f base name copies (x ∷ xs) m ready, promote_listed) refl,
  HasCopy-after s f base name copies key v outside (x ∷ xs) m ready alone found (inr there),
)

-- A promotion of a snapshot that is not itself under the base, whose objects have keys that are the
-- same when they are URL-decoded, and where no call fails, succeeds if the snapshot has an object. It counts the snapshot's objects, and the base then has a copy of each
-- object whose name, after the last slash, no other object of the snapshot has.
pub promote-HasCopy :
    {V : Type 0} (s : Bucket V) (f : Failures) (base src key : String) (v : V) (m : s.Map)
    → ((x : String) → f.copy x ≡ false)
    → f.list (trim_slash src ++ "/") ≡ false
    → str_eq (trim_slash src) "" ≡ false
    → ((x : String)
        → starts_with x (trim_slash src ++ "/") ≡ true
        → starts_with x (base_prefix base) ≡ false)
    → ((j : String) → listed j (s.rest m (trim_slash src ++ "/") none) ≡ true → s.source j ≡ j)
    → starts_with key (trim_slash src ++ "/") ≡ true
    → s.get m key ≡ some v
    → ((j : String)
        → listed j (s.rest m (trim_slash src ++ "/") none) ≡ true
        → base_name j ≡ base_name key
        → j ≡ key)
    → ((promote s f base src m).0
        ≡ some (
          promoted_uri s f base (trim_slash src),
          length (s.rest m (trim_slash src ++ "/") none),
        ))
      × (s.get
            (promote s f base src m).1
            (promoted_uri s f base (trim_slash src) ++ "/" ++ base_name key)
          ≡ some v)
unfolding promote
promote-HasCopy s f base src key v m copies lists named apart plain under found alone =
    let name = base_name (trim_slash src) in
    let keys = s.rest m (trim_slash src ++ "/") none in
    let there : listed key keys ≡ true =
      ground (arith, s.rest_all m (trim_slash src ++ "/") key, under, found) in
    let ready : Ready s f base name copies keys m =
      λ j at. ready_of s f base src m j apart (plain j at) at in
    rw (named, list_keys-rest s f m (trim_slash src ++ "/") lists)
      (listed_copies s f base name copies key v (apart key under) keys m ready alone found there)

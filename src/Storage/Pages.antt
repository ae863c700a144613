-- ===== src/Storage/Pages.antt =====
-- The loop over the pages of a listing, and the two loops over its keys.
use Prim.Native.String.{◌++◌}
use text.Mathlib.Text.{starts_with}
use text.Mathlib.TextPositions.{starts_with-append}
use text.Mathlib.TextLemmas.{append_assoc}
use mathlib.Core.List.{append-nil}
use sandboxd_teleport.Prelude.{
  ℕ, zero, suc, String, Bool, true, false, ◌<◌, ◌&&◌, ◌≡◌, ◌∙◌, refl, subst, sym, ap, inl, inr,
  Option, none, some, List, [], ◌∷◌, arith, str_eq, eq_iff, Option-cases, Bool-cases, if_case,
  if◌then◌else◌, listed,
}
use sandboxd_teleport.Storage.{
  Bucket, Failures, Listing, all_keys, list_failed, out_of_fuel, list_pages, list_keys, copy_keys,
  delete_keys, base_name, base_prefix, trim_slash, promote, promote_listed, reclaim, has_content,
}

module _ {V : Type 0} (s : Bucket V) (f : Failures) where
  -- The loop over the pages collects exactly the keys that are to come, where no call fails and there
  -- is fuel for each page.
  list_pages-rest :
      (fuel : ℕ) (m : s.Map) (prefix : String) (token : Option String)
      → f.list prefix ≡ false
      → s.pages m prefix token < fuel
      → list_pages s f fuel m prefix token ≡ all_keys (s.rest m prefix token)
  unfolding list_pages
  list_pages-rest zero m prefix token fine enough = absurd (omega (arith, enough))
  list_pages-rest (suc fuel) m prefix token fine enough =
      let g = s.page m prefix token in
      elim (Bool-cases g.truncated) [
        | inl more ↦
            rw
              (
                fine,
                more,
                list_pages-rest fuel m prefix g.next fine
                    (omega (arith, enough, s.pages_left m prefix token more)),
              )
              (ap (λ ks. all_keys ks) (rw more at (s.rest-page m prefix token)))
        | inr last ↦
            rw (fine, last)
              (ap (λ ks. all_keys ks)
                (sym (append-nil g.keys) ∙ (rw last at (s.rest-page m prefix token))))
      ]

  pub list_keys-rest :
      (m : s.Map) (prefix : String)
      → f.list prefix ≡ false
      → list_keys s f m prefix ≡ all_keys (s.rest m prefix none)
  unfolding list_keys
  list_keys-rest m prefix fine =
      list_pages-rest (suc (s.pages m prefix none)) m prefix none fine (omega arith)

  delete_keys_all :
      (keys : List String) (m : s.Map) (x : String)
      → ((key : String) → f.delete key ≡ false)
      → ((delete_keys s f keys m).0 ≡ true)
        × (s.get (delete_keys s f keys m).1 x ≡ (if listed x keys then none else s.get m x))
  unfolding delete_keys listed
  delete_keys_all [] m x fine = (refl, refl)
  delete_keys_all (key ∷ keys) m x fine =
      let (ends, left) = delete_keys_all keys (s.del m key) x fine in
      rw (fine key) (ends, ground (arith, left, s.get-del m key x, eq_iff key x))

  -- Reclaim of a base, where no call fails, succeeds and deletes exactly the objects under the base's
  -- prefix.
  pub reclaim_lem :
      (base : String) (m : s.Map) (x : String)
      → f.list (base_prefix base) ≡ false
      → ((key : String) → f.delete key ≡ false)
      → ((reclaim s f base m).0 ≡ true)
        × (s.get (reclaim s f base m).1 x
            ≡ (if starts_with x (base_prefix base) then none else s.get m x))
  unfolding reclaim
  reclaim_lem base m x lists deletes =
      let keys = s.rest m (base_prefix base) none in
      let (ends, left) = delete_keys_all keys m x deletes in
      rw (list_keys-rest m (base_prefix base) lists, reclaim)
        (ends, left ∙ swept (s.rest_all m (base_prefix base) x))
    where
      swept :
          listed x (s.rest m (base_prefix base) none)
            ≡ (starts_with x (base_prefix base) && has_content (s.get m x))
          → (if listed x (s.rest m (base_prefix base) none) then none else s.get m x)
            ≡ (if starts_with x (base_prefix base) then none else s.get m x)
      swept e = elim (Option-cases (s.get m x)) [
        | inl empty ↦ ground (arith, e, empty)
        | inr (v, there) ↦ ground (arith, e, there)
      ]

  -- Keys of copies lie under the base's prefix.
  pub copied_under :
      (base name tail : String)
      → starts_with ((base_prefix base ++ name) ++ tail) (base_prefix base) ≡ true
  copied_under base name tail =
      rw (append_assoc (base_prefix base) name tail)
        (starts_with-append (base_prefix base) (name ++ tail))

  pub untouched :
      (base : String) (u n : s.Map) (v : V) (y z : String)
      → starts_with y (base_prefix base) ≡ true
      → starts_with z (base_prefix base) ≡ false
      → s.get u z ≡ (if str_eq y z then some v else s.get n z)
      → s.get u z ≡ s.get n z
  untouched base u n v y z inside outside e = elim (Bool-cases (str_eq y z)) [
    | inl same ↦
        let one : y ≡ z = ground (arith, eq_iff y z, same) in
        absurd (clash (subst (λ a. starts_with a (base_prefix base) ≡ true) one inside) outside)
    | inr other ↦ rw other at e
  ]
    where
      clash : {b : Bool} → b ≡ true → b ≡ false → ⊥
      clash h i = ground (arith, h, i)

  copy_keys_frame :
      (base name : String) (keys : List String) (m : s.Map) (x : String)
      → starts_with x (base_prefix base) ≡ false
      → s.get (copy_keys s f (base_prefix base ++ name) keys m).1 x ≡ s.get m x
  unfolding copy_keys
  copy_keys_frame base name [] m x outside = refl
  copy_keys_frame base name (key ∷ keys) m x outside =
      if_case (λ (r : Option ℕ × s.Map). s.get r.1 x ≡ s.get m x) (f.copy key) _ _ (λ _. refl)
        (λ _. elim (Option-cases (s.get m (s.source key))) [
          | inl missing ↦ rw (missing, copy_keys) refl
          | inr (v, there) ↦
              (let key_of = (base_prefix base ++ name) ++ "/" ++ base_name key in
                rw (there, copy_keys)
                  (copy_keys_frame base name keys (s.put m key_of v) x outside
                    ∙ untouched base (s.put m key_of v) m v key_of x
                        (copied_under base name ("/" ++ base_name key)) outside
                        (s.get-put m key_of x v)))
        ])

  listed_frame :
      (base name : String) (m : s.Map) (x : String)
      → starts_with x (base_prefix base) ≡ false
      → (l : Listing) → s.get (promote_listed s f (base_prefix base ++ name) l m).1 x ≡ s.get m x
  unfolding promote_listed
  listed_frame base name m x outside list_failed = refl
  listed_frame base name m x outside out_of_fuel = refl
  listed_frame base name m x outside (all_keys []) = refl
  listed_frame base name m x outside (all_keys (key ∷ keys)) =
      copy_keys_frame base name (key ∷ keys) m x outside

  -- Promote changes no object outside the base's prefix, also when it fails on the way.
  pub promote_frame :
      (base src : String) (m : s.Map) (x : String)
      → starts_with x (base_prefix base) ≡ false
      → s.get (promote s f base src m).1 x ≡ s.get m x
  unfolding promote
  promote_frame base src m x outside =
      if_case (λ (r : Option (String × ℕ) × s.Map). s.get r.1 x ≡ s.get m x)
        (str_eq (trim_slash src) "") _ _ (λ _. refl)
        (λ _.
          listed_frame base (base_name (trim_slash src)) m x outside
            (list_keys s f m (trim_slash src ++ "/")))

  -- A base that is reclaimed leaves no trace: after a promotion, whatever it came to, and a reclaim in
  -- which no call fails, there is no object under the base's prefix, and every other object is as it
  -- was before the promotion.
  pub reclaim-promote :
      (base src : String) (m : s.Map) (x : String)
      → f.list (base_prefix base) ≡ false
      → ((key : String) → f.delete key ≡ false)
      → let u = reclaim s f base (promote s f base src m).1 in
        (u.0 ≡ true)
        × (s.get u.1 x ≡ (if starts_with x (base_prefix base) then none else s.get m x))
  reclaim-promote base src m x lists deletes =
      let (ends, left) = reclaim_lem base (promote s f base src m).1 x lists deletes in
      (ends, left ∙ outside)
    where
      outside :
          (if starts_with x (base_prefix base) then none else s.get (promote s f base src m).1 x)
          ≡ (if starts_with x (base_prefix base) then none else s.get m x)
      outside = elim (Bool-cases (starts_with x (base_prefix base))) [
        | inl under ↦ rw under refl
        | inr other ↦ rw other (promote_frame base src m x other)
      ]

-- ===== src/Categories/Classify/Laws.antt =====
-- shared/categories.py: the precedence of the tag keys in `classify`.
use geocoder_fwd.Prelude.{
  ◌≡◌, refl, ap, ◌∙◌, sym, ◌⊎◌, true, false, Option, none, some, List, [], ◌∷◌, ◌++◌, String, Dict,
  lookup, insert, lookup-insert, str_eq, eq_iff, contains, All, arith, Bool-cases, Option-cases,
  inl, inr,
}
use geocoder_fwd.Prelude.Int.{ℤ}
use geocoder_fwd.Categories.Taxonomy.{category_keys}
use geocoder_fwd.Categories.Classify.{
  Category, truthy, first_match, category_of, group_of, is_admin, classify,
}

-- A key with no value, or with an empty one.
abbrev pub IsAbsent : Dict String → String → Type 0
IsAbsent tags k = truthy (lookup k tags) ≡ none

first_match-skip :
    (before keys : List String) (tags : Dict String)
    → All (IsAbsent tags) before
    → first_match (before ++ keys) tags ≡ first_match keys tags
unfolding first_match
first_match-skip [] keys tags h = refl
first_match-skip (k ∷ before) keys tags (absent, h) =
    rw (absent, first_match) (first_match-skip before keys tags h)

first_match-found :
    (k v : String) (keys : List String) (tags : Dict String)
    → truthy (lookup k tags) ≡ some v
    → first_match (k ∷ keys) tags ≡ some (k, v)
unfolding first_match
first_match-found k v keys tags h = rw (h, first_match) refl

first_match-insert :
    (keys : List String) (k v : String) (tags : Dict String)
    → contains k keys ≡ false
    → first_match keys (insert k v tags) ≡ first_match keys tags
unfolding first_match
first_match-insert [] k v tags h = refl
first_match-insert (j ∷ keys) k v tags h =
    let other : str_eq k j ≡ false = ground (arith, eq_iff j k, eq_iff k j, h) in
    let rest : contains k keys ≡ false = ground (arith, h) in
    let same : lookup j (insert k v tags) ≡ lookup j tags =
      rw (lookup-insert k j v tags) (rw other refl) in
    elim (Option-cases (truthy (lookup j tags))) [
      | inl e ↦
          first_match-skip (j ∷ []) keys (insert k v tags) (ap truthy same ∙ e, tt)
          ∙ (first_match-insert keys k v tags rest
              ∙ sym (first_match-skip (j ∷ []) keys tags (e, tt)))
      | inr (w, e) ↦
          first_match-found j w keys (insert k v tags) (ap truthy same ∙ e)
          ∙ sym (first_match-found j w keys tags e)
    ]

-- An element that is no boundary takes the first key of the precedence list that has a non-empty
-- value: if every key before `k` is absent, `k` has the value `v` and `k` is not `place`, then the
-- element is a place to explore with that key and value, in the group that they select.
classify_first :
    (tags : Dict String) (level : Option ℤ) (before after : List String) (k v : String)
    → is_admin (lookup "boundary" tags) level ≡ false
    → category_keys ≡ before ++ (k ∷ after)
    → All (IsAbsent tags) before
    → truthy (lookup k tags) ≡ some v
    → str_eq k "place" ≡ false
    → classify tags level
      ≡ record { key = some k; value = some v; group = group_of k v; is_poi = true }
unfolding classify category_of
classify_first tags level before after k v admin keys absent found place = rw admin (
    rw (keys) (
      rw (first_match-skip before (k ∷ after) tags absent)
        (rw (first_match-found k v after tags found) (rw place refl))))

-- A tag whose key is neither `boundary` nor a key of the precedence list has no influence on the
-- classification.
classify-insert :
    (tags : Dict String) (level : Option ℤ) (k v : String)
    → str_eq k "boundary" ≡ false
    → contains k category_keys ≡ false
    → classify (insert k v tags) level ≡ classify tags level
unfolding classify
classify-insert tags level k v boundary key =
    let same : lookup "boundary" (insert k v tags) ≡ lookup "boundary" tags =
      rw (lookup-insert k "boundary" v tags) (rw boundary refl) in
    rw same (rw (first_match-insert category_keys k v tags key) refl)

-- An administrative boundary, by its tag or by an admin level above 0, and an element without any
-- key of the precedence list are never places to explore; nor is one whose first key is `place`.
classify_no_poi :
    (tags : Dict String) (level : Option ℤ)
    → (is_admin (lookup "boundary" tags) level ≡ true)
      ⊎ ((first_match category_keys tags ≡ none)
          ⊎ ((v : String) × (first_match category_keys tags ≡ some ("place", v))))
    → Category.is_poi (classify tags level) ≡ false
unfolding classify category_of
classify_no_poi tags level (inl e) = rw e refl
classify_no_poi tags level (inr (inl e)) =
    elim (Bool-cases (is_admin (lookup "boundary" tags) level)) [
      | inl a ↦ rw a refl
      | inr a ↦ rw a (rw e refl)
    ]
classify_no_poi tags level (inr (inr (v, e))) =
    elim (Bool-cases (is_admin (lookup "boundary" tags) level)) [
      | inl a ↦ rw a refl
      | inr a ↦ rw a (rw e refl)
    ]

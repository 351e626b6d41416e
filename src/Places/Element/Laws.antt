-- ===== src/Places/Element/Laws.antt =====
-- shared/places_mapping.py: the tags of an element.
use geocoder_fwd.Prelude.{
  ℕ, ◌≡◌, refl, ap, ◌∙◌, Bool, true, false, not, ◌&&◌, none, some, List, [], ◌∷◌, String, Dict,
  lookup, lookup-insert, str_eq, eq_iff, codes, arith, Bool-cases, Option-cases, inl, inr,
}
use geocoder_fwd.Places.Tables.{layer_feature, category_feature, address_tag}
use geocoder_fwd.Places.Element.{
  Place, name_tag, insert_text, set_default, add_names, first_category, feature_of, add_feature,
  add_address,
}

first_code : List ℕ → ℕ
first_code [] = 0
first_code (c ∷ cs) = c

name_tag-place : (lang : String) → str_eq (name_tag lang) "place" ≡ false
unfolding first_code
name_tag-place lang = elim (Bool-cases (str_eq (name_tag lang) "place")) [
  | inr e ↦ e
  | inl e ↦
      let same : name_tag lang ≡ "place" = ground (arith, eq_iff (name_tag lang) "place", e) in
      let letters : 110 ≡ 112 = ap (λ s. first_code (codes s)) same in
      absurd (omega (arith, letters))
]

pub lookup-insert_text :
    (key value k : String) (tags : Dict String)
    → str_eq key k ≡ false
    → lookup k (insert_text key value tags) ≡ lookup k tags
lookup-insert_text key value k tags other = elim (Bool-cases (str_eq value "")) [
  | inl empty ↦ rw empty refl
  | inr filled ↦ rw filled (rw (lookup-insert key k value tags) (rw other refl))
]

pub add_names-place :
    (names tags : Dict String) → lookup "place" (add_names names tags) ≡ lookup "place" tags
unfolding add_names
add_names-place [] tags = refl
add_names-place ((lang, val) ∷ names) tags =
    add_names-place names (insert_text (name_tag lang) val tags)
    ∙ lookup-insert_text (name_tag lang) val "place" tags (name_tag-place lang)

pub lookup-set_default :
    (key value k : String) (tags : Dict String)
    → str_eq key k ≡ false
    → lookup k (set_default key value tags) ≡ lookup k tags
unfolding set_default
lookup-set_default key value k tags other = elim (Option-cases (lookup key tags)) [
  | inl missing ↦ rw (missing, set_default) (rw (lookup-insert key k value tags) (rw other refl))
  | inr (v, found) ↦ rw (found, set_default) refl
]

str_eq_refl : (s : String) → str_eq s s ≡ true
str_eq_refl s = ground (arith, eq_iff s s)

pub set_default-missing :
    (key value : String) (tags : Dict String)
    → lookup key tags ≡ none
    → lookup key (set_default key value tags) ≡ some value
unfolding set_default
set_default-missing key value tags missing =
    rw (missing, set_default) (rw (lookup-insert key key value tags) (rw (str_eq_refl key) refl))

pub set_default-present :
    (key value v : String) (tags : Dict String)
    → lookup key tags ≡ some v
    → set_default key value tags ≡ tags
unfolding set_default
set_default-present key value v tags found = rw (found, set_default) refl

-- No value of a table sets the tag `place`.
module _ {V : Type 0} (tag_of : V → String) where
  no_place : Dict V → Bool
  no_place [] = true
  no_place ((k, v) ∷ table) = not (str_eq (tag_of v) "place") && no_place table

  lookup-no_place :
      (k : String) (table : Dict V) (v : V)
      → no_place table ≡ true
      → lookup k table ≡ some v
      → str_eq (tag_of v) "place" ≡ false
  unfolding no_place lookup
  lookup-no_place k [] v h e = cc
  lookup-no_place k ((j, w) ∷ table) v h e = elim (Bool-cases (str_eq j k)) [
    | inl here ↦
        let same : some w ≡ some v = rw here at e in
        let fine : str_eq (tag_of w) "place" ≡ false = ground (arith, h) in cc
    | inr later ↦
        let found : lookup k table ≡ some v = rw later at e in
        let rest : no_place table ≡ true = ground (arith, h) in lookup-no_place k table v rest found
  ]

abbrev feature_key : String × String → String
feature_key feat = feat.0

abbrev same_text : String → String
same_text s = s

layers : no_place feature_key layer_feature ≡ true
unfolding no_place
layers = refl

categories : no_place feature_key category_feature ≡ true
unfolding no_place
categories = refl

addresses : no_place same_text address_tag ≡ true
unfolding no_place
addresses = refl

first_category-place :
    (cats : List String) (feat : String × String)
    → first_category cats ≡ some feat
    → str_eq feat.0 "place" ≡ false
unfolding first_category
first_category-place [] feat e = cc
first_category-place (c ∷ cats) feat e = elim (Option-cases (lookup c category_feature)) [
  | inl missing ↦ first_category-place cats feat (rw (missing, first_category) at e)
  | inr (found, here) ↦
      let same : some found ≡ some feat = rw (here, first_category) at e in
      let fine = lookup-no_place feature_key c category_feature found categories here in cc
]

feature_of-place :
    (p : Place) (feat : String × String) → feature_of p ≡ some feat → str_eq feat.0 "place" ≡ false
unfolding feature_of
feature_of-place p feat e = elim (Option-cases (lookup p.layer layer_feature)) [
  | inl missing ↦ first_category-place p.categories feat (rw (missing, feature_of) at e)
  | inr (found, here) ↦
      let same : some found ≡ some feat = rw (here, feature_of) at e in
      let fine = lookup-no_place feature_key p.layer layer_feature found layers here in cc
]

pub add_feature-place :
    (p : Place) (tags : Dict String)
    → lookup "place" (add_feature (feature_of p) tags) ≡ lookup "place" tags
unfolding add_feature
add_feature-place p tags = elim (Option-cases (feature_of p)) [
  | inl missing ↦ rw (missing, add_feature) refl
  | inr (feat, found) ↦
      rw (found, add_feature)
        (lookup-set_default feat.0 feat.1 "place" tags (feature_of-place p feat found))
]

pub add_address-place :
    (address tags : Dict String) → lookup "place" (add_address address tags) ≡ lookup "place" tags
unfolding add_address
add_address-place [] tags = refl
add_address-place ((key, val) ∷ address) tags = elim (Option-cases (lookup key address_tag)) [
  | inl missing ↦ rw (missing, add_address) (add_address-place address tags)
  | inr (tag, found) ↦
      rw (found, add_address)
        (add_address-place address (insert_text tag val tags)
          ∙ lookup-insert_text tag val "place" tags
              (lookup-no_place same_text key address_tag tag addresses found))
]

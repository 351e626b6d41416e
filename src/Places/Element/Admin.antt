-- ===== src/Places/Element/Admin.antt =====
-- shared/places_mapping.py: the elements of administrative areas.
use geocoder_fwd.Prelude.{
  ℕ, ◌≡◌, refl, ap, ◌∙◌, false, ◌&&◌, Option, none, some, [], String, Dict, lookup, lookup-insert,
  str_eq, contains, Bool-cases, Option-cases, inl, inr, ◌==◌,
}
use geocoder_fwd.Places.Tables.{admin_layer, generic_layers}
use geocoder_fwd.Places.Element.{
  Place, Element, Coordinate, insert_text, set_default, add_names, feature_of, add_feature,
  add_admin, level_of, is_none, add_address, add_rating, ref_key, add_rescued, kind_tags, tags_of,
  element_at, place_to_element,
}
use geocoder_fwd.Places.Element.Laws.{
  lookup-insert_text, add_names-place, set_default-missing, set_default-present, add_feature-place,
  add_address-place,
}

ref_key-place : (source : String) → str_eq (ref_key source) "place" ≡ false
ref_key-place source = elim (Bool-cases (str_eq source "google")) [
  | inl google ↦ rw google refl
  | inr other ↦ rw other refl
]

start-place : (name : String) → lookup "place" (insert_text "name" name []) ≡ none
unfolding lookup
start-place name = lookup-insert_text "name" name "place" [] refl

add_rating-place :
    (rating : Option String) (tags : Dict String)
    → lookup "place" (add_rating rating tags) ≡ lookup "place" tags
add_rating-place none tags = refl
add_rating-place (some r) tags = rw (lookup-insert "rating" "place" r tags) refl

module _ (place_from_name : String → Option String) where
  -- A place that is there stays.
  add_rescued-place :
      (p : Place) (v : String) (tags : Dict String)
      → lookup "place" tags ≡ some v
      → lookup "place" (add_rescued place_from_name p tags) ≡ some v
  unfolding add_rescued
  add_rescued-place p v tags found =
      elim (Bool-cases (
        is_none (feature_of p)
        && (level_of (lookup p.layer admin_layer) == 0)
        && contains p.layer generic_layers)) [
          | inr kept ↦ rw kept found
          | inl rescued ↦ elim (Option-cases (place_from_name p.name)) [
            | inl none_read ↦ rw rescued (rw (none_read, add_rescued) found)
            | inr (place, read) ↦ elim (Bool-cases (str_eq place "")) [
              | inl empty ↦ rw rescued (rw (read, add_rescued) (rw empty found))
              | inr filled ↦ rw rescued (
                  rw (read, add_rescued)
                    (rw filled (rw (set_default-present "place" place v tags found) found)))
            ]
          ]
        ]

  kind_tags-place :
      (p : Place) (level : ℕ) (place : String)
      → lookup p.layer admin_layer ≡ some (level, place)
      → lookup "place" (kind_tags place_from_name p) ≡ some place
  unfolding kind_tags add_admin
  kind_tags-place p level place admin =
      let named = add_names p.names (insert_text "name" p.name []) in
      let featured = add_feature (feature_of p) named in
      let open_place : lookup "place" featured ≡ none =
        add_feature-place p named
        ∙ (add_names-place p.names (insert_text "name" p.name []) ∙ start-place p.name) in
      rw (admin, kind_tags)
        (add_rescued-place p place (set_default "place" place featured)
          (set_default-missing "place" place featured open_place))

  tags_of-place :
      (p : Place)
      → lookup "place" (tags_of place_from_name p) ≡ lookup "place" (kind_tags place_from_name p)
  unfolding tags_of
  tags_of-place p =
      let kind = kind_tags place_from_name p in
      let addressed = add_address p.address kind in
      let phoned = insert_text "phone" p.phone addressed in
      let rated = add_rating p.rating phoned in
      lookup-insert_text (ref_key p.source) p.source_id "place"
        (insert_text "source" p.source rated) (ref_key-place p.source)
      ∙ (lookup-insert_text "source" p.source "place" rated refl
          ∙ (add_rating-place p.rating phoned
              ∙ (lookup-insert_text "phone" p.phone "place" addressed refl
                  ∙ add_address-place p.address kind)))

-- A record of an administrative layer that has coordinates becomes an element with the admin level
-- and the `place` tag that the table gives for the layer, at (longitude, latitude), whatever its
-- names, categories, address and other fields are.
place_to_element_admin :
    (place_from_name : String → Option String) (p : Place) (lat lon : Coordinate) (level : ℕ)
    (place : String)
    → p.lat ≡ some lat
    → p.lon ≡ some lon
    → lookup p.layer admin_layer ≡ some (level, place)
    → (e : Element) × (place_to_element place_from_name p ≡ some e)
      × (e.admin_level ≡ level)
      × (lookup "place" e.tags ≡ some place)
      × (e.coordinates ≡ (lon, lat))
      × (e.osm_id ≡ p.osm_id)
unfolding place_to_element element_at
place_to_element_admin place_from_name p lat lon level place north east admin = (
  record {
    osm_id = p.osm_id;
    tags = tags_of place_from_name p;
    coordinates = (lon, lat);
    admin_level = level_of (lookup p.layer admin_layer);
  },
  ap (λ c. element_at place_from_name p c p.lon) north
      ∙ ap (λ c. element_at place_from_name p (some lat) c) east,
  ap level_of admin,
  tags_of-place place_from_name p ∙ kind_tags-place place_from_name p level place admin,
  refl,
  refl,
)

-- ===== src/Places/Element.antt =====
-- shared/places_mapping.py, `place_to_element`. A missing text field is the empty text, since the
-- code treats them alike; coordinates are kept as they come.
pub mod Laws
pub mod Admin
use geocoder_fwd.Prelude.{
  ℕ, Bool, true, false, not, ◌&&◌, Option, none, some, List, [], ◌∷◌, String, Dict, lookup, insert,
  get_or, str_eq, contains, ◌==◌, if◌then◌else◌,
}
use geocoder_fwd.Prelude.Int.{ℤ}
use geocoder_fwd.Places.Tables.{
  layer_feature, category_feature, admin_layer, address_tag, generic_layers,
}

-- A finite float, as a ratio of integers.
abbrev pub Coordinate : Type 0
Coordinate = ℤ × ℕ

-- `phone` and `rating` hold the result of `str`.
pub record Place : Type 0 where
  pub osm_id : String
  pub source : String
  pub source_id : String
  pub name : String
  pub names : Dict String
  pub lat : Option Coordinate
  pub lon : Option Coordinate
  pub layer : String
  pub categories : List String
  pub address : Dict String
  pub phone : String
  pub rating : Option String

pub record Element : Type 0 where
  pub osm_id : String
  pub tags : Dict String
  pub coordinates : Coordinate × Coordinate
  pub admin_level : ℕ

-- `f"name:{lang}"`
abbrev pub name_tag : String → String
name_tag lang =
    String.◌∷◌ "n" (String.◌∷◌ "a" (String.◌∷◌ "m" (String.◌∷◌ "e" (String.◌∷◌ ":" lang))))

-- `if value: tags[key] = value`
abbrev pub insert_text : String → String → Dict String → Dict String
insert_text key value tags = if str_eq value "" then tags else insert key value tags

unfoldable pub set_default : String → String → Dict String → Dict String
set_default key value tags = elim (lookup key tags) [ some v ↦ tags | none ↦ insert key value tags ]

unfoldable pub add_names : Dict String → Dict String → Dict String
add_names [] tags = tags
add_names ((lang, val) ∷ names) tags = add_names names (insert_text (name_tag lang) val tags)

unfoldable pub first_category : List String → Option (String × String)
first_category [] = none
first_category (c ∷ cats) = elim (lookup c category_feature) [
  | some feat ↦ some feat
  | none ↦ first_category cats
]

unfoldable pub feature_of : Place → Option (String × String)
feature_of p = elim (lookup p.layer layer_feature) [
  | some feat ↦ some feat
  | none ↦ first_category p.categories
]

-- `if feat: tags.setdefault(feat[0], feat[1])`
unfoldable pub add_feature : Option (String × String) → Dict String → Dict String
add_feature none tags = tags
add_feature (some (key, value)) tags = set_default key value tags

unfoldable pub add_admin : Option (ℕ × String) → Dict String → Dict String
add_admin none tags = tags
add_admin (some (level, place)) tags = set_default "place" place tags

abbrev pub level_of : Option (ℕ × String) → ℕ
level_of none = 0
level_of (some (level, place)) = level

abbrev pub is_none : Option (String × String) → Bool
is_none none = true
is_none (some feat) = false

unfoldable pub add_address : Dict String → Dict String → Dict String
add_address [] tags = tags
add_address ((key, val) ∷ address) tags =
    add_address address
      (elim (lookup key address_tag) [ some tag ↦ insert_text tag val tags | none ↦ tags ])

abbrev pub add_rating : Option String → Dict String → Dict String
add_rating none tags = tags
add_rating (some rating) tags = insert "rating" rating tags

-- `"ref:google_place_id" if source == GOOGLE_SOURCE else "ref:source_id"`
abbrev pub ref_key : String → String
ref_key source = if str_eq source "google" then "ref:google_place_id" else "ref:source_id"

-- `place_from_name` reads a district's kind from a name by regular expressions.
module _ (place_from_name : String → Option String) where
  unfoldable pub add_rescued : Place → Dict String → Dict String
  add_rescued p tags =
      if is_none (feature_of p)
        && (level_of (lookup p.layer admin_layer) == 0)
        && contains p.layer generic_layers
      then (elim (place_from_name p.name) [
        | some place ↦ if str_eq place "" then tags else set_default "place" place tags
        | none ↦ tags
      ])
      else tags

  -- The tags of the feature and the place.
  unfoldable pub kind_tags : Place → Dict String
  kind_tags p = add_rescued p (
      add_admin (lookup p.layer admin_layer)
        (add_feature (feature_of p) (add_names p.names (insert_text "name" p.name []))))

  unfoldable pub tags_of : Place → Dict String
  tags_of p = insert_text (ref_key p.source) p.source_id (
      insert_text "source" p.source
        (add_rating p.rating (insert_text "phone" p.phone (add_address p.address (kind_tags p)))))

  -- A record without one of its coordinates has no element.
  unfoldable pub element_at : Place → Option Coordinate → Option Coordinate → Option Element
  element_at p none lon = none
  element_at p (some lat) none = none
  element_at p (some lat) (some lon) = some (record {
    osm_id = p.osm_id;
    tags = tags_of p;
    coordinates = (lon, lat);
    admin_level = level_of (lookup p.layer admin_layer);
  })

  unfoldable pub place_to_element : Place → Option Element
  unfolding element_at
  place_to_element p = element_at p p.lat p.lon

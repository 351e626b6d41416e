-- ===== src/OpenAddresses.antt =====
-- services/oa_watcher.py, `_parse_csv_row` and `_parse_geojson_feature`. A value that is missing or false is the
-- empty text. How a text or a value is read as a float, the test of the bounds and how a number is written
-- are arguments.
pub mod Usable
mod Tests
use geocoder_fwd.Prelude.{
  ℕ, Bool, true, false, not, ◌&&◌, ◌||◌, Option, none, some, List, [], ◌∷◌, ◌++◌, String, str_eq,
  if◌then◌else◌, codes, map,
}
use geocoder_fwd.Addresses.{Text, Tags, is_empty, strip, tag}

pub record Element (F : Type 0) : Type 0 where
  pub osm_id : Text
  pub tags : Tags
  pub lon : F
  pub lat : F

-- The tags whose value is not empty, in their order.
abbrev pub keep : List (String × Text) → Tags
keep [] = []
keep ((key, val) ∷ fields) =
    let rest = keep fields in if is_empty val then rest else (key, val) ∷ rest

-- What a row or the properties of a feature say of an address.
pub record Fields : Type 0 where
  pub number : Text
  pub street : Text
  pub unit : Text
  pub city : Text
  pub district : Text
  pub region : Text
  pub postcode : Text
  pub hash : Text

abbrev pub tags_from : Fields → Tags
tags_from f =
    ("source", codes "openaddresses")
    ∷ keep (
        ("addr:housenumber", f.number)
        ∷ ("addr:street", f.street)
        ∷ ("addr:unit", f.unit)
        ∷ ("addr:city", f.city)
        ∷ ("addr:county", f.district)
        ∷ ("addr:state", f.region)
        ∷ ("addr:postcode", f.postcode)
        ∷ [])

-- A column of a row, and a property under its name in capitals or else in small letters.
abbrev pub column : Tags → String → Text
column row key = strip (tag key row)

abbrev pub property : Tags → String → String → Text
property props key low = strip (if is_empty (tag key props) then tag low props else tag key props)

unfoldable pub row_fields : Tags → Fields
unfolding strip tag
row_fields row = record {
  number = column row "NUMBER";
  street = column row "STREET";
  unit = column row "UNIT";
  city = column row "CITY";
  district = column row "DISTRICT";
  region = column row "REGION";
  postcode = column row "POSTCODE";
  hash = column row "HASH";
}

unfoldable pub feature_fields : Tags → Fields
unfolding strip tag
feature_fields props = record {
  number = property props "NUMBER" "number";
  street = property props "STREET" "street";
  unit = property props "UNIT" "unit";
  city = property props "CITY" "city";
  district = property props "DISTRICT" "district";
  region = property props "REGION" "region";
  postcode = property props "POSTCODE" "postcode";
  hash = property props "HASH" "hash";
}

module _ {F : Type 0} (in_bounds : F → F → Bool) (show : ℕ → Text) where
  unfoldable pub id_suffix : Text → Text → ℕ → Text
  id_suffix hash src_hash row_idx =
      if not (is_empty hash)
      then hash
      else if not (is_empty src_hash)
      then src_hash ++ (95 ∷ show row_idx)
      else show row_idx

  -- Both functions from the check of the coordinates on.
  unfoldable pub element_of : F → F → Fields → ℕ → Text → Option (Element F)
  unfolding id_suffix
  element_of lon lat f row_idx src_hash =
      if not (in_bounds lon lat)
      then none
      else if is_empty f.number && is_empty f.street
      then none
      else some (record {
        osm_id = codes "oa" ++ id_suffix f.hash src_hash row_idx;
        tags = tags_from f;
        lon = lon;
        lat = lat;
      })

  abbrev pub located : Option F → Option F → Fields → ℕ → Text → Option (Element F)
  located (some lon) (some lat) f row_idx src_hash = element_of lon lat f row_idx src_hash
  located (some lon) none f row_idx src_hash = none
  located none lat f row_idx src_hash = none

  unfoldable pub parse_csv_row : (Text → Option F) → Tags → ℕ → Text → Option (Element F)
  unfolding element_of row_fields strip tag
  parse_csv_row float row row_idx src_hash =
      if is_empty (column row "LON") || is_empty (column row "LAT")
      then none
      else located (float (column row "LON")) (float (column row "LAT")) (row_fields row) row_idx
          src_hash

  -- A feature: the type of its geometry, the coordinates, of which `none` is one that is no float, and the
  -- properties.
  abbrev pub pointed : List (Option F) → Fields → ℕ → Text → Option (Element F)
  pointed [] f row_idx src_hash = none
  pointed (lon ∷ []) f row_idx src_hash = none
  pointed (lon ∷ lat ∷ coords) f row_idx src_hash = located lon lat f row_idx src_hash

  unfoldable pub parse_geojson_feature :
      Option (String × List (Option F)) → Tags → ℕ → Text → Option (Element F)
  unfolding element_of feature_fields
  parse_geojson_feature none props row_idx src_hash = none
  parse_geojson_feature (some (kind, coords)) props row_idx src_hash =
      if not (str_eq kind "Point")
      then none
      else pointed coords (feature_fields props) row_idx src_hash

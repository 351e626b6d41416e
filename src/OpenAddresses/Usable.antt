-- ===== src/OpenAddresses/Usable.antt =====
-- services/oa_watcher.py: what is known of an element that goes to the queue.
use geocoder_fwd.Prelude.{
  ℕ, ◌≡◌, ◌⊎◌, refl, ap, Bool, true, false, not, ◌&&◌, ◌||◌, Option, none, some, List, [], ◌∷◌,
  ◌++◌, String, str_eq, if◌then◌else◌, Bool-cases, inl, inr, lookup, get_or, codes,
}
use mathlib.Core.Path.{subst}
use geocoder_fwd.Addresses.{Text, Tags, is_empty, tag, has_address}
use geocoder_fwd.OpenAddresses.{
  Element, Fields, tags_from, column, row_fields, feature_fields, element_of, located,
  parse_csv_row, pointed, parse_geojson_feature, id_suffix,
}

-- The tags of an element with a number or a street have an address.
number_counts : (f : Fields) → is_empty f.number ≡ false → has_address (tags_from f) ≡ true
unfolding has_address tag lookup
number_counts f h = rw h (rw h refl)

or_second : (a b c : Bool) → b ≡ true → (a || (b || c)) ≡ true
or_second true b c h = refl
or_second false true c h = refl
or_second false false c h = cc

street_counts :
    (f : Fields)
    → is_empty f.number ≡ true
    → is_empty f.street ≡ false
    → has_address (tags_from f) ≡ true
unfolding has_address tag lookup
street_counts f h k =
    let second : not (is_empty (tag "addr:street" (tags_from f))) ≡ true =
      rw h (rw k (rw k refl)) in
    or_second (not (is_empty (tag "addr:housenumber" (tags_from f))))
      (not (is_empty (tag "addr:street" (tags_from f)))) _ second

-- A guard that has let something through.
guard :
    {A : Type 0} (b : Bool) (o : Option A) (a : A)
    → (if b then none else o) ≡ some a
    → (b ≡ false) × (o ≡ some a)
guard true o a h = cc
guard false o a h = (refl, h)

fields_count :
    (f : Fields)
    → (is_empty f.number && is_empty f.street) ≡ false
    → has_address (tags_from f) ≡ true
fields_count f h = elim (Bool-cases (is_empty f.number)) [
  | inr n ↦ number_counts f n
  | inl n ↦ street_counts f n (rw n at h)
]

not-false : (b : Bool) → not b ≡ false → b ≡ true
not-false true h = refl
not-false false h = cc

module _ {F : Type 0} (in_bounds : F → F → Bool) (show : ℕ → Text) where
  abbrev pub IsUsable : Element F → Type 0
  IsUsable e = (in_bounds e.lon e.lat ≡ true) × (has_address e.tags ≡ true)

  element_of-IsUsable :
      (lon lat : F) (f : Fields) (row_idx : ℕ) (src_hash : Text) (e : Element F)
      → element_of in_bounds show lon lat f row_idx src_hash ≡ some e
      → IsUsable e
  unfolding element_of
  element_of-IsUsable lon lat f row_idx src_hash e h =
      let (bounded, h') = guard (not (in_bounds lon lat)) _ e h in
      let (some_field, made) = guard (is_empty f.number && is_empty f.street) _ e h' in
      made_usable (codes "oa" ++ id_suffix in_bounds show f.hash src_hash row_idx) lon lat f e
        (not-false (in_bounds lon lat) bounded) (fields_count f some_field) made
    where
      made_usable :
          (osm_id : Text) (lon lat : F) (f : Fields) (e : Element F)
          → in_bounds lon lat ≡ true
          → has_address (tags_from f) ≡ true
          → some (record { osm_id = osm_id; tags = tags_from f; lon = lon; lat = lat }) ≡ some e
          → IsUsable e
      made_usable osm_id lon lat f e bounded counts made =
          let x : Element F = record {
            osm_id = osm_id;
            tags = tags_from f;
            lon = lon;
            lat = lat;
          } in
          let eq : x ≡ e = ap (get_or x) made in subst IsUsable eq (bounded, counts)

  located-IsUsable :
      (lon lat : Option F) (f : Fields) (row_idx : ℕ) (src_hash : Text) (e : Element F)
      → located in_bounds show lon lat f row_idx src_hash ≡ some e
      → IsUsable e
  located-IsUsable (some lon) (some lat) f row_idx src_hash e h =
      element_of-IsUsable lon lat f row_idx src_hash e h
  located-IsUsable (some lon) none f row_idx src_hash e h = cc
  located-IsUsable none lat f row_idx src_hash e h = cc

  pointed-IsUsable :
      (coords : List (Option F)) (f : Fields) (row_idx : ℕ) (src_hash : Text) (e : Element F)
      → pointed in_bounds show coords f row_idx src_hash ≡ some e
      → IsUsable e
  pointed-IsUsable [] f row_idx src_hash e h = cc
  pointed-IsUsable (lon ∷ []) f row_idx src_hash e h = cc
  pointed-IsUsable (lon ∷ lat ∷ coords) f row_idx src_hash e h =
      located-IsUsable lon lat f row_idx src_hash e h

  csv-IsUsable :
      (float : Text → Option F) (row : Tags) (row_idx : ℕ) (src_hash : Text) (e : Element F)
      → parse_csv_row in_bounds show float row row_idx src_hash ≡ some e
      → IsUsable e
  unfolding parse_csv_row
  csv-IsUsable float row row_idx src_hash e h =
      let (there, h') = guard (is_empty (column row "LON") || is_empty (column row "LAT")) _ e h in
      located-IsUsable (float (column row "LON")) (float (column row "LAT")) (row_fields row)
        row_idx src_hash e h'

  geojson-IsUsable :
      (geometry : Option (String × List (Option F))) (props : Tags) (row_idx : ℕ) (src_hash : Text)
      (e : Element F)
      → parse_geojson_feature in_bounds show geometry props row_idx src_hash ≡ some e
      → IsUsable e
  unfolding parse_geojson_feature
  geojson-IsUsable none props row_idx src_hash e h = cc
  geojson-IsUsable (some (kind, coords)) props row_idx src_hash e h =
      let (point, h') = guard (not (str_eq kind "Point")) _ e h in
      pointed-IsUsable coords (feature_fields props) row_idx src_hash e h'

  -- An element that comes of a row of a CSV file or of a GeoJSON feature lies within the bounds,
  -- and its tags have an address.
  pub parse_csv_row-IsUsable :
      (float : Text → Option F) (row : Tags) (geometry : Option (String × List (Option F)))
      (props : Tags) (row_idx : ℕ) (src_hash : Text) (e : Element F)
      → (parse_csv_row in_bounds show float row row_idx src_hash ≡ some e)
        ⊎ (parse_geojson_feature in_bounds show geometry props row_idx src_hash ≡ some e)
      → IsUsable e
  parse_csv_row-IsUsable float row geometry props row_idx src_hash e (inl h) =
      csv-IsUsable float row row_idx src_hash e h
  parse_csv_row-IsUsable float row geometry props row_idx src_hash e (inr h) =
      geojson-IsUsable geometry props row_idx src_hash e h

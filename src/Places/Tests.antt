-- ===== src/Places/Tests.antt =====
-- shared/places_mapping.py: the results at a district of Cairo.
use geocoder_fwd.Prelude.{◌≡◌, refl, none, some, [], ◌∷◌, lookup}
use geocoder_fwd.Prelude.Int.{pos}
use geocoder_fwd.Places.Tables.{admin_layer}
use geocoder_fwd.Places.Element.{Place}

abbrev district : Place
district = record {
  osm_id = "g_1";
  source = "google";
  source_id = "1";
  name = "Fifth Settlement";
  names = ("ar", "x") ∷ [];
  lat = some (pos 30, 1);
  lon = some (pos 31, 1);
  layer = "sublocality_level_1";
  categories = "food" ∷ [];
  address = ("city", "Cairo") ∷ [];
  phone = "";
  rating = none;
}

listed : lookup "sublocality_level_1" admin_layer ≡ some (10, "suburb")
unfolding lookup
listed = refl

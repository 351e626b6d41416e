-- ===== src/OpenAddresses/Tests.antt =====
-- services/oa_watcher.py, on one row.
use geocoder_fwd.Prelude.{
  ℕ, ◌≡◌, refl, Bool, Option, none, some, [], ◌∷◌, codes, lookup, leb, ◌&&◌, ◌+◌, inl,
}
use geocoder_fwd.Addresses.{Text, Tags, tag, strip}
use geocoder_fwd.OpenAddresses.{Element, parse_csv_row, row_fields, element_of, id_suffix}
use geocoder_fwd.OpenAddresses.Usable.{IsUsable, parse_csv_row-IsUsable}

-- The numbers of degrees in place of floats, from 0 to 9 as they are written.
abbrev digit_float : Text → Option ℕ
digit_float [] = none
digit_float (c ∷ t) = some c

abbrev bounded : ℕ → ℕ → Bool
bounded lon lat = leb 48 lon && leb lat 57

abbrev digit : ℕ → Text
digit n = (48 + n) ∷ []

abbrev row : Tags
row = ("LON", codes "3") ∷ ("LAT", codes " 4 ") ∷ ("STREET", codes "Rue X") ∷ []

abbrev element : Element ℕ
element = record {
  osm_id = codes "oaf_7";
  tags = ("source", codes "openaddresses") ∷ ("addr:street", codes "Rue X") ∷ [];
  lon = 51;
  lat = 52;
}

row_parsed : parse_csv_row bounded digit digit_float row 7 (codes "f") ≡ some element
unfolding parse_csv_row row_fields element_of id_suffix tag strip lookup
row_parsed = refl

parse_csv_row-IsUsable_example : IsUsable bounded digit element
parse_csv_row-IsUsable_example =
    parse_csv_row-IsUsable bounded digit digit_float row none [] 7 (codes "f") element
      (inl row_parsed)

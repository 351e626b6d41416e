-- ===== src/Addresses/Tests.antt =====
-- shared/address.py, on small inputs.
use geocoder_fwd.Prelude.{
  ◌≡◌, ◌↔◌, refl, false, none, some, List, [], ◌∷◌, ◌==◌, leb, ◌&&◌, ◌||◌, codes, lookup, inl, inr,
}
use geocoder_fwd.Addresses.{
  Text, Tags, is_empty, has_address, build_full_address, extract_address_components, tag, strip,
  fields_of, city_fallback, parts_of,
}
use geocoder_fwd.Addresses.Contained.{IsIn, IsContained, build_full_address-IsContained}
use geocoder_fwd.Addresses.Ordinals.{swap_all, swapped, ordinal_digits}
use geocoder_fwd.Addresses.Ordinals.Swapped.{ascii_digit, unchanged, swap_all_twice}
use geocoder_fwd.Addresses.Texts.{parts}
use geocoder_fwd.Addresses.Query.{
  Lexicon, is_postcode, parse_normalized, house, street_of, assign_all,
}
use geocoder_fwd.Addresses.Query.Known.{IsKnown, parse_normalized-IsKnown}

abbrev town_only : Tags
town_only = ("addr:town", codes "Tanta") ∷ []

-- A town is no field of the map, though it is a component.
town_counts : (has_address town_only ≡ false) × (build_full_address town_only ≡ codes "Tanta")
unfolding has_address build_full_address extract_address_components tag strip fields_of
    city_fallback parts_of lookup
town_counts = (refl, refl)

abbrev corner : Tags
corner =
    ("addr:housenumber", codes "5") ∷ ("addr:place", codes "Souk") ∷ ("addr:city", codes "Fez") ∷ []

build_full_address-IsContained_example :
    ((build_full_address corner ≡ []) ↔ (extract_address_components corner ≡ []))
    × IsContained (λ t. IsIn t (build_full_address corner)) (extract_address_components corner)
build_full_address-IsContained_example = build_full_address-IsContained corner

-- The place is left out beside a house number.
place_left_out : build_full_address corner ≡ codes "5, Fez"
unfolding build_full_address extract_address_components tag strip fields_of city_fallback parts_of
    lookup
place_left_out = refl

abbrev settlement : List Text
settlement = codes "fifth" ∷ codes "settlement" ∷ []

swap_all_twice_example :
    swap_all unchanged ascii_digit (swap_all unchanged ascii_digit settlement) ≡ settlement
unfolding swapped ordinal_digits
swap_all_twice_example =
    swap_all_twice unchanged ascii_digit (λ t h. refl) (λ c h. refl) settlement
      (inl refl, (inr refl, tt))

-- A lexicon of ASCII, with one street's type and two cities.
abbrev lexicon : Lexicon
lexicon = record {
  is_digit = λ c. leb 48 c && leb c 57;
  is_word = λ c. leb 48 c && leb c 57 || leb 97 c && leb c 122 || leb 65 c && leb c 90;
  same_letter = λ c d. c == d;
  lower = λ t. t;
  has_street_word = λ t. false;
  ar_prefixes = [];
  fr_prefixes = codes "rue" ∷ [];
  ar_cities = [];
  fr_cities = codes "nice" ∷ codes "paris" ∷ [];
  all_cities = codes "paris" ∷ [];
}

abbrev query : Text
query = codes "12 rue x,paris,75001,EG"

-- The end of a longer name is taken for a city.
rue_venice : parse_normalized lexicon (codes "rue venice") ≡ record {
  raw = codes "rue venice";
  housenumber = none;
  street = some (codes "rue ve");
  city = some (codes "nice");
  postcode = none;
  suburb = none;
  state = none;
  country = none;
}
unfolding parse_normalized parts strip is_postcode house street_of assign_all
rue_venice = refl

parse_normalized-IsKnown_example :
    IsKnown lexicon (λ t. is_empty t ≡ false) (parse_normalized lexicon query)
unfolding parts strip
parse_normalized-IsKnown_example =
    parse_normalized-IsKnown lexicon (λ t. is_empty t ≡ false) tt (refl, (refl, tt)) query
      (refl, (refl, (refl, (refl, tt))))

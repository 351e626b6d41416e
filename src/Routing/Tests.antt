-- ===== src/Routing/Tests.antt =====
-- services/routing.py, `_decode_polyline6`, on a short line.
use geocoder_fwd.Prelude.{◌≡◌, refl, some, List, [], ◌∷◌, codes, none}
use geocoder_fwd.Prelude.Int.{pos, negsuc, ◌+ℤ◌}
use geocoder_fwd.Routing.{Coord, decode_polyline6, decode_from, decode_value, delta_of}
use geocoder_fwd.Routing.Roundtrip.{encode_from, decode_polyline6-encode_from}

-- The example of the format's description, with its first two points.
line_read :
    decode_polyline6 (codes "_p~iF~ps|U_ulLnnqC")
    ≡ some ((negsuc 12019999, pos 3850000) ∷ (negsuc 12094999, pos 4070000) ∷ [])
unfolding decode_polyline6 decode_from decode_value delta_of ◌+ℤ◌
line_read = refl

-- A text that ends within a number.
cut_short : decode_polyline6 (codes "_p~") ≡ none
unfolding decode_polyline6 decode_from decode_value
cut_short = refl

abbrev line : List Coord
line = (pos 3, negsuc 40) ∷ (negsuc 7, pos 100) ∷ []

decode_polyline6-encode_from_example :
    decode_polyline6 (encode_from (pos 0) (pos 0) line) ≡ some line
decode_polyline6-encode_from_example = decode_polyline6-encode_from line

-- ===== src/Routing.antt =====
-- services/routing.py, `_decode_polyline6`: a text is the list of its code points, and a coordinate a
-- number of millionths of a degree, before the division.
pub mod Roundtrip
mod Tests
use geocoder_fwd.Prelude.{
  ◌>>=◌, ℕ, zero, suc, ◌+◌, ◌*◌, ◌/◌, ◌%◌, Bool, true, false, Option, none, some, List, [], ◌∷◌,
  ◌==◌, ltb, if◌then◌else◌, length,
}
use geocoder_fwd.Prelude.Int.{ℤ, pos, negsuc, ◌+ℤ◌}

-- One number: `unit` is `1 << shift`. The groups of five bits do not overlap, so `|=` adds. A character
-- gives `ord - 63`, of which the last six bits count. `none` is an `IndexError`.
unfoldable pub decode_value : ℕ → ℕ → List ℕ → Option (ℕ × List ℕ)
decode_value unit result [] = none
decode_value unit result (c ∷ encoded) =
    let result' = result + (c + 1) % 32 * unit in
    let later = decode_value (unit * 32) result' encoded in
    if ltb c 95 then some (result', encoded) else later

-- `~(result >> 1) if (result & 1) else (result >> 1)`
unfoldable pub delta_of : ℕ → ℤ
delta_of result = if result % 2 == 1 then negsuc (result / 2) else pos (result / 2)

-- A longitude and a latitude.
abbrev pub Coord : Type 0
Coord = ℤ × ℤ

-- The points of an encoded line after a latitude and a longitude, on fuel.
unfoldable pub decode_from : ℕ → ℤ → ℤ → List ℕ → Option (List Coord)
unfolding decode_value delta_of
decode_from fuel lat lon [] = some []
decode_from zero lat lon (c ∷ encoded) = none
decode_from (suc fuel) lat lon (c ∷ encoded) = do
  (first, rest) ← decode_value 1 0 (c ∷ encoded)
  (second, rest') ← decode_value 1 0 rest
  let lat' = lat +ℤ delta_of first
  let lon' = lon +ℤ delta_of second
  points ← decode_from fuel lat' lon' rest'
  some ((lon', lat') ∷ points)

unfoldable pub decode_polyline6 : List ℕ → Option (List Coord)
unfolding decode_from
decode_polyline6 encoded = decode_from (length encoded) (pos 0) (pos 0) encoded

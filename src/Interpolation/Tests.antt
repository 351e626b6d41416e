-- ===== src/Interpolation/Tests.antt =====
-- A street of four houses, with natural numbers in the place of floats.
use geocoder_fwd.Prelude.{
  ℕ, ◌+◌, ◌-◌, ◌*◌, ◌/◌, ◌^◌, ◌≡◌, refl, Option, none, some, List, [], ◌∷◌, ltb, ◌==◌,
  if◌then◌else◌, leb,
}
use geocoder_fwd.Prelude.Int.{pos, pos_part}
use geocoder_fwd.Interpolation.{
  Text, Row, Address, odd, parse_rows, parse_housenumber, interpolation_confidence,
}
use geocoder_fwd.Interpolation.Brackets.{
  brackets, exact_match, neighbours, sort_by_number, lower_of_all, upper_of_all,
}
use geocoder_fwd.Interpolation.Brackets.Laws.{IsLower, IsUpper, brackets_nearest}
use geocoder_fwd.Interpolation.Line.{Floats, lerp}
use geocoder_fwd.Interpolation.Estimate.{
  Estimate, interpolated, interpolate_address, from_parsed, between,
}
use geocoder_fwd.Interpolation.Estimate.Laws.{answers, is_cons, interpolate_address-answers}

abbrev toy : Floats ℕ
toy = record {
  add = λ a b. a + b;
  sub = λ a b. a - b;
  mul = λ a b. a * b;
  div = λ a b. a / b;
  lit = pos_part;
  decimal = λ m k. m / 10 ^ k;
  lt = ltb;
  eq = λ a b. a == b;
  abs = λ a. a;
  sqrt = λ a. a;
  sin = λ a. a;
  cos = λ a. a;
  asin = λ a. a;
  radians = λ a. a;
  round = pos;
  round_to = λ a k. a;
}

abbrev digit : ℕ → Option (Option ℕ)
digit ch = if leb 48 ch then (if leb ch 57 then some (some (ch - 48)) else none) else none

abbrev house : Text → ℕ → Row ℕ
house number place = record {
  osm_id = place;
  housenumber = number;
  street = [];
  city = [];
  postcode = [];
  country = [];
  lat = place;
  lon = 0;
}

-- 11, 12, 19 bis and one that has no number.
abbrev houses : List (Row ℕ)
houses =
    house (49 ∷ 49 ∷ []) 100
    ∷ house (49 ∷ 50 ∷ []) 110
    ∷ house (49 ∷ 57 ∷ 98 ∷ []) 180
    ∷ house (98 ∷ []) 0
    ∷ []

abbrev numbered : List (Address ℕ)
numbered = (11, house [] 100) ∷ (12, house [] 110) ∷ (19, house [] 180) ∷ []

brackets_nearest_example :
    IsLower 15 numbered (brackets 15 numbered).0 × IsUpper 15 numbered (brackets 15 numbered).1
brackets_nearest_example = brackets_nearest 15 numbered

interpolate_address-answers_example :
    answers (interpolate_address toy (λ p. none) digit 15 none houses)
    ≡ is_cons (parse_rows digit houses)
interpolate_address-answers_example =
    interpolate_address-answers toy (λ p. none) digit 15 none houses

abbrev estimate : Estimate ℕ
estimate = record {
  housenumber = 15;
  street = [];
  city = [];
  postcode = [];
  country = [];
  lat = 100;
  lon = 0;
  match_type = interpolated;
  confidence = 75;
  side = odd;
  bracket_low = some 11;
  bracket_high = some 19;
  osm_id = none;
}

interpolate_15 : interpolate_address toy (λ p. none) digit 15 none houses ≡ some estimate
unfolding interpolate_address from_parsed exact_match between brackets neighbours sort_by_number
    lower_of_all upper_of_all parse_rows parse_housenumber lerp interpolation_confidence
interpolate_15 = refl

-- ===== src/Interpolation/Estimate.antt =====
-- shared/interpolation.py, `interpolate_address`, after the query of `_gather_addresses`.
pub mod Laws
use geocoder_fwd.Prelude.{
  ℕ, ◌+◌, ◌-◌, ◌≤◌, ◌<◌, Bool, true, false, not, ◌&&◌, ◌||◌, Option, none, some, List, [], ◌∷◌,
  ◌==◌, ltb, if◌then◌else◌, length,
}
use geocoder_fwd.Interpolation.{
  Text, Row, Address, Parity, parity, parse_rows, interpolation_confidence,
}
use geocoder_fwd.Interpolation.Brackets.{brackets, exact_match}
use geocoder_fwd.Interpolation.Line.{
  Floats, Point, nat, nearest_cluster, lerp, project_onto_line, point_at_fraction,
}

-- `match_type`
pub data MatchType : Type 0 where
  exact : MatchType
  interpolated : MatchType

-- `InterpolatedAddress`, with its confidence in hundredths.
pub record Estimate (F : Type 0) : Type 0 where
  pub housenumber : ℕ
  pub street : Text
  pub city : Text
  pub postcode : Text
  pub country : Text
  pub lat : F
  pub lon : F
  pub match_type : MatchType
  pub confidence : ℕ
  pub side : Parity
  pub bracket_low : Option ℕ
  pub bracket_high : Option ℕ
  pub osm_id : Option ℕ

module _ {F : Type 0} (m : Floats F) where
  abbrev pub exact_address : ℕ → Row F → Estimate F
  exact_address n row = record {
    housenumber = n;
    street = row.street;
    city = row.city;
    postcode = row.postcode;
    country = row.country;
    lat = row.lat;
    lon = row.lon;
    match_type = exact;
    confidence = 100;
    side = parity n;
    bracket_low = none;
    bracket_high = none;
    osm_id = some row.osm_id;
  }

  -- The result of the last step, with the texts of one row.
  abbrev pub estimated : ℕ → Row F → Point F → ℕ → Option ℕ → Option ℕ → Estimate F
  estimated n row place confidence low high = record {
    housenumber = n;
    street = row.street;
    city = row.city;
    postcode = row.postcode;
    country = row.country;
    lat = m.round_to place.0 7;
    lon = m.round_to place.1 7;
    match_type = interpolated;
    confidence = confidence;
    side = parity n;
    bracket_low = low;
    bracket_high = high;
    osm_id = none;
  }

  -- `(requested_hn - low_hn) / gap`; the code has a half for a gap of 0.
  abbrev pub share : ℕ → ℕ → ℕ → F
  share n low high =
      if high - low == 0 then m.decimal 5 1 else m.div (nat m (n - low)) (nat m (high - low))

  abbrev pub line_up : ℕ → Address F → Address F → Point F
  line_up n low high = lerp m low.1.lat low.1.lon high.1.lat high.1.lon (share n low.0 high.0)

  -- Step 5: the place on the street's line, or the estimate where there is none.
  abbrev pub snap_to : Option (Point F) → Point F → Point F
  snap_to none place = place
  snap_to (some snapped) place = snapped

  abbrev pub snap : Option (List (Point F)) → ℕ → Address F → Address F → Point F → Point F
  snap none n low high place = place
  snap (some line) n low high place =
      let frac_low : F = (project_onto_line m low.1.lat low.1.lon line).1 in
      let frac_high : F = (project_onto_line m high.1.lat high.1.lon line).1 in
      let gap : ℕ = high.0 - low.0 in
      let frac : F =
        if ltb 0 gap
        then m.add frac_low
            (m.mul (m.div (nat m (n - low.0)) (nat m gap)) (m.sub frac_high frac_low))
        else m.div (m.add frac_low frac_high) (nat m 2) in
      snap_to (point_at_fraction m line frac) place

  abbrev pub narrowed : Option (Point F) → List (Address F) → List (Address F)
  narrowed none parsed = parsed
  narrowed (some near) parsed =
      if ltb 1 (length parsed) then nearest_cluster m parsed near (nat m 2000) else parsed

  abbrev pub exact_or : Option (Address F) → ℕ → Option (Estimate F) → Option (Estimate F)
  exact_or (some a) n other = some (exact_address n a.1)
  exact_or none n other = other

  -- `_find_street_geometry` is an argument: the street's line near a place.
  module _ (street_line : Point F → Option (List (Point F))) where
    unfoldable pub between : ℕ → Option (Address F) → Option (Address F) → Option (Estimate F)
    between n none none = none
    between n (some low) (some high) =
        let place : Point F = line_up n low high in
        some (
          estimated n low.1 (snap (street_line place) n low high place)
            (interpolation_confidence (high.0 - low.0)) (some low.0) (some high.0))
    between n (some low) none = some (estimated n low.1 (low.1.lat, low.1.lon) 30 (some low.0) none)
    between n none (some high) =
        some (estimated n high.1 (high.1.lat, high.1.lon) 30 none (some high.0))

    unfoldable pub from_parsed : ℕ → List (Address F) → Option (Estimate F)
    from_parsed n parsed =
        exact_or (exact_match n parsed) n (between n (brackets n parsed).0 (brackets n parsed).1)

    -- Of the rows that `_gather_addresses` gives.
    unfoldable pub interpolate_address :
        (ℕ → Option (Option ℕ)) → ℕ → Option (Point F) → List (Row F) → Option (Estimate F)
    interpolate_address digit n near rows = from_parsed n (narrowed near (parse_rows digit rows))

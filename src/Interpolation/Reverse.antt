-- ===== src/Interpolation/Reverse.antt =====
-- shared/interpolation.py, `reverse_interpolate`, after its query.
pub mod Laws
use geocoder_fwd.Prelude.{
  ℕ, suc, ◌+◌, ◌-◌, ◌*◌, ◌/◌, ◌≤◌, ◌<◌, min, max, Bool, true, false, not, ◌&&◌, ◌||◌, Option, none,
  some, List, [], ◌∷◌, ◌==◌, ltb, if◌then◌else◌, length, take, map, count_where,
}
use geocoder_fwd.Prelude.Int.{ℤ, pos, negsuc, sub_ℕ}
use geocoder_fwd.Interpolation.{
  Text, Row, Address, Parity, odd, even, parity, parity_eq, parse_rows, interpolation_confidence,
}
use geocoder_fwd.Interpolation.Line.{Floats, Point, nat, square, project_onto_line}
use geocoder_fwd.Interpolation.Estimate.{Estimate, MatchType, estimated}

-- `max(1, z)`
abbrev pub at_least_one : ℤ → ℕ
at_least_one (pos n) = max 1 n
at_least_one (negsuc n) = 1

-- `max(set(parities), key=parities.count)`: the parity that most have. Where both have as many, the
-- order of the set decides, which changes from one run of Python to the next: the argument `tie`.
unfoldable pub dominant : Parity → List Parity → Parity
dominant tie parities =
    let odds : ℕ = count_where (parity_eq odd) parities in
    let evens : ℕ = count_where (parity_eq even) parities in
    if ltb evens odds then odd else if ltb odds evens then even else tie

-- To the number of the right parity: one up where the unrounded estimate is above, else one down, and
-- one up again where 1 stopped it.
unfoldable pub nudge : Parity → Bool → ℕ → ℕ
nudge side above est =
    let moved : ℕ = if above then est + 1 else max 1 (est - 1) in
    if parity_eq (parity est) side
    then est
    else if parity_eq (parity moved) side
    then moved
    else moved + 1

module _ {F : Type 0} (m : Floats F) where
  abbrev pub weighted : ℕ → ℕ → F → F
  weighted a b t = m.add (nat m a) (m.mul t (m.lit (sub_ℕ b a)))

  abbrev pub middle : ℕ → ℕ → F
  middle a b = m.div (nat m (a + b)) (nat m 2)

  abbrev pub distance : F → F → Row F → F
  distance lat lon row =
      m.sqrt (m.add (square m (m.sub lat row.lat)) (square m (m.sub lon row.lon)))

  -- The estimate before rounding, on the street's line or by the distances.
  unfoldable pub raw_number : F → F → Address F → Address F → Option (List (Point F)) → F
  raw_number lat lon a b (some line) =
      let frac_a : F = (project_onto_line m a.1.lat a.1.lon line).1 in
      let frac_b : F = (project_onto_line m b.1.lat b.1.lon line).1 in
      let frac_q : F = (project_onto_line m lat lon line).1 in
      let frac_range : F = m.sub frac_b frac_a in
      if m.lt (m.decimal 1 9) (m.abs frac_range)
      then weighted a.0 b.0 (m.div (m.sub frac_q frac_a) frac_range)
      else middle a.0 b.0
  raw_number lat lon a b none =
      let dist_a : F = distance lat lon a.1 in
      let dist_b : F = distance lat lon b.1 in
      let total : F = m.add dist_a dist_b in
      if m.lt total (m.decimal 1 12) then middle a.0 b.0 else weighted a.0 b.0 (m.div dist_a total)

  unfoldable pub reverse_number : Parity → List (Address F) → F → ℕ
  reverse_number tie addresses raw =
      let est : ℕ = at_least_one (m.round raw) in
      nudge (dominant tie (map (λ a. parity a.0) (take 6 addresses))) (m.lt (nat m est) raw) est

  abbrev pub gap_of : ℕ → ℕ → ℕ
  gap_of a b = max a b - min a b

  module _ (street_line : Text → F → F → Option (List (Point F))) (tie : Parity) (lat lon : F) where
    unfoldable pub from_addresses : List (Address F) → Option (Estimate F)
    from_addresses [] = none
    from_addresses (a ∷ []) = none
    from_addresses (a ∷ b ∷ rest) =
        let raw : F = raw_number lat lon a b (street_line a.1.street lat lon) in
        if a.0 == b.0
        then none
        else some (
            estimated m (reverse_number tie (a ∷ b ∷ rest) raw) a.1 (lat, lon)
              (interpolation_confidence (gap_of a.0 b.0) * 8 / 10) (some (min a.0 b.0))
              (some (max a.0 b.0)))

    -- Of the rows that the query gives, the nearest first. Fewer than two rows cannot give two numbers.
    unfoldable pub reverse_interpolate :
        (ℕ → Option (Option ℕ)) → List (Row F) → Option (Estimate F)
    reverse_interpolate digit rows =
        if ltb (length rows) 2 then none else from_addresses (parse_rows digit rows)

-- ===== src/Routing/Roundtrip.antt =====
-- services/routing.py, `_decode_polyline6`: it reads what the format's encoder writes.
use geocoder_fwd.Prelude.{
  ◌>>=◌, ℕ, zero, suc, ◌+◌, ◌*◌, ◌/◌, ◌%◌, ◌≡◌, ◌≤◌, ◌<◌, refl, ap, ◌∙◌, true, false, Option, some,
  List, [], ◌∷◌, ◌++◌, ◌==◌, ltb, if◌then◌else◌, length, Bool-cases, inl, inr, arith, length-append,
}
use geocoder_fwd.Prelude.Int.{ℤ, pos, negsuc, ◌+ℤ◌, ◌-ℤ◌, int_laws}
use geocoder_fwd.Routing.{decode_value, delta_of, Coord, decode_from, decode_polyline6}

-- The encoder of the format: groups of five bits from the lowest, each but the last marked by 32, on fuel.
unfoldable pub encode_groups : ℕ → ℕ → List ℕ
encode_groups zero n = (n + 63) ∷ []
encode_groups (suc fuel) n =
    let rest = encode_groups fuel (n / 32) in
    if ltb n 32 then (n + 63) ∷ [] else (n % 32 + 95) ∷ rest

-- The sign goes to the lowest bit.
unfoldable pub encode_value : ℤ → List ℕ
unfolding encode_groups
encode_value (pos n) = encode_groups (2 * n) (2 * n)
encode_value (negsuc n) = encode_groups (2 * n + 1) (2 * n + 1)

-- The differences from point to point.
unfoldable pub encode_from : ℤ → ℤ → List Coord → List ℕ
unfolding encode_value
encode_from lat lon [] = []
encode_from lat lon ((lon', lat') ∷ points) =
    encode_value (lat' -ℤ lat) ++ (encode_value (lon' -ℤ lon) ++ encode_from lat' lon' points)

split_32 : (n unit : ℕ) → n % 32 * unit + n / 32 * (unit * 32) ≡ n * unit
split_32 n unit =
    let whole : n % 32 + n / 32 * 32 ≡ n = omega arith in
    let spread : n % 32 * unit + n / 32 * (unit * 32) ≡ (n % 32 + n / 32 * 32) * unit =
      grind arith in
    spread ∙ ap (λ m. m * unit) whole

last_read :
    (n unit result : ℕ) (rest : List ℕ)
    → n < 32
    → decode_value unit result ((n + 63) ∷ rest) ≡ some (result + n * unit, rest)
unfolding decode_value
last_read n unit result rest h =
    let ends : ltb (n + 63) 95 ≡ true = ground (arith, h) in
    let low : (n + 63 + 1) % 32 ≡ n = omega (arith, h) in
    rw ends (ap (λ m. some (result + m * unit, rest)) low)

groups_read :
    (fuel n unit result : ℕ) (rest : List ℕ)
    → n ≤ fuel
    → decode_value unit result (encode_groups fuel n ++ rest) ≡ some (result + n * unit, rest)
unfolding decode_value encode_groups
groups_read zero n unit result rest h = last_read n unit result rest (omega arith)
groups_read (suc fuel) n unit result rest h = elim (Bool-cases (ltb n 32)) [
  | inl e ↦ rw e (last_read n unit result rest (ground (arith, e)))
  | inr e ↦
      let more : ltb (n % 32 + 95) 95 ≡ false = ground arith in
      let low : (n % 32 + 95 + 1) % 32 ≡ n % 32 = omega arith in
      let large : 32 ≤ n = ground (arith, e) in
      let fits : n / 32 ≤ fuel = omega (arith, h, large) in
      rw e (
        rw more (
          groups_read fuel (n / 32) (unit * 32) (result + (n % 32 + 95 + 1) % 32 * unit) rest fits
          ∙ ap (λ k. some (k, rest))
              (ap (λ m. result + m * unit + n / 32 * (unit * 32)) low
                ∙ omega (arith, split_32 n unit))))
]

value_read :
    (z : ℤ) (rest : List ℕ)
    → (n : ℕ) × (decode_value 1 0 (encode_value z ++ rest) ≡ some (n, rest)) × (delta_of n ≡ z)
unfolding encode_value delta_of
value_read (pos n) rest =
    let even : ((2 * n) % 2 == 1) ≡ false = ground arith in
    let half : 2 * n / 2 ≡ n = omega arith in
    (
      2 * n,
      groups_read (2 * n) (2 * n) 1 0 rest (omega arith) ∙ ap (λ k. some (k, rest)) (omega arith),
      rw even (ap pos half),
    )
value_read (negsuc n) rest =
    let odd : ((2 * n + 1) % 2 == 1) ≡ true = ground arith in
    let half : (2 * n + 1) / 2 ≡ n = omega arith in
    (
      2 * n + 1,
      groups_read (2 * n + 1) (2 * n + 1) 1 0 rest (omega arith)
          ∙ ap (λ k. some (k, rest)) (omega arith),
      rw odd (ap negsuc half),
    )

back : (a b : ℤ) → a +ℤ (b -ℤ a) ≡ b
back a b = grind int_laws

groups-length : (fuel n : ℕ) → 1 ≤ length (encode_groups fuel n)
unfolding encode_groups
groups-length zero n = omega arith
groups-length (suc fuel) n = elim (Bool-cases (ltb n 32)) [
  | inl e ↦ rw e (omega arith)
  | inr e ↦ rw e (omega arith)
]

value-length : (z : ℤ) → 1 ≤ length (encode_value z)
unfolding encode_value
value-length (pos n) = groups-length (2 * n) (2 * n)
value-length (negsuc n) = groups-length (2 * n + 1) (2 * n + 1)

-- One round of the outer loop.
round_read :
    (fuel : ℕ) (lat lon : ℤ) (text : List ℕ) (first second : ℕ) (rest rest' : List ℕ)
    (points : List Coord)
    → decode_value 1 0 text ≡ some (first, rest)
    → decode_value 1 0 rest ≡ some (second, rest')
    → decode_from fuel (lat +ℤ delta_of first) (lon +ℤ delta_of second) rest' ≡ some points
    → decode_from (suc fuel) lat lon text
      ≡ some ((lon +ℤ delta_of second, lat +ℤ delta_of first) ∷ points)
unfolding decode_from decode_value
round_read fuel lat lon [] first second rest rest' points a b c =
    let no : Option.none ≡ some (first, rest) = a in cc
round_read fuel lat lon (d ∷ text) first second rest rest' points a b c =
    rw (a, ◌>>=◌) (rw (b, ◌>>=◌) (rw (c, ◌>>=◌) refl))

points_read :
    (fuel : ℕ) (lat lon : ℤ) (points : List Coord)
    → length (encode_from lat lon points) ≤ fuel
    → decode_from fuel lat lon (encode_from lat lon points) ≡ some points
unfolding encode_from decode_from
points_read zero lat lon [] h = refl
points_read (suc fuel) lat lon [] h = refl
points_read zero lat lon ((lon', lat') ∷ points) h =
    let a = encode_value (lat' -ℤ lat) in
    let after = encode_value (lon' -ℤ lon) ++ encode_from lat' lon' points in
    absurd (omega (arith, h, value-length (lat' -ℤ lat), length-append a after))
points_read (suc fuel) lat lon ((lon', lat') ∷ points) h =
    let tail = encode_from lat' lon' points in
    let b = encode_value (lon' -ℤ lon) in
    let after = b ++ tail in
    let a = encode_value (lat' -ℤ lat) in
    let (n, lat_read, lat_value) = value_read (lat' -ℤ lat) after in
    let (m, lon_read, lon_value) = value_read (lon' -ℤ lon) tail in
    let at : lat +ℤ delta_of n ≡ lat' = ap (λ d. lat +ℤ d) lat_value ∙ back lat lat' in
    let at' : lon +ℤ delta_of m ≡ lon' = ap (λ d. lon +ℤ d) lon_value ∙ back lon lon' in
    let fits : length tail ≤ fuel =
      omega (arith, h, value-length (lat' -ℤ lat), length-append a after, length-append b tail) in
    let later : decode_from fuel (lat +ℤ delta_of n) (lon +ℤ delta_of m) tail ≡ some points =
      ap (λ x. decode_from fuel x (lon +ℤ delta_of m) tail) at
      ∙ ap (λ y. decode_from fuel lat' y tail) at'
      ∙ points_read fuel lat' lon' points fits in
    round_read fuel lat lon (a ++ after) n m after tail points lat_read lon_read later
    ∙ ap (λ x. some ((lon +ℤ delta_of m, x) ∷ points)) at
    ∙ ap (λ y. some ((y, lat') ∷ points)) at'

-- The decoder reads back every line that the encoder of the format writes, whatever its points.
pub decode_polyline6-encode_from :
    (points : List Coord) → decode_polyline6 (encode_from (pos 0) (pos 0) points) ≡ some points
unfolding decode_polyline6
decode_polyline6-encode_from points =
    points_read (length (encode_from (pos 0) (pos 0) points)) (pos 0) (pos 0) points (omega arith)

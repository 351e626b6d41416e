-- ===== src/Traffic/Speed/Encoding.antt =====
-- The speed that a record carries: rounding, clamping, the unknown record and its bytes.
use geocoder_fwd.Prelude.{
  ℕ, ◌+◌, ◌*◌, ◌/◌, ◌%◌, ◌^◌, ◌≤◌, ◌<◌, ◌≡◌, refl, ap, ◌∙◌, Option, none, some, bit_and, ◌⊎◌, ◌==◌,
  List, Dict, get_or, length, lookup, if◌then◌else◌, ltb, lt→ltb, ltb→lt, arith, Bool-cases, inl,
  inr,
}
use geocoder_fwd.Prelude.Bits.{low_mask, bit_and-low_mask}
use geocoder_fwd.Prelude.Int.{ℤ, pos, negsuc}
use geocoder_fwd.Traffic.Speed.{
  Kph, speed_fields, assemble_speed, round_half_even, round_ratio, encode_speed_raw, pack_speed,
  le_bytes, le_value, struct_pack_q, speed_to_bytes, overall_speed_kph,
}
use geocoder_fwd.Traffic.Speed.Layout.{packed, width, packed-lt, assemble_speed-packed}
use native.Mathlib.Nat.{mod-lt, div-add-mod}
use mathlib.Core.Option

-- The result is one of the two integers around `n / d`, on the side where the remainder lies.
pub round_half_even_cases :
    (n d : ℕ)
    → ((round_half_even n d ≡ n / d) × (2 * (n % d) ≤ d))
      ⊎ ((round_half_even n d ≡ n / d + 1) × (d ≤ 2 * (n % d)))
unfolding round_half_even
round_half_even_cases n d = elim (Bool-cases (ltb (2 * (n % d)) d)) [
  | inl low ↦ inl (rw low, ground arith)
  | inr high ↦ elim (Bool-cases (ltb d (2 * (n % d)))) [
    | inl above ↦ inr (rw high (rw above), ground arith)
    | inr half ↦ elim (Bool-cases (n / d % 2 == 0)) [
      | inl even ↦ inl (rw high (rw half (rw even)), ground arith)
      | inr odd ↦ inr (rw high (rw half (rw odd)), ground arith)
    ]
  ]
]

-- Rounding `n / d` misses by half a unit at most.
pub round_half_even_near :
    (n d : ℕ)
    → 0 < d
    → (2 * n ≤ 2 * (d * round_half_even n d) + d) × (2 * (d * round_half_even n d) ≤ 2 * n + d)
round_half_even_near n d h = elim (round_half_even_cases n d) [
  | inl (e, low) ↦ rw e (omega (arith, div-add-mod n d, mod-lt n h))
  | inr (e, high) ↦ rw e (omega (arith, div-add-mod n d, mod-lt n h))
]

-- A speed never takes the value that stands for no speed.
pub encode_speed_raw-le : (kph : Kph) → encode_speed_raw kph ≤ 126
unfolding encode_speed_raw
encode_speed_raw-le kph = ground arith

scale : (a b d : ℕ) → a ≤ b → d * a ≤ d * b
scale a b d h = grind arith

encode_speed_raw_pos :
    (n d : ℕ)
    → encode_speed_raw (record { num = pos n; den = d })
      ≡ (if ltb 126 (round_half_even n (2 * d)) then 126 else round_half_even n (2 * d))
unfolding encode_speed_raw round_ratio
encode_speed_raw_pos n d = ground arith

encode_speed_raw_negsuc : (n d : ℕ) → encode_speed_raw (record { num = negsuc n; den = d }) ≡ 0
unfolding encode_speed_raw round_ratio
encode_speed_raw_negsuc n d = ground arith

-- From 0 to 252 kph the stored speed, in units of 2 kph, is within 1 kph of the given one.
encode_speed_raw_near :
    (n d : ℕ)
    → 0 < d
    → n ≤ 252 * d
    → let raw = encode_speed_raw (record { num = pos n; den = d }) in
      (n ≤ 2 * raw * d + d) × (2 * raw * d ≤ n + d)
encode_speed_raw_near n d h k =
    let r : ℕ = round_half_even n (2 * d) in
    rw (encode_speed_raw_pos n d) (elim (Bool-cases (ltb 126 r)) [
      | inl over ↦ absurd (
          omega (
            arith,
            scale 127 r d (ltb→lt 126 r over),
            round_half_even_near n (2 * d) (omega arith),
          ))
      | inr fits ↦ rw fits (omega (arith, round_half_even_near n (2 * d) (omega arith)))
    ])

-- From 252 kph on the rounded value is at least the largest one.
round_half_even_high : (n d : ℕ) → 0 < d → 252 * d ≤ n → 126 ≤ round_half_even n (2 * d)
round_half_even_high n d h k =
    let r : ℕ = round_half_even n (2 * d) in
    elim (Bool-cases (ltb r 126)) [
      | inl low ↦ absurd (
          omega (arith, scale r 125 d (ground arith), round_half_even_near n (2 * d) (omega arith)))
      | inr high ↦ ground arith
    ]

-- Below zero the stored value is 0, and from 252 kph on it is 126.
encode_speed_raw_outside :
    (n m d : ℕ)
    → 0 < d
    → 252 * d ≤ m
    → (encode_speed_raw (record { num = negsuc n; den = d }) ≡ 0)
      × (encode_speed_raw (record { num = pos m; den = d }) ≡ 126)
encode_speed_raw_outside n m d h over = (
  encode_speed_raw_negsuc n d,
  rw (encode_speed_raw_pos m d) (ground (arith, round_half_even_high m d h over)),
)

overall_speed_kph-assemble_speed :
    (fields : Dict ℕ) (raw : ℕ)
    → lookup "overall_encoded_speed" fields ≡ some raw
    → raw < 2 ^ 7
    → overall_speed_kph (assemble_speed fields) ≡ (if raw == 127 then none else some (raw * 2))
unfolding overall_speed_kph packed
overall_speed_kph-assemble_speed fields raw found h =
    let low : bit_and (assemble_speed fields) (low_mask 7) ≡ raw =
      bit_and-low_mask 7 (assemble_speed fields)
      ∙ ap (λ t. t % 2 ^ 7) (assemble_speed-packed fields)
      ∙ omega (arith, ap (λ o. get_or 0 o % 2 ^ 7) found) in
    rw low

-- The speed read from a packed record: none for the unknown record, else twice the stored value.
overall_speed_kph-pack_speed :
    (kph : Option Kph) (congestion : ℤ)
    → overall_speed_kph (pack_speed kph congestion) ≡ Option.map (λ k. encode_speed_raw k * 2) kph
unfolding pack_speed lookup
overall_speed_kph-pack_speed none congestion =
    overall_speed_kph-assemble_speed _ 127 refl (omega arith)
overall_speed_kph-pack_speed (some k) congestion =
    let raw : ℕ = encode_speed_raw k in
    overall_speed_kph-assemble_speed _ raw refl (omega (arith, encode_speed_raw-le k))
    ∙ ground (arith, encode_speed_raw-le k)

pack_speed-lt : (kph : Option Kph) (congestion : ℤ) → pack_speed kph congestion < 2 ^ 64
unfolding pack_speed width
pack_speed-lt none congestion = rw assemble_speed-packed (packed-lt speed_fields _)
pack_speed-lt (some k) congestion = rw assemble_speed-packed (packed-lt speed_fields _)

pub speed_to_bytes_lem :
    (kph : Option Kph) (congestion : ℤ)
    → speed_to_bytes kph congestion ≡ some (le_bytes 8 (pack_speed kph congestion))
unfolding speed_to_bytes struct_pack_q
speed_to_bytes_lem kph congestion =
    rw (lt→ltb (pack_speed kph congestion) (2 ^ 64) (pack_speed-lt kph congestion))

-- Every speed has its eight bytes: `struct.pack` never raises, and the bytes, lowest first, stand
-- for the packed record.
speed_to_bytes_total :
    (kph : Option Kph) (congestion : ℤ)
    → (bytes : List ℕ) × (speed_to_bytes kph congestion ≡ some bytes)
      × (length bytes ≡ 8)
      × (le_value bytes ≡ pack_speed kph congestion)
unfolding le_bytes le_value
speed_to_bytes_total kph congestion =
    let v : ℕ = pack_speed kph congestion in
    let fits : v < 2 ^ 64 = pack_speed-lt kph congestion in
    (le_bytes 8 v, speed_to_bytes_lem kph congestion, refl, omega arith)

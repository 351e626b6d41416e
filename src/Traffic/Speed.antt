-- ===== src/Traffic/Speed.antt =====
-- shared/traffic_tile.py, lines 88-189: the 64-bit speed record of an edge. `Layout` has the
-- packing as arithmetic, `Roundtrip` both round trips, `Encoding` the speed of a record.
pub mod Layout
pub mod Roundtrip
pub mod Encoding
use geocoder_fwd.Prelude.{
  ℕ, ◌+◌, ◌*◌, ◌/◌, ◌%◌, ◌^◌, Bool, bit_and, bit_or, Option, none, some, List, [], ◌∷◌, String,
  Dict, lookup, get_or, ltb, ◌==◌, if◌then◌else◌,
}
use geocoder_fwd.Prelude.Bits.{low_mask, shr, shl}
use geocoder_fwd.Prelude.Int.{ℤ, pos, negsuc, pos_part, sub_ℕ, ltb_ℤ}

-- Field names and widths, from the lowest bit up.
abbrev pub Table : Type 0
Table = List (String × ℕ)

abbrev pub speed_fields : Table
speed_fields =
    ("overall_encoded_speed", 7)
    ∷ ("encoded_speed1", 7)
    ∷ ("encoded_speed2", 7)
    ∷ ("encoded_speed3", 7)
    ∷ ("breakpoint1", 8)
    ∷ ("breakpoint2", 8)
    ∷ ("congestion1", 6)
    ∷ ("congestion2", 6)
    ∷ ("congestion3", 6)
    ∷ ("has_incidents", 1)
    ∷ ("spare", 1)
    ∷ []

abbrev pub unknown_speed_raw : ℕ
unknown_speed_raw = 127

abbrev pub max_speed_raw : ℕ
max_speed_raw = 126

abbrev pub speed_record_size : ℕ
speed_record_size = 8

abbrev pub header_size : ℕ
header_size = 32

-- The loop of `_assemble_speed` over the fields, with `value` and `shift`.
unfoldable pub assemble_from : Table → Dict ℕ → ℕ → ℕ → ℕ
assemble_from [] fields value shift = value
assemble_from ((name, bits) ∷ table) fields value shift =
    let part = bit_and (get_or 0 (lookup name fields)) (low_mask bits) in
    assemble_from table fields (bit_or value (shl part shift)) (shift + bits)

unfoldable pub assemble_speed : Dict ℕ → ℕ
assemble_speed fields = assemble_from speed_fields fields 0 0

-- The loop of `unpack_speed`. The names of the table differ, so each round adds a new key.
unfoldable pub unpack_from : Table → ℕ → ℕ → Dict ℕ
unpack_from [] value shift = []
unpack_from ((name, bits) ∷ table) value shift =
    (name, bit_and (shr value shift) (low_mask bits)) ∷ unpack_from table value (shift + bits)

unfoldable pub unpack_speed : ℕ → Dict ℕ
unpack_speed value = unpack_from speed_fields value 0

-- A finite float is a ratio of integers, as `float.as_integer_ratio` has it: `num / den` kph.
pub record Kph : Type 0 where
  pub num : ℤ
  pub den : ℕ

-- Python's `round` on `n / d`: to the nearest integer, a half to the even one.
unfoldable pub round_half_even : ℕ → ℕ → ℕ
round_half_even n d =
    let q = n / d in
    let r = n % d in
    if ltb (2 * r) d then q else if ltb d (2 * r) then q + 1 else if q % 2 == 0 then q else q + 1

-- `round` is symmetric in the sign.
unfoldable pub round_ratio : ℤ → ℕ → ℤ
round_ratio (pos n) d = pos (round_half_even n d)
round_ratio (negsuc n) d = sub_ℕ 0 (round_half_even (n + 1) d)

-- `int(round(kph / 2.0))`, clamped.
unfoldable pub encode_speed_raw : Kph → ℕ
encode_speed_raw kph =
    let raw = round_ratio kph.num (2 * kph.den) in
    let raw' = if ltb_ℤ raw (pos 0) then pos 0 else raw in
    pos_part (if ltb_ℤ (pos max_speed_raw) raw' then pos max_speed_raw else raw')

-- `max(0, min(63, int(congestion)))`
unfoldable pub clamp_congestion : ℤ → ℕ
clamp_congestion c = if ltb 63 (pos_part c) then 63 else pos_part c

-- `kph=None` is `none`.
unfoldable pub pack_speed : Option Kph → ℤ → ℕ
pack_speed none congestion =
    assemble_speed
      (("overall_encoded_speed", unknown_speed_raw) ∷ ("encoded_speed1", unknown_speed_raw) ∷ [])
pack_speed (some kph) congestion =
    let raw = encode_speed_raw kph in
    assemble_speed (
      ("overall_encoded_speed", raw)
      ∷ ("encoded_speed1", raw)
      ∷ ("breakpoint1", 255)
      ∷ ("congestion1", clamp_congestion congestion)
      ∷ [])

-- `n` bytes, the lowest first.
unfoldable pub le_bytes : ℕ → ℕ → List ℕ
le_bytes ℕ.zero v = []
le_bytes (ℕ.suc n) v = v % 256 ∷ le_bytes n (v / 256)

-- The number that bytes stand for, the lowest first, as `struct.unpack` reads it.
unfoldable pub le_value : List ℕ → ℕ
le_value [] = 0
le_value (b ∷ bs) = b + 256 * le_value bs

-- `struct.pack("<Q", v)`, which raises outside the range of an unsigned 64-bit integer.
unfoldable pub struct_pack_q : ℕ → Option (List ℕ)
struct_pack_q v = if ltb v (2 ^ 64) then some (le_bytes 8 v) else none

unfoldable pub speed_to_bytes : Option Kph → ℤ → Option (List ℕ)
speed_to_bytes kph congestion = struct_pack_q (pack_speed kph congestion)

-- The speed in kph, a whole number; `None` for the unknown record.
unfoldable pub overall_speed_kph : ℕ → Option ℕ
overall_speed_kph value =
    let raw = bit_and value (low_mask 7) in
    if raw == unknown_speed_raw then none else some (raw * 2)

unfoldable pub edge_record_offset : ℕ → ℕ → ℕ
edge_record_offset tile_data_offset edge_index =
    tile_data_offset + header_size + edge_index * speed_record_size

-- ===== src/Traffic/Tests.antt =====
-- shared/traffic_tile.py and services/traffic_writer.py: the results at concrete tiles and edges.
use geocoder_fwd.Prelude.{
  ℕ, ◌+◌, ◌%◌, ◌≡◌, ◌≢◌, ◌⊎◌, inl, inr, refl, ap, Bool-cases, ◌==◌, true, none, some, List, [], ◌∷◌,
  map, Dict, arith,
}
use geocoder_fwd.Prelude.Int.{pos}
use geocoder_fwd.Traffic.GraphId.{decode_graphid, encode_graphid, tile_base_id, decode-encode}
use geocoder_fwd.Traffic.Speed.{
  Kph, speed_fields, assemble_speed, unpack_speed, speed_to_bytes, edge_record_offset,
}
use geocoder_fwd.Traffic.Speed.Layout.{field_part}
use geocoder_fwd.Traffic.Speed.Roundtrip.{unpack_speed-assemble_speed}
use geocoder_fwd.Traffic.Writer.Memory.{Mmap, read}
use geocoder_fwd.Traffic.Writer.Defs.{
  TarIndex, find_tile, write_edge, pack_header_last_update, Redis, reading, cycle,
}
use geocoder_fwd.Traffic.Writer.Records.{write_edge_found}
use geocoder_fwd.Traffic.Writer.Cycle.{TilesDisjoint, cycle_leaves_others}
use mathlib.Core.Option.{none-ne-some}

decode-encode_example : decode_graphid (encode_graphid 9 5 7) ≡ (1, 5, 7)
decode-encode_example = decode-encode 9 5 7

abbrev some_fields : Dict ℕ
some_fields = ("overall_encoded_speed", 30) ∷ ("congestion1", 70) ∷ []

unpack_speed-assemble_speed_example :
    unpack_speed (assemble_speed some_fields)
    ≡ map (λ f. (f.0, field_part f.1 f.0 some_fields)) speed_fields
unpack_speed-assemble_speed_example = unpack_speed-assemble_speed some_fields

abbrev slow : Kph
slow = record { num = pos 101; den = 2 }

abbrev three : List ℕ
three = 1 ∷ 2 ∷ 3 ∷ []

-- Two tiles of one edge each, one after the other.
abbrev two_tiles : TarIndex
two_tiles = (8, (0, 1)) ∷ (17, (40, 1)) ∷ []

abbrev empty_file : Mmap
empty_file = record { size = 80; byte = λ i. 0 }

found : find_tile (tile_base_id 8) two_tiles ≡ some (0, 1)
unfolding find_tile tile_base_id
found = refl

first_edge : (decode_graphid 8).2 ≡ 0
unfolding decode_graphid
first_edge = refl

first_offset : edge_record_offset 0 (decode_graphid 8).2 ≡ 32
unfolding decode_graphid edge_record_offset
first_offset = refl

write_edge_found_example :
    (mm' : Mmap) × (write_edge two_tiles 1000 8 (some slow) (pos 3) empty_file ≡ (some true, mm'))
    × (speed_to_bytes (some slow) (pos 3)
        ≡ some (read 8 (edge_record_offset 0 (decode_graphid 8).2) mm'.byte))
    × (pack_header_last_update 1000 ≡ some (read 8 (0 + 8) mm'.byte))
    × (mm'.size ≡ 80)
    × (mm'.byte 60 ≡ 0)
write_edge_found_example =
    write_edge_found two_tiles 1000 8 (some slow) (pos 3) empty_file 0 1 60 found
      (omega (arith, first_edge)) (omega arith) (omega arith) (inr (omega (arith, first_offset)))
      (inr (omega arith))

no_tile : find_tile (tile_base_id 24) two_tiles ≡ none
unfolding find_tile tile_base_id
no_tile = refl

some_path : {p q : ℕ × ℕ} → some p ≡ some q → (p.0 ≡ q.0) × (p.1 ≡ q.1)
some_path {p} {q} e = let same : p ≡ q = cc in (ap (λ r. r.0) same, ap (λ r. r.1) same)

two_tiles-cases :
    (b off n : ℕ)
    → find_tile b two_tiles ≡ some (off, n)
    → ((b ≡ 8) × ((0 ≡ off) × (1 ≡ n))) ⊎ ((b ≡ 17) × ((40 ≡ off) × (1 ≡ n)))
unfolding find_tile
two_tiles-cases b off n e = elim (Bool-cases (8 == b)) [
  | inl first ↦ inl (ground (arith, first), some_path (rw first at e))
  | inr other ↦ elim (Bool-cases (17 == b)) [
    | inl second ↦ inr (ground (arith, second), some_path (rw second at (rw other at e)))
    | inr none_left ↦ absurd (none-ne-some _ (rw none_left at (rw other at e)))
  ]
]

two_tiles-TilesDisjoint : TilesDisjoint two_tiles
two_tiles-TilesDisjoint b b' off off' n n' e e' apart =
    ground (arith, two_tiles-cases b off n e, two_tiles-cases b' off' n' e', apart)

-- One expired edge of tile 8 and a fresh one of tile 17; nothing is remembered of what is deleted.
abbrev replies : Redis
replies = record {
  State = ℕ;
  expired = λ cutoff r. 8 ∷ [];
  fresh = λ cutoff r. 17 ∷ [];
  hgetall = λ gid r. reading slow (pos 3);
  delete = λ gid r. r;
  zrem = λ gids r. r;
}

second_tile : find_tile 17 two_tiles ≡ some (40, 1)
unfolding find_tile
second_tile = refl

odd : 17 % 2 ≢ 0
odd e = absurd (omega (arith, e))

cycle_leaves_others_example :
    (cycle replies two_tiles 1000 2 0 900 0 empty_file).1.byte 50 ≡ empty_file.byte 50
cycle_leaves_others_example =
    cycle_leaves_others replies two_tiles 1000 2 0 900 0 empty_file two_tiles-TilesDisjoint 17 40 1
      50 second_tile odd (omega arith) (omega arith)

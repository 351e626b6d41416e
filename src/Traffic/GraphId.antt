-- ===== src/Traffic/GraphId.antt =====
-- shared/traffic_tile.py, lines 50-85: the 64-bit id of a directed edge. Python's ints are
-- unbounded; an id is never negative, so it is a natural number.
use geocoder_fwd.Prelude.{ℕ, ◌+◌, ◌*◌, ◌/◌, ◌%◌, ◌^◌, ◌≡◌, ◌↔◌, bit_and, bit_or, arith, triple_path}
use geocoder_fwd.Prelude.Bits.{low_mask, shr, shl, bit_and-low_mask, bit_or-shl}

abbrev pub level_bits : ℕ
level_bits = 3

abbrev pub tileid_bits : ℕ
tileid_bits = 22

abbrev pub index_bits : ℕ
index_bits = 25

abbrev pub level_mask : ℕ
level_mask = low_mask level_bits

abbrev pub tileid_mask : ℕ
tileid_mask = low_mask tileid_bits

abbrev pub index_mask : ℕ
index_mask = low_mask index_bits

abbrev pub tile_base_mask : ℕ
tile_base_mask = low_mask (level_bits + tileid_bits)

unfoldable pub decode_graphid : ℕ → ℕ × ℕ × ℕ
decode_graphid value = (
  bit_and value level_mask,
  bit_and (shr value level_bits) tileid_mask,
  bit_and (shr value (level_bits + tileid_bits)) index_mask,
)

unfoldable pub encode_graphid : ℕ → ℕ → ℕ → ℕ
encode_graphid level tileid index =
    bit_or (bit_or (bit_and level level_mask) (shl (bit_and tileid tileid_mask) level_bits))
      (shl (bit_and index index_mask) (level_bits + tileid_bits))

unfoldable pub tile_base_id : ℕ → ℕ
tile_base_id value = bit_and value tile_base_mask

-- The three operations as arithmetic.
pub decode_graphid_lem :
    (v : ℕ) → decode_graphid v ≡ (v % 2 ^ 3, v / 2 ^ 3 % 2 ^ 22, v / 2 ^ 25 % 2 ^ 25)
unfolding decode_graphid
decode_graphid_lem v =
    triple_path (bit_and-low_mask 3 v) (bit_and-low_mask 22 (v / 2 ^ 3))
      (bit_and-low_mask 25 (v / 2 ^ 25))

pub encode_graphid_lem :
    (l t i : ℕ) → encode_graphid l t i ≡ l % 2 ^ 3 + t % 2 ^ 22 * 2 ^ 3 + i % 2 ^ 25 * 2 ^ 25
unfolding encode_graphid
encode_graphid_lem l t i = rw (bit_and-low_mask 3 l) (
    rw (bit_and-low_mask 22 t) (
      rw (bit_and-low_mask 25 i) (
        rw (bit_or-shl 3 (l % 2 ^ 3) (t % 2 ^ 22) (omega arith))
          (bit_or-shl 25 (l % 2 ^ 3 + t % 2 ^ 22 * 2 ^ 3) (i % 2 ^ 25) (omega arith)))))

pub tile_base_id_lem : (v : ℕ) → tile_base_id v ≡ v % 2 ^ 25
unfolding tile_base_id
tile_base_id_lem v = bit_and-low_mask 25 v

-- Decoding a packed id gives each component, reduced to its width.
pub decode-encode :
    (l t i : ℕ) → decode_graphid (encode_graphid l t i) ≡ (l % 2 ^ 3, t % 2 ^ 22, i % 2 ^ 25)
decode-encode l t i =
    rw (encode_graphid_lem l t i)
      (rw decode_graphid_lem (triple_path (omega arith) (omega arith) (omega arith)))

-- Packing the three components of an id gives back its low 50 bits, so the id itself if it has no
-- others.
encode-decode : (v : ℕ) → let (l, t, i) = decode_graphid v in encode_graphid l t i ≡ v % 2 ^ 50
encode-decode v = rw (decode_graphid_lem v) (rw encode_graphid_lem (omega arith))

-- The base id is the id of edge 0 of the same tile, and two ids have one base id exactly when they
-- agree in level and in tile.
pub tile_base_id-tile :
    (u v : ℕ)
    → (tile_base_id v ≡ encode_graphid (decode_graphid v).0 (decode_graphid v).1 0)
      × ((tile_base_id u ≡ tile_base_id v) ↔ (
          ((decode_graphid u).0 ≡ (decode_graphid v).0)
          × ((decode_graphid u).1 ≡ (decode_graphid v).1)))
tile_base_id-tile u v = rw (tile_base_id_lem u) (
    rw (tile_base_id_lem v) (
      rw (decode_graphid_lem u) (
        rw (decode_graphid_lem v) (
          rw encode_graphid_lem
            (omega arith, ((λ e. (omega arith, omega arith)), (λ e. omega arith)))))))

-- ===== src/Traffic/Writer/Shards.antt =====
-- `_resolve_shard` and `owns` of services/traffic_writer.py: which replica writes which edges.
use geocoder_fwd.Prelude.{
  ℕ, ◌%◌, ◌<◌, ◌≡◌, Bool, true, ◌&&◌, Option, none, some, ◌==◌, if◌then◌else◌, arith, ap, ◌↔◌,
}
use geocoder_fwd.Prelude.Int.{ℤ, pos, pos_part, ltb_ℤ, leb_ℤ}
use geocoder_fwd.Traffic.GraphId.{tile_base_id, decode_graphid, tile_base_id-tile}
use native.Mathlib.Nat.{mod-lt}

-- The numbers of shards and of this replica, as configured; `none` is the `SystemExit`. The index
-- comes from the setting or from the hostname's ordinal, both read as an integer.
unfoldable pub resolve_shard : ℤ → ℤ → Option (ℕ × ℕ)
resolve_shard configured index =
    let shards = if leb_ℤ configured (pos 1) then pos 1 else configured in
    if leb_ℤ (pos 0) index && ltb_ℤ index shards
    then some (pos_part shards, pos_part index)
    else none

unfoldable pub owns : ℕ → ℕ → ℕ → Bool
owns shards shard_index gid = tile_base_id gid % shards == shard_index

-- A replica that starts has an index below a positive number of shards.
resolve_shard_range :
    (configured index : ℤ) (shards shard_index : ℕ)
    → resolve_shard configured index ≡ some (shards, shard_index)
    → shard_index < shards
unfolding resolve_shard
resolve_shard_range configured index shards shard_index e = ground arith

-- With the same number of shards, every edge has exactly one owner, a replica that passes the
-- start-up check.
owns_once :
    (shards gid : ℕ)
    → 0 < shards
    → (owner : ℕ) × (resolve_shard (pos shards) (pos owner) ≡ some (shards, owner))
      × ((shard_index : ℕ) → (owns shards shard_index gid ≡ true) ↔ (shard_index ≡ owner))
unfolding owns resolve_shard
owns_once shards gid h =
    let base : ℕ = tile_base_id gid in
    (base % shards, ground (arith, mod-lt base h), λ i. (λ e. ground arith, λ e. ground arith))

-- Two edges of one tile are owned by the same replicas.
owns-tile :
    (shards shard_index u v : ℕ)
    → (decode_graphid u).0 ≡ (decode_graphid v).0
    → (decode_graphid u).1 ≡ (decode_graphid v).1
    → owns shards shard_index u ≡ owns shards shard_index v
unfolding owns
owns-tile shards shard_index u v p q =
    ap (λ t. t % shards == shard_index) (((tile_base_id-tile u v).1).1 (p, q))

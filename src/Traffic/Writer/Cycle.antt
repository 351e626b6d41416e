-- ===== src/Traffic/Writer/Cycle.antt =====
-- Which bytes of the file a round of one replica writes, also when it is cut short.
use geocoder_fwd.Prelude.{
  ℕ, ◌+◌, ◌*◌, ◌%◌, ◌≤◌, ◌<◌, ◌≡◌, ◌≢◌, refl, ap, ◌∙◌, sym, true, Option, none, some, List, [], ◌∷◌,
  length, filter, All, All-flatten, All-filter, All-map, ltb, leb, if◌then◌else◌, arith, ◌⊎◌, inl,
  inr, Bool-cases, Option-cases, ==_iff,
}
use geocoder_fwd.Prelude.Int.{ℤ, pos}
use geocoder_fwd.Traffic.GraphId.{tile_base_id, decode_graphid}
use geocoder_fwd.Traffic.Speed.{Kph, le_bytes, struct_pack_q, pack_speed, edge_record_offset}
use geocoder_fwd.Traffic.Speed.Encoding.{speed_to_bytes_lem}
use geocoder_fwd.Traffic.Writer.Memory.{Mmap, write_from_outside}
use geocoder_fwd.Traffic.Writer.Chunks.{chunks, flatten-chunks}
use geocoder_fwd.Traffic.Writer.Shards.{owns}
use geocoder_fwd.Traffic.Writer.Defs.{
  TarIndex, find_tile, M, continue, store, pack_header_last_update, write_record, write_edge, Hash,
  absent, malformed, reading, Redis, revert_batch, write_batch, revert_loop, write_loop, cycle,
  write_one, delete_all, write_fresh,
}
use geocoder_fwd.Traffic.Writer.Records.{Outside, length-le_bytes, edge_record_offset_lem}

-- Byte `j` of the file keeps its value `x`, whether or not the action raises.
abbrev Keeps : {A : Type 0} → ℕ → ℕ → M A → Type 0
Keeps j x m = (mm : Mmap) → mm.byte j ≡ x → (m mm).1.byte j ≡ x

module _ (j x : ℕ) where
  continue-Keeps :
      {A B : Type 0} (f : A → M B) (r : Option A × Mmap)
      → ((a : A) → Keeps j x (f a))
      → r.1.byte j ≡ x
      → (continue f r).1.byte j ≡ x
  continue-Keeps f (none, mm) later e = e
  continue-Keeps f (some a, mm) later e = later a mm e

  store-Keeps :
      (off : ℕ) (bytes : List ℕ) → Outside off (length bytes) j → Keeps j x (store off bytes)
  unfolding store
  store-Keeps off bytes away mm e = elim (Bool-cases (leb (off + length bytes) mm.size)) [
    | inl fits ↦ rw fits (write_from_outside bytes off mm.byte j away ∙ e)
    | inr cut ↦ rw cut e
  ]

  write_record-Keeps :
      (now data_off i : ℕ) (kph : Option Kph) (congestion : ℤ)
      → Outside (edge_record_offset data_off i) 8 j
      → Outside (data_off + 8) 8 j
      → Keeps j x (write_record now data_off i kph congestion)
  unfolding write_record pack_header_last_update struct_pack_q
  write_record-Keeps now data_off i kph congestion away away' mm e =
      let speed = pack_speed kph congestion in
      rw (speed_to_bytes_lem kph congestion) (
        continue-Keeps _ (store (edge_record_offset data_off i) (le_bytes 8 speed) mm)
          (λ _. λ mm' e'. elim (Bool-cases (ltb now 18446744073709551616)) [
            | inl dated ↦ rw dated (
                continue-Keeps _ (store (data_off + 8) (le_bytes 8 now) mm') (λ _. λ mm'' e''. e'')
                  (store-Keeps (data_off + 8) (le_bytes 8 now)
                    (omega (arith, length-le_bytes 8 now)) mm' e'))
            | inr late ↦ rw late e'
          ])
          (store-Keeps (edge_record_offset data_off i) (le_bytes 8 speed)
            (omega (arith, length-le_bytes 8 speed)) mm e))

not_owned :
    (shards shard_index base : ℕ)
    → base % shards ≢ shard_index
    → (gid : ℕ) → owns shards shard_index gid ≡ true
    → tile_base_id gid ≢ base
unfolding owns
not_owned shards shard_index base other gid mine same =
    other
      (ap (λ t. t % shards) (sym same) ∙ (==_iff (tile_base_id gid % shards) shard_index).0 mine)

-- The edges that a replica picks are in no tile of another one, batch by batch.
batches-Others :
    (shards shard_index base : ℕ) (gids : List ℕ)
    → base % shards ≢ shard_index
    → All
        (All (λ gid. tile_base_id gid ≢ base))
        (chunks (filter (owns shards shard_index) gids) 500)
batches-Others shards shard_index base gids other =
    let mine = filter (owns shards shard_index) gids in
    All-flatten (λ gid. tile_base_id gid ≢ base) (chunks mine 500)
      (rw (flatten-chunks mine 500 (omega arith)).0 (
        All-map (λ gid. owns shards shard_index gid ≡ true) (λ gid. tile_base_id gid ≢ base)
          (not_owned shards shard_index base other) mine
          (All-filter (owns shards shard_index) gids)))

-- No two tiles of the extract overlap.
abbrev pub TilesDisjoint : TarIndex → Type 0
TilesDisjoint index =
    (b b' off off' n n' : ℕ)
    → find_tile b index ≡ some (off, n)
    → find_tile b' index ≡ some (off', n')
    → b ≢ b'
    → (off + 32 + n * 8 ≤ off') ⊎ (off' + 32 + n' * 8 ≤ off)

module _ (index : TarIndex) (apart : TilesDisjoint index) (base off n : ℕ) where
  module _ (at : find_tile base index ≡ some (off, n)) (j x : ℕ) where
    module _ (lo : off ≤ j) (hi : j < off + 32 + n * 8) where
      -- A write for an edge of another tile.
      write_edge-Keeps :
          (now gid : ℕ) (kph : Option Kph) (congestion : ℤ)
          → tile_base_id gid ≢ base
          → Keeps j x (write_edge index now gid kph congestion)
      unfolding write_edge
      write_edge-Keeps now gid kph congestion other mm e =
          elim (Option-cases (find_tile (tile_base_id gid) index)) [
            | inl missing ↦ rw (missing, write_edge) e
            | inr ((off', n'), found) ↦
                let i : ℕ = (decode_graphid gid).2 in
                let place = edge_record_offset_lem off' i in
                rw (found, write_edge)
                  (elim (Bool-cases (leb n' i)) [
                    | inl stale ↦ rw stale e
                    | inr live ↦
                        let inside : i < n' = ground arith in
                        rw live (elim (apart (tile_base_id gid) base off' off n' n found at other) [
                          | inl before ↦
                              write_record-Keeps j x now off' i kph congestion
                                (omega (arith, place)) (omega arith) mm e
                          | inr after ↦
                              write_record-Keeps j x now off' i kph congestion
                                (omega (arith, place)) (omega arith) mm e
                        ])
                  ])
          ]

      abbrev Others : List ℕ → Type 0
      Others = All (λ gid. tile_base_id gid ≢ base)

      revert_batch-Keeps :
          (now : ℕ) (batch : List ℕ) (reverted : ℕ)
          → Others batch
          → Keeps j x (revert_batch index now batch reverted)
      unfolding revert_batch
      revert_batch-Keeps now [] reverted h mm e = e
      revert_batch-Keeps now (gid ∷ batch) reverted (other, h) mm e =
          continue-Keeps j x _ (write_edge index now gid none (pos 0) mm)
            (λ ok. revert_batch-Keeps now batch (if ok then reverted + 1 else reverted) h)
            (write_edge-Keeps now gid none (pos 0) other mm e)

      write_one-Keeps :
          (now gid : ℕ) (h : Hash) (counts : ℕ × ℕ)
          → tile_base_id gid ≢ base
          → Keeps j x (write_one index now gid h counts)
      unfolding write_one
      write_one-Keeps now gid absent counts other mm e = e
      write_one-Keeps now gid malformed counts other mm e = e
      write_one-Keeps now gid (reading kph congestion) counts other mm e =
          continue-Keeps j x _ (write_edge index now gid (some kph) congestion mm)
            (λ ok. λ mm' e'. e') (write_edge-Keeps now gid (some kph) congestion other mm e)

      write_batch-Keeps :
          (now : ℕ) (hashes : ℕ → Hash) (batch : List ℕ) (counts : ℕ × ℕ)
          → Others batch
          → Keeps j x (write_batch index now hashes batch counts)
      unfolding write_batch
      write_batch-Keeps now hashes [] counts h mm e = e
      write_batch-Keeps now hashes (gid ∷ batch) counts (other, h) mm e =
          continue-Keeps j x _ (write_one index now gid (hashes gid) counts mm)
            (λ counts'. write_batch-Keeps now hashes batch counts' h)
            (write_one-Keeps now gid (hashes gid) counts other mm e)

      module _ (redis : Redis) (now : ℕ) where
        revert_loop-Keeps :
            (batches : List (List ℕ)) (reverted : ℕ) (r : redis.State) (mm : Mmap)
            → All Others batches
            → mm.byte j ≡ x
            → (revert_loop redis index now batches reverted r mm).1.byte j ≡ x
        unfolding revert_loop
        revert_loop-Keeps [] reverted r mm h e = e
        revert_loop-Keeps (batch ∷ batches) reverted r mm (other, h) e =
            let mm' = (revert_batch index now batch reverted mm).1 in
            let kept = revert_batch-Keeps now batch reverted other mm e in
            elim (Option-cases (revert_batch index now batch reverted mm).0) [
              | inl raised ↦ rw (raised, revert_loop) kept
              | inr (k, done) ↦
                  rw (done, revert_loop)
                    (revert_loop-Keeps batches k
                      (redis.zrem batch (delete_all redis index now batch r)) mm' h kept)
            ]

        write_loop-Keeps :
            (batches : List (List ℕ)) (counts : ℕ × ℕ) (r : redis.State) (mm : Mmap)
            → All Others batches
            → mm.byte j ≡ x
            → (write_loop redis index now batches counts r mm).1.byte j ≡ x
        unfolding write_loop
        write_loop-Keeps [] counts r mm h e = e
        write_loop-Keeps (batch ∷ batches) counts r mm (other, h) e =
            let hashes = λ (gid : ℕ). redis.hgetall gid r in
            let kept = write_batch-Keeps now hashes batch counts other mm e in
            elim (Option-cases (write_batch index now hashes batch counts mm).0) [
              | inl raised ↦ rw (raised, write_loop) kept
              | inr (c, done) ↦
                  rw (done, write_loop)
                    (write_loop-Keeps batches c r (write_batch index now hashes batch counts mm).1 h
                      kept)
            ]

        write_fresh-Keeps :
            (shards shard_index cutoff reverted : ℕ) (r : redis.State) (mm : Mmap)
            → base % shards ≢ shard_index
            → mm.byte j ≡ x
            → (write_fresh redis index now shards shard_index cutoff reverted r mm).1.byte j ≡ x
        unfolding write_fresh
        write_fresh-Keeps shards shard_index cutoff reverted r mm other e =
            let batches = chunks (filter (owns shards shard_index) (redis.fresh cutoff r)) 500 in
            let kept =
              write_loop-Keeps batches (0, 0) r mm
                (batches-Others shards shard_index base (redis.fresh cutoff r) other) e in
            elim (Option-cases (write_loop redis index now batches (0, 0) r mm).0) [
              | inl raised ↦ rw (raised, write_fresh) kept
              | inr (counts, done) ↦ rw (done, write_fresh) kept
            ]

-- Whatever Redis answers, and also when a round raises half-way, a replica changes no byte of a tile
-- that belongs to another shard, if no two tiles of the extract overlap.
pub cycle_leaves_others :
    (redis : Redis) (index : TarIndex) (now shards shard_index cutoff : ℕ) (r : redis.State)
    (mm : Mmap)
    → TilesDisjoint index
    → (base off n j : ℕ) → find_tile base index ≡ some (off, n)
    → base % shards ≢ shard_index
    → off ≤ j
    → j < off + 32 + n * 8
    → (cycle redis index now shards shard_index cutoff r mm).1.byte j ≡ mm.byte j
unfolding cycle
cycle_leaves_others redis index now shards shard_index cutoff r mm apart base off n j at other lo
      hi =
    let batches = chunks (filter (owns shards shard_index) (redis.expired cutoff r)) 500 in
    let first = revert_loop redis index now batches 0 r mm in
    let kept =
      revert_loop-Keeps index apart base off n at j (mm.byte j) lo hi redis now batches 0 r mm
        (batches-Others shards shard_index base (redis.expired cutoff r) other) refl in
    elim (Option-cases first.0) [
      | inl raised ↦ rw (raised, cycle) kept
      | inr (reverted, done) ↦
          rw (done, cycle)
            (write_fresh-Keeps index apart base off n at j (mm.byte j) lo hi redis now shards
              shard_index cutoff reverted first.2 first.1 other kept)
    ]

-- ===== src/Traffic/Writer/Defs.antt =====
-- `write_edge` and one round of `run` of services/traffic_writer.py. Redis is an interface; a
-- reply that is no number and a write outside the file raise, which ends the round.
use geocoder_fwd.Prelude.{
  ℕ, ◌+◌, Bool, true, false, Option, none, some, List, [], ◌∷◌, length, filter, leb, ◌==◌,
  if◌then◌else◌,
}
use geocoder_fwd.Prelude.Int.{ℤ, pos}
use geocoder_fwd.Traffic.GraphId.{tile_base_id, decode_graphid}
use geocoder_fwd.Traffic.Speed.{
  Kph, le_value, struct_pack_q, speed_to_bytes, edge_record_offset, header_size,
}
use geocoder_fwd.Traffic.Writer.Memory.{Mmap, write_from, read}
use geocoder_fwd.Traffic.Writer.Chunks.{chunks}
use geocoder_fwd.Traffic.Writer.Shards.{owns}

-- `{tile_base_id: (data_offset, directed_edge_count)}`
abbrev pub TarIndex : Type 0
TarIndex = List (ℕ × (ℕ × ℕ))

unfoldable pub find_tile : ℕ → TarIndex → Option (ℕ × ℕ)
find_tile base [] = none
find_tile base ((b, tile) ∷ index) = if b == base then some tile else find_tile base index

-- A member of the tar file, as the `tarfile` library lists it.
pub record Member : Type 0 where
  pub is_file : Bool
  pub member_size : ℕ
  pub offset_data : ℕ

-- The loop of `build_tar_index` over the members; the newest entry of a tile id is in front, where
-- `find_tile` sees it.
unfoldable pub build_tar_index : List Member → (ℕ → ℕ) → TarIndex → TarIndex
build_tar_index [] file index = index
build_tar_index (m ∷ members) file index =
    let tile_id = le_value (read 8 m.offset_data file) in
    let edge_count = le_value (read 4 (m.offset_data + 16) file) in
    let usable = if m.is_file then leb header_size m.member_size else false in
    build_tar_index members file
      (if usable then (tile_id, (m.offset_data, edge_count)) ∷ index else index)

-- An action on the mapped file: `none` when it raises, with the file as it is then.
abbrev pub M : Type 0 → Type 0
M A = Mmap → Option A × Mmap

-- A step that succeeds hands on its value and its file; one that raises ends the action.
abbrev pub continue : {A B : Type 0} → (A → M B) → Option A × Mmap → Option B × Mmap
continue f (none, mm) = (none, mm)
continue f (some a, mm) = f a mm

infixl 5 ◌>>=◌ ◌>>◌
abbrev pub ◌>>=◌ : {A B : Type 0} → M A → (A → M B) → M B
◌>>=◌ m f mm = continue f (m mm)

abbrev pub ◌>>◌ : {A B : Type 0} → M A → M B → M B
◌>>◌ m k mm = continue (λ _. k) (m mm)

abbrev pub pure : {A : Type 0} → A → M A
pure a mm = (some a, mm)

abbrev pub lift : {A : Type 0} → Option A → M A
lift r mm = (r, mm)

-- `mm[off : off + len(bytes)] = bytes`, which raises where the slice is cut off by the file's end.
unfoldable pub store : ℕ → List ℕ → M (Unit {0})
store off bytes mm =
    if leb (off + length bytes) mm.size
    then (some tt, record mm { byte = write_from bytes off mm.byte })
    else (none, mm)

unfoldable pub pack_header_last_update : ℕ → Option (List ℕ)
pack_header_last_update epoch_seconds = struct_pack_q epoch_seconds

-- The two writes of `write_edge`, for a tile and an edge that it has.
unfoldable pub write_record : ℕ → ℕ → ℕ → Option Kph → ℤ → M Bool
write_record now data_off edge_index kph congestion = do
  bytes ← lift (speed_to_bytes kph congestion)
  store (edge_record_offset data_off edge_index) bytes
  header ← lift (pack_header_last_update now)
  store (data_off + 8) header
  pure true

unfoldable pub write_edge : TarIndex → ℕ → ℕ → Option Kph → ℤ → M Bool
write_edge index now graphid kph congestion =
    let edge_index = (decode_graphid graphid).2 in
    elim (find_tile (tile_base_id graphid) index) [
      | none ↦ pure false
      | some (data_off, edge_count) ↦
          if leb edge_count edge_index
          then pure false
          else write_record now data_off edge_index kph congestion
    ]

-- The hash of an edge: missing, or without the key `kph`; with numbers; with a text that is none.
pub data Hash : Type 0 where
  absent malformed : Hash
  reading : Kph → ℤ → Hash

-- What the writer asks of Redis. `expired` and `fresh` are the two `ZRANGEBYSCORE` replies at a
-- cutoff, in the order of the reply.
pub record Redis : Type 1 where
  pub State : Type 0
  pub expired : ℕ → State → List ℕ
  pub fresh : ℕ → State → List ℕ
  pub hgetall : ℕ → State → Hash
  pub delete : ℕ → State → State
  pub zrem : List ℕ → State → State

-- Edges reverted, written and skipped.
pub record Tally : Type 0 where
  pub reverted : ℕ
  pub written : ℕ
  pub skipped : ℕ

module _ (index : TarIndex) (now : ℕ) where
  -- `for gid_s in batch: if write_edge(int(gid_s), None): reverted += 1`
  unfoldable pub revert_batch : List ℕ → ℕ → M ℕ
  revert_batch [] reverted = pure reverted
  revert_batch (gid ∷ batch) reverted = write_edge index now gid none (pos 0) >>= λ ok.
      revert_batch batch (if ok then reverted + 1 else reverted)

  -- The body of `for gid_s, h in zip(batch, hashes)`, with the counts of written and skipped.
  unfoldable pub write_one : ℕ → Hash → ℕ × ℕ → M (ℕ × ℕ)
  write_one gid absent counts = pure counts
  write_one gid malformed counts = lift none
  write_one gid (reading kph congestion) (written, skipped) =
      write_edge index now gid (some kph) congestion >>= λ ok.
      pure (if ok then (written + 1, skipped) else (written, skipped + 1))

  unfoldable pub write_batch : (ℕ → Hash) → List ℕ → ℕ × ℕ → M (ℕ × ℕ)
  write_batch hashes [] counts = pure counts
  write_batch hashes (gid ∷ batch) counts =
      write_one gid (hashes gid) counts >>= λ counts'. write_batch hashes batch counts'

module _ (redis : Redis) (index : TarIndex) (now : ℕ) where
  open redis use {State, expired, fresh, hgetall, delete, zrem}

  -- `pipe.delete` for each edge of a batch.
  unfoldable pub delete_all : List ℕ → State → State
  delete_all [] r = r
  delete_all (gid ∷ batch) r = delete_all batch (delete gid r)

  -- The loop over the expired batches. When a write raises, Redis keeps what it had then.
  unfoldable pub revert_loop : List (List ℕ) → ℕ → State → Mmap → Option ℕ × Mmap × State
  revert_loop [] reverted r mm = (some reverted, mm, r)
  revert_loop (batch ∷ batches) reverted r mm =
      let (n, mm') = revert_batch index now batch reverted mm in
      elim n [
        | none ↦ (none, mm', r)
        | some k ↦ revert_loop batches k (zrem batch (delete_all batch r)) mm'
      ]

  -- The loop over the fresh batches; it changes nothing in Redis.
  unfoldable pub write_loop : List (List ℕ) → ℕ × ℕ → State → Mmap → Option (ℕ × ℕ) × Mmap
  write_loop [] counts r mm = (some counts, mm)
  write_loop (batch ∷ batches) counts r mm =
      let (n, mm') = write_batch index now (λ gid. hgetall gid r) batch counts mm in
      elim n [ none ↦ (none, mm') | some c ↦ write_loop batches c r mm' ]

  -- The second half of a round, after `reverted` edges were reverted.
  unfoldable pub write_fresh : ℕ → ℕ → ℕ → ℕ → State → Mmap → Option Tally × Mmap × State
  write_fresh shards shard_index cutoff reverted r mm =
      let mine = filter (owns shards shard_index) (fresh cutoff r) in
      let (counts, mm') = write_loop (chunks mine 500) (0, 0) r mm in
      elim counts [
        | none ↦ (none, mm', r)
        | some (written, skipped) ↦
            (some (record { reverted = reverted; written = written; skipped = skipped }), mm', r)
      ]

  -- The body of the `try`: `none` when something raised and the round is logged and dropped.
  unfoldable pub cycle : ℕ → ℕ → ℕ → State → Mmap → Option Tally × Mmap × State
  cycle shards shard_index cutoff r mm =
      let mine = filter (owns shards shard_index) (expired cutoff r) in
      let (n, mm', r') = revert_loop (chunks mine 500) 0 r mm in
      elim n [
        | none ↦ (none, mm', r')
        | some reverted ↦ write_fresh shards shard_index cutoff reverted r' mm'
      ]

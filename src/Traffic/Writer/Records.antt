-- ===== src/Traffic/Writer/Records.antt =====
-- One write: the record and the time stamp of its tile.
use geocoder_fwd.Prelude.{
  ℕ, zero, suc, ◌+◌, ◌/◌, ◌*◌, ◌^◌, ◌≤◌, ◌<◌, ◌≡◌, refl, ap, ◌∙◌, sym, true, false, Option, some,
  List, length, leb, arith, ◌⊎◌, inl, inr, lt→ltb, le→leb, Option-cases,
}
use geocoder_fwd.Prelude.Int.{ℤ}
use geocoder_fwd.Traffic.GraphId.{tile_base_id, decode_graphid}
use geocoder_fwd.Traffic.Speed.{
  Kph, le_bytes, struct_pack_q, pack_speed, speed_to_bytes, edge_record_offset,
}
use geocoder_fwd.Traffic.Speed.Encoding.{speed_to_bytes_lem}
use geocoder_fwd.Traffic.Writer.Memory.{
  Mmap, write_from, read, write_from_outside, read_agree, read-write_from,
}
use geocoder_fwd.Traffic.Writer.Defs.{
  TarIndex, find_tile, store, pack_header_last_update, write_record, write_edge,
}

-- Byte `j` lies outside the `n` bytes from `off` on.
abbrev pub Outside : ℕ → ℕ → ℕ → Type 0
Outside off n j = (j < off) ⊎ (off + n ≤ j)

store_lem :
    (off : ℕ) (bytes : List ℕ) (mm : Mmap)
    → off + length bytes ≤ mm.size
    → store off bytes mm ≡ (some tt, record mm { byte = write_from bytes off mm.byte })
unfolding store
store_lem off bytes mm h = rw (le→leb (off + length bytes) mm.size h)

pack_header_lem : (now : ℕ) → now < 2 ^ 64 → pack_header_last_update now ≡ some (le_bytes 8 now)
unfolding pack_header_last_update struct_pack_q
pack_header_lem now h = rw (lt→ltb now (2 ^ 64) h)

pub length-le_bytes : (n v : ℕ) → length (le_bytes n v) ≡ n
unfolding le_bytes
length-le_bytes zero v = refl
length-le_bytes (suc n) v = ap suc (length-le_bytes n (v / 256))

read_bytes : (n v off : ℕ) (f : ℕ → ℕ) → read n off (write_from (le_bytes n v) off f) ≡ le_bytes n v
read_bytes n v off f =
    ap (λ k. read k off (write_from (le_bytes n v) off f)) (sym (length-le_bytes n v))
    ∙ read-write_from (le_bytes n v) off f

lt→leb_false : (a b : ℕ) → a < b → leb b a ≡ false
lt→leb_false a b h = ground arith

-- The file after both writes.
abbrev stamped : ℕ → ℕ → ℕ → Option Kph → ℤ → (ℕ → ℕ) → ℕ → ℕ
stamped now data_off edge_index kph congestion f =
    write_from (le_bytes 8 now) (data_off + 8) (
      write_from (le_bytes 8 (pack_speed kph congestion)) (edge_record_offset data_off edge_index)
        f)

pub edge_record_offset_lem :
    (data_off i : ℕ) → edge_record_offset data_off i ≡ data_off + 32 + i * 8
unfolding edge_record_offset
edge_record_offset_lem data_off i = refl

write_record_lem :
    (now data_off edge_count edge_index : ℕ) (kph : Option Kph) (congestion : ℤ) (mm : Mmap)
    → edge_index < edge_count
    → data_off + 32 + edge_count * 8 ≤ mm.size
    → now < 2 ^ 64
    → write_record now data_off edge_index kph congestion mm
      ≡ (some true, record mm { byte = stamped now data_off edge_index kph congestion mm.byte })
unfolding write_record
write_record_lem now data_off edge_count edge_index kph congestion mm in_tile fits dated =
    let bytes = le_bytes 8 (pack_speed kph congestion) in
    let off : ℕ = edge_record_offset data_off edge_index in
    let first : Mmap = record mm { byte = write_from bytes off mm.byte } in
    let place = edge_record_offset_lem data_off edge_index in
    let stored =
      store_lem off bytes mm
        (omega (arith, place, length-le_bytes 8 (pack_speed kph congestion))) in
    let dates =
      store_lem (data_off + 8) (le_bytes 8 now) first (omega (arith, length-le_bytes 8 now)) in
    rw (speed_to_bytes_lem kph congestion) (rw stored (rw (pack_header_lem now dated) (rw dates)))

-- A write for an edge of the tile succeeds: the edge's eight bytes hold the packed speed, the
-- tile's `last_update` holds the time, and byte `j`, any other one, is as before.
pub write_edge_found :
    (index : TarIndex) (now graphid : ℕ) (kph : Option Kph) (congestion : ℤ) (mm : Mmap)
    (data_off edge_count j : ℕ)
    → find_tile (tile_base_id graphid) index ≡ some (data_off, edge_count)
    → (decode_graphid graphid).2 < edge_count
    → data_off + 32 + edge_count * 8 ≤ mm.size
    → now < 2 ^ 64
    → Outside (edge_record_offset data_off (decode_graphid graphid).2) 8 j
    → Outside (data_off + 8) 8 j
    → let record_off = edge_record_offset data_off (decode_graphid graphid).2 in
      (mm' : Mmap) × (write_edge index now graphid kph congestion mm ≡ (some true, mm'))
      × (speed_to_bytes kph congestion ≡ some (read 8 record_off mm'.byte))
      × (pack_header_last_update now ≡ some (read 8 (data_off + 8) mm'.byte))
      × (mm'.size ≡ mm.size)
      × (mm'.byte j ≡ mm.byte j)
unfolding write_edge
write_edge_found index now graphid kph congestion mm data_off edge_count j found in_tile fits dated
      away away' =
    let i : ℕ = (decode_graphid graphid).2 in
    let f = stamped now data_off i kph congestion mm.byte in
    let g =
      write_from (le_bytes 8 (pack_speed kph congestion)) (edge_record_offset data_off i) mm.byte in
    let at : edge_record_offset data_off i ≡ data_off + 32 + i * 8 =
      edge_record_offset_lem data_off i in
    let full = length-le_bytes 8 now in
    let full' = length-le_bytes 8 (pack_speed kph congestion) in
    (
      record mm { byte = f },
      rw (found, write_edge)
          (rw (lt→leb_false i edge_count in_tile)
            (write_record_lem now data_off edge_count i kph congestion mm in_tile fits dated)),
      speed_to_bytes_lem kph congestion
          ∙ ap some (
              sym (
                read_agree 8 (edge_record_offset data_off i) f g (λ j lo hi.
                  write_from_outside (le_bytes 8 now) (data_off + 8) g j
                    (inr (omega (arith, at, full))))
                ∙ read_bytes 8 (pack_speed kph congestion) (edge_record_offset data_off i)
                    mm.byte)),
      pack_header_lem now dated ∙ ap some (sym (read_bytes 8 now (data_off + 8) g)),
      refl,
      write_from_outside (le_bytes 8 now) (data_off + 8) g j (omega (arith, full))
          ∙ write_from_outside (le_bytes 8 (pack_speed kph congestion))
              (edge_record_offset data_off i) mm.byte j (omega (arith, full')),
    )

-- An edge whose tile is not in the extract, or whose index is past the tile's edges, is skipped:
-- the answer is false and the file is as before.
write_edge_skips :
    (index : TarIndex) (now graphid : ℕ) (kph : Option Kph) (congestion : ℤ) (mm : Mmap)
    → ((data_off edge_count : ℕ)
        → find_tile (tile_base_id graphid) index ≡ some (data_off, edge_count)
        → edge_count ≤ (decode_graphid graphid).2)
    → write_edge index now graphid kph congestion mm ≡ (some false, mm)
unfolding write_edge
write_edge_skips index now graphid kph congestion mm stale =
    elim (Option-cases (find_tile (tile_base_id graphid) index)) [
      | inl missing ↦ rw (missing, write_edge)
      | inr ((data_off, edge_count), e) ↦
          rw (e, write_edge)
            (rw (le→leb edge_count (decode_graphid graphid).2 (stale data_off edge_count e)))
    ]

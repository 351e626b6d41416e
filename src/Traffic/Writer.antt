-- ===== src/Traffic/Writer.antt =====
-- services/traffic_writer.py, and `build_tar_index` and `pack_header_last_update` of
-- shared/traffic_tile.py: the records written into the mapped traffic.tar. `Memory` has the mapped
-- file, `Records` one write, `Shards` the ownership of tiles, `Chunks` the batches, `Cycle` a round.
pub mod Memory
pub mod Shards
pub mod Chunks
pub mod Defs
pub mod Records
pub mod Cycle

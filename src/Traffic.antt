-- ===== src/Traffic.antt =====
-- Live traffic: shared/traffic_tile.py and services/traffic_writer.py.
pub mod Aggregator
pub mod GraphId
pub mod Speed
pub mod Writer
mod Tests

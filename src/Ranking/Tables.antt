-- ===== src/Ranking/Tables.antt =====
-- shared/ranking.py, the score tables.
pub mod Areas
pub mod Venues

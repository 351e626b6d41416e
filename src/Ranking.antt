-- ===== src/Ranking.antt =====
-- shared/ranking.py: the offline rank of an element, from its tags, its admin level and its area.
pub mod Tables
pub mod Signals
pub mod Rank
mod Tests

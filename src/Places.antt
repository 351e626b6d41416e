-- ===== src/Places.antt =====
-- shared/places_mapping.py: from a unified place record to the element that the inserters index.
pub mod Tables
pub mod Element
mod Tests

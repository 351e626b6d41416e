-- ===== src/Categories.antt =====
-- shared/categories.py: what kind of place an element is, from its tags.
pub mod Taxonomy
pub mod Classify
mod Tests

-- ===== src/Lab/Shrinker.antt =====
-- The shrinker of failing scenarios, tools/chaos_lab/shrinker.py, part by part.
pub mod Ddmin
pub mod Actions
pub mod Removal
pub mod Search
pub mod Keeps
pub mod Finds
pub mod Names
pub mod Reduces

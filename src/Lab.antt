-- ===== src/Lab.antt =====
-- The chaos lab around the model (tools/chaos_lab): scenarios, the generator, the runner and the
-- shrinker.
pub mod Types
pub mod Runner
pub mod Shrinker
pub mod Generator
pub mod Files
pub mod Reports
pub mod Campaign
pub mod Samples
pub mod Examples

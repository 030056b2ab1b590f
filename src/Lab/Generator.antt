-- ===== src/Lab/Generator.antt =====
-- `ScenarioGenerator` of tools/chaos_lab/generator.py: its settings and the source of random
-- choices. Python's `random.Random` is a parameter with its documented bounds; `random()` is the
-- number of multiples of 2⁻⁵³ that it returns, and a probability the least such number that is not
-- below it. A setting that the code takes as an integer is a natural number here.
pub mod Draws
pub mod Tasks
pub mod Workers
pub mod Scenario
pub mod Ids
pub mod Valid
pub mod Built
pub mod Accepted
pub mod Sound
pub mod Placement
pub mod Agrees
pub mod Replays
pub mod Files
pub mod Samples
pub mod Examples

-- ===== src/Bench.antt =====
-- src/scripts/parse_benchmark_results.py
pub mod Initiate
pub mod Parse
pub mod Split
pub mod Aggregate
pub mod Report
pub mod Names
pub mod Main

-- ===== src/Bench/Parse.antt =====
-- One iperf3 report: `parse_iperf3_json` and `extract_rtt_from_streams` of
-- src/scripts/parse_benchmark_results.py.
mod Defs
mod Run
unfoldable pub use Defs.*
unfoldable pub use Run.*

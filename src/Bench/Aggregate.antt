-- ===== src/Bench/Aggregate.antt =====
-- The totals of all nodes: `aggregate_bidirectional_results`, `update_rtt_metrics`,
-- `finalize_node_metrics` and `validate_network_balance` of src/scripts/parse_benchmark_results.py.
mod Defs
mod Run
pub mod Credits
pub mod Totals
pub mod Result
pub mod Balance
pub mod Ends
mod Tests
unfoldable pub use Defs.*
unfoldable pub use Run.*

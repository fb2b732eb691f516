-- ===== src/Python/Number.antt =====
-- Python's numbers as the scripts use them. Floating point is not in the repository: it is a
-- parameter, with no law assumed but where a theorem names it.
mod Defs
mod Extrema
pub mod Naturals
unfoldable pub use Defs.*
pub use Extrema.*

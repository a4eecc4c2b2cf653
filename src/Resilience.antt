-- ===== src/Resilience.antt =====
-- The circuit breaker and the retry delays of the clients of MoySklad (internal/resilience).
--
-- A time is a number of nanoseconds. The mutex makes each method one step, and `Call` two: the
-- breaker is not locked while the call runs.
mod Examples
mod Breaker
mod Closing
pub mod Delays
pub use Breaker.*

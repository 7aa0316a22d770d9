-- ===== src/Cycle.antt =====
-- internal/cycle: the loop that runs the two legs in turn.
pub mod Readings
pub mod Requests
pub mod Driver
pub mod Status
pub mod Restart
pub mod Watchdog
pub mod Liveness

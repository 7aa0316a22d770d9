-- ===== src/State.antt =====
-- internal/prstate: the markers on a pull request's comments, and what is read off them.
pub mod Opt
pub mod Marker
pub mod Ledger
pub mod RefName
pub mod MarkerStore
pub mod Passes

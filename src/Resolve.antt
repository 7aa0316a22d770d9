-- ===== src/Resolve.antt =====
-- internal/resolve: what a resolve pass that settles says of the loop.
pub mod Convergence

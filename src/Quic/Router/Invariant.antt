-- ===== src/Quic/Router/Invariant.antt =====
-- The invariants of the router of src/portwyrm/runtime/quic_router.py.
pub mod Tables
pub mod Removal
pub mod Waiting
pub mod Pause
pub mod Consistent
pub mod Events
pub mod Tasks

-- ===== src/Quic/Router.antt =====
-- The datagram router of src/portwyrm/runtime/quic_router.py.
pub mod State
pub mod Sessions
pub mod Ingress
pub mod Opening
pub mod Isolation
pub mod Invariant
pub mod Run

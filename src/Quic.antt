-- ===== src/Quic.antt =====
-- runtime/quic_router.py: the parser of QUIC Initial packets and the datagram router.
pub mod Bytes
pub mod Varint
pub mod Cursor
pub mod Raises
pub mod Header
pub mod Frames
pub mod Hello
pub mod Router

-- ===== src/Nginx.antt =====
-- The Nginx configuration: src/portwyrm/runtime/nginx_primitives.py, nginx_http.py and nginx_stream.py.
pub mod Lines
pub mod Primitives
pub mod Http
pub mod Streams
pub mod Platform
pub mod Render
pub mod Blocks
pub mod Segments
pub mod Protection
pub mod Files
pub mod Passwords
pub mod Naming
pub mod Generation
pub mod Proxies
pub mod Served

-- ===== src/Access.antt =====
-- Access lists in Nginx: src/portwyrm/runtime/nginx_primitives.py.
pub mod Lists
pub mod Merge
pub mod Htpasswd

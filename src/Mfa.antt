-- ===== src/Mfa.antt =====
-- Multi-factor authentication: src/portwyrm/identity/mfa.py and src/portwyrm/tables/mfa.py.
pub mod Base32
pub mod Totp
pub mod Table

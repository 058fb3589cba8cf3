-- ===== src/Pats.antt =====
-- The table of personal access tokens: src/portwyrm/tables/tokens.py.
pub mod Rows
pub mod Operations
pub mod Calls
pub mod Revoked
pub mod Issued

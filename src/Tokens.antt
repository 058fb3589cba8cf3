-- ===== src/Tokens.antt =====
-- Personal access tokens: src/portwyrm/identity/permissions.py and
-- src/portwyrm/identity/token_policy.py.
pub mod Permissions
pub mod Scopes
pub mod Authority
pub mod Issue

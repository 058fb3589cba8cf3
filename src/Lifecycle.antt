-- ===== src/Lifecycle.antt =====
-- The hooks of src/portwyrm/tables/lifecycle.py that stand around every operation on a table.
pub mod Context
pub mod Authorize
pub mod Own
pub mod Nested
pub mod Guarded
pub mod Grants
pub mod Permits
pub mod Show
pub mod Commit
pub mod Audit

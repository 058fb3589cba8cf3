-- ===== src/Reconcile.antt =====
-- src/portwyrm/runtime/reconcile.py: immutable generations of generated files, one of them active.
pub mod Store
pub mod Strip
pub mod Run
pub mod Safety
pub mod Repeat

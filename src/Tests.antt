-- ===== src/Tests.antt =====
-- The theorems at concrete inputs, for the packages of src/portwyrm.
pub mod Packets
mod Sessions
pub mod Policies
mod Access
mod Lifecycle
mod Pats
mod Small
mod Runtime
mod Routing
mod Mfa
mod Nginx

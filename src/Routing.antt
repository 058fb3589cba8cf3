-- ===== src/Routing.antt =====
-- The resources of src/portwyrm/tables/routing.py: names, hosts, streams and their collisions.
pub mod Domains
pub mod Hosts
pub mod Inventory

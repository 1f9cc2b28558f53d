-- ===== src/Database.antt =====
-- database/src/, the resource database of the testbed.
pub mod Topology

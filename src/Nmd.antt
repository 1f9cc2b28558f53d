-- ===== src/Nmd.antt =====
-- nmd/, the daemon that sets up VLANs on the switches.
pub mod Vlans

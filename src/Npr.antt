-- ===== src/Npr.antt =====
-- ixp/npr/, the daemon of a router with a network processor.
pub mod FreeList
pub mod Classes
pub mod Tcam
pub mod Entries
pub mod Routes
pub mod Filters
pub mod Packets
pub mod Arps
pub mod Examples

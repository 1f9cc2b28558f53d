-- ===== src/Npr/Packets.antt =====
-- ixp/npr/nprd_ipv4.cc: the checksum, packets in memory, and the ICMP errors that answer them.
pub mod Bits
pub mod Checksum
pub mod Memory
pub mod Errors
pub mod Echo
pub mod Examples

-- ===== src/Net.antt =====
-- The network stack of net/: its formats, one module each, and the stack above them.
pub mod Bytes
pub mod Checksum
pub mod Arp
pub mod Ipv4
pub mod Icmp
pub mod Udp
pub mod Stack
pub mod Tests

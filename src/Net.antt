-- ===== src/Net.antt =====
-- Network addresses, src/net.
pub mod Ipaddr

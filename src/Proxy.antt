-- ===== src/Proxy.antt =====
-- services/aimili-egress/proxy_server.py: the limits on proxy connections, and the
-- messages of its DNS client.
pub mod Capacity
pub mod Totals
pub mod Bounds
pub mod RoundTrip
pub mod Dns
pub mod DnsName
pub mod DnsReply
mod Examples
mod DnsExamples

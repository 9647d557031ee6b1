-- ===== src/Dns.antt =====
-- src/dns: the messages, the cache of addresses, and the center that resolves and relays.
pub mod Message
pub mod Cache
pub mod Center

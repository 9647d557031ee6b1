-- ===== src/Config.antt =====
-- src/config: the configuration file.
pub mod Types
pub mod Parse
pub mod Print
pub mod Records
pub mod RoundTrip
mod Examples
pub mod Steps

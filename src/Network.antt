-- ===== src/Network.antt =====
-- share/network: packets as bytes.
pub mod Reader
pub mod Writer
pub mod RoundTrip
mod Tests

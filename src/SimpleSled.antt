-- ===== src/SimpleSled.antt =====
-- store_simple_sled/src/lib.rs: the store that keeps its entries and payloads in sled trees.
pub mod Codec
pub mod Keys
pub mod Sled
pub mod State
pub mod Held
pub mod Ingest
pub mod Forget
pub mod Append
pub mod Query
pub mod Open
pub mod Ranges
pub mod Split
pub mod Subscribe
mod Tests

-- ===== src/SimpleSled/Tests.antt =====
-- Theorems on store_simple_sled/src/lib.rs at concrete inputs.
mod BigEndian
mod ListSled
mod Setting
mod Ingesting
mod Keys
mod Forgetting
mod Querying
mod Ranging

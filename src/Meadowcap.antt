-- ===== src/Meadowcap.antt =====
-- meadowcap/src: the capabilities by which users grant each other access to areas of a namespace.
pub mod Keys
pub mod Chain
pub mod Communal
pub mod Owned
pub mod Capability
mod Tests

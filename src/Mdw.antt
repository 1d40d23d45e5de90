-- ===== src/Mdw.antt =====
-- src/mdw-sync: the copy of the chain that the other parts read.
pub mod Indexer
pub mod Plugins
pub mod Validation
mod Tests

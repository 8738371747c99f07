-- ===== src/Storage.antt =====
-- Remote storage: the interface that the providers share, of backend/core/storage_provider.py.
mod Interface
pub mod Targets
pub use Interface.*

-- ===== src/Storage.antt =====
-- storage/storage.go: the objects that dex stores, and the `Storage` interface; storage/static.go
-- below it.
pub mod Types
pub mod Interface
pub mod Index
pub use Types.*
pub use Interface.*
pub mod Static

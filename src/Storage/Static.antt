-- ===== src/Storage/Static.antt =====
-- storage/static.go: storages with a read-only set of clients, passwords or connectors in front.
-- The wrapper keeps no state of its own, so it has the state of the storage behind it.
pub mod Clients
pub mod Passwords
pub mod Connectors
pub use Clients.{with_static_clients}
pub use Passwords.{with_static_passwords}
pub use Connectors.{with_static_connectors}

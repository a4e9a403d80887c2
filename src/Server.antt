-- ===== src/Server.antt =====
-- server/: the OpenID Connect server.
pub mod Rotation
pub mod KeyCacher
pub mod Action
pub mod World
pub mod Ensures
pub mod OAuth2
pub mod Connectors
pub mod Token
pub mod Api
pub mod Approval
pub mod Login
pub mod Vouched
pub mod Setup
pub mod Status

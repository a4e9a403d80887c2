-- ===== src/Tests.antt =====
-- The theorems at concrete inputs.
mod Data
mod Etcd
mod Keys
mod Tokens
mod Stores
mod Requests
mod Api
mod Login
mod Session
mod Saml

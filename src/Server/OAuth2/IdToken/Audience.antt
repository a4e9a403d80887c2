-- ===== src/Server/OAuth2/IdToken/Audience.antt =====
-- server/oauth2.go, newIDToken: whom an ID token is for.
use dex.Prelude.{string_eq}
use dex.Server.World.{World, Server}

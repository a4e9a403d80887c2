-- ===== src/Server/Token/Kept.antt =====
-- server/handlers.go: what handleAuthCode does after it has deleted the code keeps a property of the
-- storage and the open connectors, if the calls that it makes keep it.
use dex.Prelude.{
  ℕ, string_eq, already_exists, panicked, other, String, Bool, true, false, Result, ok, err,
  not_found,
}
use dex.GoMap.{lookup}
use dex.Storage.{AuthCode, RefreshToken, OfflineSessions}
use dex.Server.Action.{Action}
use dex.Server.World.{World, Server}
use dex.Server.Ensures.{
  Property, Ensures, Any, Calls, Ensures-pure, Ensures-halt, Ensures-call, Ensures-bind,
  Ensures-send, Ensures-result, Ensures-option, Ensures-or_refuse,
}
use dex.Server.Connectors.{get_connector}
use dex.Server.Token.Form.{server_error, failed, write_access_token}
use dex.Server.Token.AuthCode.{
  or_delete, delete_token, new_session, delete_old, update_session, store_session, new_refresh,
  create_refresh_token, wants_refresh, maybe_refresh_token, hand_out,
}

-- What is asked of a property: that reading a connector keeps it, and so do the changes that
-- handleAuthCode makes for a refresh token whose user is one of `V`.
pub record HandOutLaws {S : Type 0} (server : Server S) (P : Property S) (V : String → Type 0)
    : Type 0 where
  pub connector : (id : String) → Ensures {E = Unit {0}} P (get_connector server id) Any
  pub create_refresh :
      (r : RefreshToken) → V r.claims.user_id → Calls P (server.storage.create_refresh r) Any
  pub delete_refresh : (id : String) → Calls P (server.storage.delete_refresh id) Any
  pub get_session :
      (user conn : String) → Calls P (server.storage.get_offline_sessions user conn) Any
  pub create_session :
      (o : OfflineSessions) → Calls P (server.storage.create_offline_sessions o) Any
  pub update_session :
      (user conn : String) (f : OfflineSessions → Result (OfflineSessions × String))
      → Calls P (server.storage.update_offline_sessions user conn f) Any

module _ {S : Type 0} (server : Server S) (P : Property S) (V : String → Type 0)
    (laws : HandOutLaws server P V) where
  abbrev pub Kept : {A : Type 0} → Action (World S) (Unit {0}) A → Type 0
  Kept m = Ensures P m Any

  delete_token-Kept :
      {A : Type 0} (refresh : RefreshToken) → Kept (delete_token server {A = A} refresh)
  unfolding delete_token
  delete_token-Kept refresh = Ensures-bind (Ensures-send server_error) λ u q.
      Ensures-bind (Ensures-call (laws.delete_refresh refresh.id))
        λ r q. Ensures-bind (Ensures-or_refuse r failed) λ d q. Ensures-halt tt

  or_delete-Kept :
      {A : Type 0} (refresh : RefreshToken) (r : Result A) → Kept (or_delete server refresh r)
  or_delete-Kept refresh (ok a) = Ensures-pure a tt
  or_delete-Kept refresh (err e) = delete_token-Kept refresh

  new_session-Kept : (refresh : RefreshToken) → Kept (new_session server refresh)
  unfolding new_session
  new_session-Kept refresh =
      Ensures-bind (Ensures-call (laws.create_session _)) λ r q. or_delete-Kept refresh r

  delete_old-Kept :
      (refresh : RefreshToken) (session : OfflineSessions)
      → Kept (delete_old server refresh session)
  unfolding delete_old
  delete_old-Kept refresh session =
      Ensures-option (lookup refresh.client_id session.refresh)
        (λ old e.
          Ensures-bind (Ensures-call (laws.delete_refresh old.id)) λ r q. or_delete-Kept refresh r)
        (Ensures-pure tt tt)

  update_session-Kept :
      (refresh : RefreshToken) (session : OfflineSessions)
      → Kept (update_session server refresh session)
  unfolding update_session
  update_session-Kept refresh session = Ensures-bind (delete_old-Kept refresh session) λ u q.
      Ensures-bind (Ensures-call (laws.update_session session.user_id session.conn_id _))
        λ r q. Ensures-bind (or_delete-Kept refresh r) λ d q. Ensures-pure tt tt

  store_session-Kept :
      (refresh : RefreshToken) (session : Result OfflineSessions)
      → Kept (store_session server refresh session)
  unfolding store_session
  store_session-Kept refresh (err not_found) = new_session-Kept refresh
  store_session-Kept refresh (err already_exists) = delete_token-Kept refresh
  store_session-Kept refresh (err panicked) = delete_token-Kept refresh
  store_session-Kept refresh (err (other m)) = delete_token-Kept refresh
  store_session-Kept refresh (ok session) = update_session-Kept refresh session

  new_refresh-Kept :
      (a : AuthCode)
      → V a.claims.user_id
      → Ensures P (new_refresh server a) (λ r. V r.claims.user_id)
  unfolding new_refresh
  new_refresh-Kept a v = record { at = λ w h. (h, v) }

  create_refresh_token-Kept :
      (a : AuthCode) → V a.claims.user_id → Kept (create_refresh_token server a)
  unfolding create_refresh_token
  create_refresh_token-Kept a u = Ensures-bind (new_refresh-Kept a u) λ refresh v.
      Ensures-bind (Ensures-or_refuse (server.marshal_refresh refresh.id refresh.token) failed)
        λ text q. Ensures-bind (Ensures-call (laws.create_refresh refresh v)) λ r q.
          Ensures-bind (Ensures-or_refuse r failed) λ done q.
            Ensures-bind
              (Ensures-call (laws.get_session refresh.claims.user_id refresh.connector_id))
              λ session q.
                Ensures-bind (store_session-Kept refresh session) λ u q. Ensures-pure text tt

  wants_refresh-Kept : (a : AuthCode) → Kept (wants_refresh server a)
  unfolding wants_refresh
  wants_refresh-Kept a = Ensures-bind (laws.connector a.connector_id) λ found q.
      Ensures-result found
        (λ conn c.
          Ensures-option conn.connector.refresh (λ f o. Ensures-pure _ tt) (Ensures-pure false tt))
        (λ e. Ensures-bind (Ensures-send server_error) λ u q. Ensures-pure false tt)

  maybe_refresh_token-Kept :
      (a : AuthCode) (b : Bool) → V a.claims.user_id → Kept (maybe_refresh_token server a b)
  unfolding maybe_refresh_token
  maybe_refresh_token-Kept a true v = create_refresh_token-Kept a v
  maybe_refresh_token-Kept a false v = Ensures-pure "" tt

  pub write_access_token-Kept :
      (id_token access refresh : String) (expiry : ℕ)
      → Kept (write_access_token server id_token access refresh expiry)
  unfolding write_access_token
  write_access_token-Kept id_token access refresh expiry = record { at = λ w h. (h, tt) }

  pub hand_out-Kept :
      (a : AuthCode) (access : String) (token : String × ℕ)
      → V a.claims.user_id
      → Kept (hand_out server a access token)
  unfolding hand_out
  hand_out-Kept a access token v = Ensures-bind (wants_refresh-Kept a) λ b q.
      Ensures-bind (maybe_refresh_token-Kept a b v)
        λ refresh q. write_access_token-Kept token.0 access refresh token.1

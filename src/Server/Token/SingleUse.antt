-- ===== src/Server/Token/SingleUse.antt =====
-- server/handlers.go: an authorization code is gone once handleAuthCode has sent tokens for it.
use dex.Prelude.{ℕ, ◌+◌, subst, ◌∷◌, string_eq, String, ◌≡◌, refl, inl, inr, Result-cases, arith}
use dex.Storage.{Client, AuthCode}
use dex.Server.Action.{next, stop, bind-next, attempt}
use dex.Server.World.{World, Server, token_error, or_refuse}
use dex.Server.Ensures.{Outcome, Any}
use dex.Server.OAuth2.{err_invalid_request}
use dex.Server.OAuth2.IdToken.{new_id_token}
use dex.Server.Token.Form.{failed}
use dex.Server.Token.AuthCode.{
  check_code, redeem, redeem_with, redeem_minted, hand_out, handle_auth_code,
}
use dex.Server.Token.Kept.{hand_out-Kept}
use dex.Server.Token.Gone.{Gone, CodeLaws, CodeGone, gone-HandOutLaws}

module _ {S : Type 0} (server : Server S) (laws : CodeLaws server.storage) (code : String) where
  redeem_minted-Gone :
      (a : AuthCode) (access : String) (token : String × ℕ) (u : Unit {0}) (w w' : World S)
      → redeem_minted server code a access token w ≡ (next u, w')
      → Gone server.storage code w'.store
  unfolding redeem_minted
  redeem_minted-Gone a access token u w w' h =
      elim (Result-cases (server.storage.delete_auth_code code w.store).0) [
        | inr (x, e) ↦ ground (arith, e)
        | inl (v, e) ↦
            let after = record w { store = (server.storage.delete_auth_code code w.store).1 } in
            let ran : hand_out server a access token after ≡ (next u, w') = ground (arith, e) in
            let kept =
              (hand_out-Kept server _ _ (gone-HandOutLaws server laws code) a access token tt).at
                after (laws.deleted code w.store e) in
            (subst (Outcome (CodeGone server laws code) Any) ran kept).0
      ]

  redeem_with-Gone :
      (a : AuthCode) (client : Client) (access : String) (u : Unit {0}) (w w' : World S)
      → redeem_with server code a client access w ≡ (next u, w')
      → Gone server.storage code w'.store
  unfolding redeem_with
  redeem_with-Gone a client access u w w' h =
      let (minted, w₁, e₁, k₁) =
        bind-next
          (attempt (new_id_token server client.id a.claims a.scopes a.nonce access a.connector_id))
          _ w h in
      let (token, w₂, e₂, k₂) = bind-next (or_refuse minted failed) _ w₁ k₁ in
      redeem_minted-Gone a access token u w₂ w' k₂

  redeem-Gone :
      (a : AuthCode) (client : Client) (u : Unit {0}) (w w' : World S)
      → redeem server code a client w ≡ (next u, w')
      → Gone server.storage code w'.store
  unfolding redeem
  redeem-Gone a client u w w' h =
      redeem_with-Gone a client (server.id_source w.drawn) u (record w { drawn = w.drawn + 1 }) w' h

  -- On a storage where a deleted authorization code is gone and the other methods that are called
  -- leave it so, the code is gone from the storage once handleAuthCode has sent tokens for it.
  handle_auth_code-Gone :
      (redirect_uri : String) (client : Client) (u : Unit {0}) (w w' : World S)
      → handle_auth_code server code redirect_uri client w ≡ (next u, w')
      → Gone server.storage code w'.store
  unfolding handle_auth_code
  handle_auth_code-Gone redirect_uri client u w w' h =
      let (a, v, e, k) = bind-next (check_code server code redirect_uri client) _ w h in
      redeem-Gone a client u v w' k

module _ {S : Type 0} (server : Server S) (code : String) where
  -- A code that the storage does not have gets the reply "Invalid or expired code parameter." with
  -- status 400 and no tokens; the storage is left as reading the code leaves it, and neither the
  -- clock nor the random source is read.
  handle_auth_code-absent :
      (redirect_uri : String) (client : Client) (w : World S)
      → Gone server.storage code w.store
      → handle_auth_code server code redirect_uri client w ≡ (
        stop tt,
        record w {
          store = (server.storage.get_auth_code code w.store).1;
          replies =
              token_error err_invalid_request "Invalid or expired code parameter." 400 ∷ w.replies;
        },
      )
  unfolding handle_auth_code check_code
  handle_auth_code-absent redirect_uri client w h = rw (h, handle_auth_code, check_code) refl

module _ {S : Type 0} (server : Server S) (laws : CodeLaws server.storage) (code : String) where
  -- On a storage where a deleted authorization code is gone and the other methods that are called
  -- leave it so, once handleAuthCode has sent tokens for a code, a second call with that code, of any
  -- client and with any redirect URI, is refused with "Invalid or expired code parameter." and status
  -- 400; it sends no tokens and leaves the storage as reading the code leaves it.
  pub handle_auth_code-once :
      (redirect_uri other_uri : String) (client other_client : Client) (u : Unit {0})
      (w w' : World S)
      → handle_auth_code server code redirect_uri client w ≡ (next u, w')
      → handle_auth_code server code other_uri other_client w' ≡ (
        stop tt,
        record w' {
          store = (server.storage.get_auth_code code w'.store).1;
          replies =
              token_error err_invalid_request "Invalid or expired code parameter." 400 ∷ w'.replies;
        },
      )
  handle_auth_code-once redirect_uri other_uri client other_client u w w' h =
      handle_auth_code-absent server code other_uri other_client w'
        (handle_auth_code-Gone server laws code redirect_uri client u w w' h)

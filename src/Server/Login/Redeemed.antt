-- ===== src/Server/Login/Redeemed.antt =====
-- server/handlers.go on storage/memory/memory.go: from a callback to a code that can be redeemed.
use Prim.Native.Nat.{◌*◌}
use dex.Prelude.{
  ◌+◌, ◌≤◌, String, false, not, ◌&&◌, Result, some, none, [], ◌∷◌, ok, ◌≡◌, refl, ap, ◌∙◌, ◌==◌,
  string_eq,
}
use dex.GoMap.{lookup}
use dex.Storage.{AuthRequest, AuthCode, Connector, Client}
use dex.Memory.{MemStorage}
use dex.Server.Action.{next}
use dex.Server.World.{World, Server, Url, ServerConnector, Scopes, Identity}
use dex.Server.OAuth2.{parse_scopes, redirect_uri_oob}
use dex.Server.Token.Form.{claims_of}
use dex.Server.Token.AuthCode.{check_code}
use dex.Server.Connectors.{current_connector}
use dex.Server.Approval.{minute, new_code, handle_approval}
use dex.Server.Approval.Code.{on_memory, send_code_response-redeemable}
use dex.Server.Login.{CallbackForm, handle_connector_callback}
use dex.Server.Login.OnMemory.{handle_approval-run}
use dex.Server.Login.Finished.{finished, logged_in, handle_connector_callback-finished}

-- What a code holds of a request and of the identity that logged in.
pub record IsCodeFor (req : AuthRequest) (identity : Identity) (a : AuthCode) : Type 0 where
  pub claims : a.claims ≡ claims_of identity
  pub connector_data : a.connector_data ≡ identity.connector_data
  pub connector_id : a.connector_id ≡ req.connector_id
  pub client_id : a.client_id ≡ req.client_id
  pub redirect_uri : a.redirect_uri ≡ req.redirect_uri
  pub scopes : a.scopes ≡ req.scopes
  pub nonce : a.nonce ≡ req.nonce

-- What the callback is taken with: the request that its state names, for the connector in its path if
-- there is one there, and the connector, which returns the identity.
pub record IsAnswered (form : CallbackForm) (req : AuthRequest) (identity : Identity)
    (w : World MemStorage) : Type 0 where
  pub stored : Connector
  pub conn : ServerConnector MemStorage
  pub url : Scopes → String → String → Result String
  pub method : form.method ≡ "GET"
  pub state : (form.state == "") ≡ false
  pub known : lookup form.state w.store.auth_reqs ≡ some req
  pub same_id : req.id ≡ form.state
  pub path : (not (form.connector_id == "") && not (form.connector_id == req.connector_id)) ≡ false
  pub has_connector : lookup req.connector_id w.store.connectors ≡ some stored
  pub open_connector : current_connector stored (lookup req.connector_id w.connectors) ≡ some conn
  pub by_callback : conn.connector.login_url ≡ some url
  pub answered : conn.connector.handle_callback (parse_scopes req.scopes) form.query ≡ ok identity

-- What the code flow needs of a request: it is not expired at the next reading of the clock, its
-- redirect URI parses and is not the out-of-band one, "code" is its response type alone, and the
-- random ID of the code is not taken.
pub record IsCodeFlow (base : Server MemStorage) (req : AuthRequest) (w : World MemStorage)
    : Type 0 where
  pub url : Url
  pub unexpired : base.clock w.ticks ≤ req.expiry
  pub parsed : base.parse_url req.redirect_uri ≡ some url
  pub code_flow : req.response_types ≡ "code" ∷ []
  pub in_band : (req.redirect_uri == redirect_uri_oob) ≡ false
  pub new : lookup (base.id_source (w.drawn + 1)) w.store.auth_codes ≡ none

module _ (to_lower : String → String) (base : Server MemStorage) (form : CallbackForm)
    (req : AuthRequest) (identity : Identity) (w : World MemStorage) where
  -- The worlds after the callback and after the approval.
  abbrev after_callback : World MemStorage
  after_callback = (handle_connector_callback (on_memory to_lower base) form w).1

  abbrev after_approval : World MemStorage
  after_approval =
      (handle_approval (on_memory to_lower base) "POST" req.id "approve" after_callback).1

  -- On the in-memory storage, take a callback by GET whose state is not empty and is the ID of a stored
  -- request, with that request's connector or none in its path. If this connector is open in its
  -- stored version, has a login URL and returns an identity, and if the request has not expired, has
  -- "code" as its only response type and a redirect URI that parses and is not the out-of-band one,
  -- and the random ID of the code is not taken: then handleConnectorCallback runs to its end, so does
  -- the approval of the request by POST that comes next, and for thirty minutes from the making of
  -- the code the check of handleAuthCode gives the request's client and redirect URI a code with the
  -- identity's claims and connector data, and the request's client, connector, redirect URI, scopes
  -- and nonce.
  pub handle_connector_callback-redeemable :
      (client : Client)
      → IsAnswered form req identity w
      → IsCodeFlow base req w
      → client.id ≡ req.client_id
      → base.clock (w.ticks + 1 + 1) ≤ base.clock (w.ticks + 1) + 30 * minute
      → ((handle_connector_callback (on_memory to_lower base) form w).0 ≡ next tt)
        × ((handle_approval (on_memory to_lower base) "POST" req.id "approve" after_callback).0
            ≡ next tt)
        × (a : AuthCode) × ((check_code
              (on_memory to_lower base)
              (base.id_source (w.drawn + 1))
              req.redirect_uri
              client
              after_approval).0
            ≡ next a)
        × IsCodeFor req identity a
  handle_connector_callback-redeemable client i k same soon =
      let (callback, held) =
        handle_connector_callback-finished to_lower base form req identity w i.stored i.conn i.url
          i.method i.state i.known i.same_id i.path i.has_connector i.open_connector i.by_callback
          i.answered in
      let done = finished to_lower base form req identity w in
      let v = logged_in to_lower base form req identity w in
      let back : after_callback ≡ v = ap (λ z. z.1) callback in
      let approval =
        ap (handle_approval (on_memory to_lower base) "POST" req.id "approve") back
        ∙ handle_approval-run to_lower base v req.id done held refl in
      let (ran, gone, checked) =
        send_code_response-redeemable to_lower base done v done k.url k.unexpired held k.parsed
          k.code_flow k.in_band k.new client same soon in
      (
        ap (λ z. z.0) callback,
        ap (λ z. z.0) (approval ∙ ran),
        new_code done (base.id_source (w.drawn + 1)) (base.clock (w.ticks + 1)),
        ap
              (λ z.
                (check_code (on_memory to_lower base) (base.id_source (w.drawn + 1))
                  req.redirect_uri client z.1).0)
              approval
            ∙ checked,
        record {
          claims = refl;
          connector_data = refl;
          connector_id = refl;
          client_id = refl;
          redirect_uri = refl;
          scopes = refl;
          nonce = refl;
        },
      )

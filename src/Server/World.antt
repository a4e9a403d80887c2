-- ===== src/Server/World.antt =====
-- server/server.go: the server, the world that it changes, and what it calls outside this
-- repository.
use dex.Prelude.{ℕ, ◌+◌, String, Bool, true, false, Option, List, ◌∷◌, Result, ok, err, Error}
use dex.GoMap.{Map}
use dex.Storage.{Storage, Connector, Jwk, Bytes}
use dex.Server.Action.{Action, next, stop}

-- connector.Scopes
pub record Scopes : Type 0 where
  pub offline_access : Bool
  pub groups : Bool

-- connector.Identity
pub record Identity : Type 0 where
  pub user_id : String
  pub username : String
  pub email : String
  pub email_verified : Bool
  pub groups : List String
  pub connector_data : Bytes

-- What a connector object implements, one field for each interface of connector/connector.go that
-- the handlers ask for by a type assertion. The password database of the server reads the storage,
-- so a method takes the state of the storage.
pub record OpenedConnector (S : Type 0) : Type 0 where
  pub login_url : Option (Scopes → String → String → Result String)
  pub handle_callback : Scopes → List (String × String) → Result Identity
  pub login : Option (Scopes → String → String → S → Result (Identity × Bool) × S)
  pub prompt : String
  pub post_data : Option (Scopes → String → Result (String × String))
  pub handle_post : Scopes → String → String → Result Identity
  pub refresh : Option (Scopes → Identity → S → Result Identity × S)

-- `Connector` of server/server.go.
pub record ServerConnector (S : Type 0) : Type 0 where
  pub resource_version : String
  pub connector : OpenedConnector S

pub record TokenResponse : Type 0 where
  pub access_token : String
  pub token_type : String
  pub expires_in : ℕ
  pub refresh_token : String
  pub id_token : String

-- What a handler sends.
pub data Reply : Type 0 where
  -- renderError
  rendered_error : ℕ → String → Reply
  -- tokenErr: error, description, status
  token_error : String → String → ℕ → Reply
  -- the JSON of writeAccessToken
  access_token : TokenResponse → Reply
  -- redirect to a URL, with values added to its query, or set as its fragment
  query_redirect fragment_redirect : String → List (String × String) → Reply
  -- http.Redirect to a page
  redirect : String → Reply
  -- the templates
  oob_page : String → Reply
  approval_page : String → String → String → List String → Reply
  login_page : List (String × String × String) → Reply
  password_page : String → String → String → Bool → Bool → Reply
  saml_page : String → String → String → Reply
  -- the JSON of handlePublicKeys, and the maximal age in seconds
  public_keys : List Jwk → ℕ → Reply
  health_passed : Reply
  -- the handler panicked; net/http drops the connection
  aborted : Reply

pub record World (S : Type 0) : Type 0 where
  pub store : S
  pub connectors : Map String (ServerConnector S)
  -- how often the random source and the clock have been read
  pub drawn : ℕ
  pub ticks : ℕ
  -- what was sent, the latest first
  pub replies : List Reply

-- The signature algorithms and hashes that the code names.
pub data SigAlg : Type 0 where
  rs256 rs384 rs512 es256 es384 es512 other_alg : SigAlg

pub data HashAlg : Type 0 where
  sha256 sha384 sha512 : HashAlg

pub record FederatedIdClaims : Type 0 where
  pub connector_id : String
  pub user_id : String

pub record IdTokenClaims : Type 0 where
  pub issuer : String
  pub subject : String
  pub audience : List String
  pub expiry : ℕ
  pub issued_at : ℕ
  pub authorizing_party : String
  pub nonce : String
  pub access_token_hash : String
  pub email : String
  pub email_verified : Option Bool
  pub groups : List String
  pub name : String
  pub federated_id_claims : Option FederatedIdClaims

-- The parts of a URL that the code reads.
pub record Url : Type 0 where
  pub scheme : String
  pub host : String

-- Code outside this repository: net/url and net, the encodings of server/internal, jose, the hash
-- functions, fmt's %q, strconv.Itoa, bcrypt, and the constructors of the connectors.
pub record Platform (S : Type 0) : Type 0 where
  pub query_unescape : String → Option String
  pub parse_url : String → Option Url
  pub split_host_port : String → Option (String × String)
  pub quote : String → String
  pub itoa : ℕ → String
  pub quote_list : List String → String
  pub sign : Jwk → SigAlg → IdTokenClaims → Result String
  pub left_half_hash : HashAlg → String → String
  pub marshal_subject : String → String → Result String
  pub unmarshal_subject : String → Result (String × String)
  pub marshal_refresh : String → String → Result String
  pub unmarshal_refresh : String → Result (String × String)
  pub bcrypt_cost : Bytes → Result ℕ
  pub bcrypt_matches : Bytes → String → Bool
  pub open_connector : Connector → Result (OpenedConnector S)
  -- the path of a URL, path.Join, a URL with another path, and url.Values.Encode
  pub url_path : String → String
  pub join_path : List String → String
  pub with_path : String → String → String
  pub encode_values : List (String × String) → String

-- The fields of `Server` that do not change, with the sources of random IDs and of the time: the
-- results of successive calls.
pub record Server (S : Type 0) : Type 0 where
  pub storage : Storage S
  pub platform : Platform S
  pub open platform use *
  pub issuer : String
  pub supported_response_types : List String
  pub id_tokens_valid_for : ℕ
  pub skip_approval : Bool
  pub id_source : ℕ → String
  pub clock : ℕ → ℕ

module _ {S E : Type 0} where
  -- A call of the storage.
  abbrev pub call : {A : Type 0} → (S → Result A × S) → Action (World S) E (Result A)
  call op w = let (r, s) = op w.store in (next r, record w { store = s })

  -- storage.NewID()
  abbrev pub new_id : Server S → Action (World S) E String
  new_id server w = (next (server.id_source w.drawn), record w { drawn = w.drawn + 1 })

  -- s.now()
  abbrev pub now : Server S → Action (World S) E ℕ
  now server w = (next (server.clock w.ticks), record w { ticks = w.ticks + 1 })

  abbrev pub send : Reply → Action (World S) E (Unit {0})
  send r w = (next tt, record w { replies = r ∷ w.replies })

module _ {S A : Type 0} where
  -- Send, and return from the handler.
  abbrev pub refuse : Reply → Action (World S) (Unit {0}) A
  refuse r w = (stop tt, record w { replies = r ∷ w.replies })

  -- if err != nil { send; return }
  abbrev pub or_refuse : Result A → (Error → Reply) → Action (World S) (Unit {0}) A
  or_refuse (ok a) f w = (next a, w)
  or_refuse (err e) f w = (stop tt, record w { replies = f e ∷ w.replies })

module _ {S : Type 0} where
  abbrev pub refuse_if : Bool → Reply → Action (World S) (Unit {0}) (Unit {0})
  refuse_if true r w = (stop tt, record w { replies = r ∷ w.replies })
  refuse_if false r w = (next tt, w)

-- ===== src/Storage/Types.antt =====
-- storage/storage.go: the stored objects.
use dex.Prelude.{ℕ, Bool, String, List, [], Option, none}
use dex.GoMap.{Map}

abbrev pub Bytes : Type 0
Bytes = List ℕ

pub record Client : Type 0 where
  pub id : String
  pub secret : String
  pub redirect_uris : List String
  pub trusted_peers : List String
  pub public_client : Bool
  pub name : String
  pub logo_url : String

pub record Claims : Type 0 where
  pub user_id : String
  pub username : String
  pub email : String
  pub email_verified : Bool
  pub groups : List String

pub record AuthRequest : Type 0 where
  pub id : String
  pub client_id : String
  pub response_types : List String
  pub scopes : List String
  pub redirect_uri : String
  pub nonce : String
  pub state : String
  pub force_approval_prompt : Bool
  pub expiry : ℕ
  pub logged_in : Bool
  pub claims : Claims
  pub connector_id : String
  pub connector_data : Bytes

pub record AuthCode : Type 0 where
  pub id : String
  pub client_id : String
  pub redirect_uri : String
  pub nonce : String
  pub scopes : List String
  pub connector_id : String
  pub connector_data : Bytes
  pub claims : Claims
  pub expiry : ℕ

pub record RefreshToken : Type 0 where
  pub id : String
  pub token : String
  pub created_at : ℕ
  pub last_used : ℕ
  pub client_id : String
  pub connector_id : String
  pub connector_data : Bytes
  pub claims : Claims
  pub scopes : List String
  pub nonce : String

pub record RefreshTokenRef : Type 0 where
  pub id : String
  pub client_id : String
  pub created_at : ℕ
  pub last_used : ℕ

-- `refresh` is indexed by the client of the refresh token.
pub record OfflineSessions : Type 0 where
  pub user_id : String
  pub conn_id : String
  pub refresh : Map String RefreshTokenRef

pub record Password : Type 0 where
  pub email : String
  pub hash : Bytes
  pub username : String
  pub user_id : String

pub record Connector : Type 0 where
  pub id : String
  pub type : String
  pub name : String
  pub resource_version : String
  pub config : Bytes

-- The curves that server/oauth2.go tells apart.
pub data Curve : Type 0 where
  p256 p384 p521 other_curve : Curve

-- The key held by a `jose.JSONWebKey`: its kind, and a number that stands for the key pair.
pub data Key : Type 0 where
  rsa_private rsa_public unsupported_key : ℕ → Key
  ecdsa_private : Curve → ℕ → Key

-- `jose.JSONWebKey`; its `Key` field may be nil.
pub record Jwk : Type 0 where
  pub key : Option Key
  pub key_id : String
  pub algorithm : String
  pub use_for : String

pub record VerificationKey : Type 0 where
  pub public_key : Jwk
  pub expiry : ℕ

pub record Keys : Type 0 where
  pub signing_key : Option Jwk
  pub signing_key_pub : Option Jwk
  pub verification_keys : List VerificationKey
  pub next_rotation : ℕ

-- The zero value.
abbrev pub no_keys : Keys
no_keys = record {
  signing_key = none;
  signing_key_pub = none;
  verification_keys = [];
  next_rotation = 0;
}

pub record GcResult : Type 0 where
  pub auth_requests : ℕ
  pub auth_codes : ℕ

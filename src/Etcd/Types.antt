-- ===== src/Etcd/Types.antt =====
-- storage/etcd/types.go: the objects as they are written to etcd.
use dex.Prelude.{ℕ, Bool, false, String, List, [], Option, none, some}
use dex.GoMap.{Map}
use dex.Storage.{Bytes, RefreshTokenRef}
use dex.Storage as Stored

pub record Claims : Type 0 where
  pub user_id : String
  pub username : String
  pub email : String
  pub email_verified : Bool
  pub groups : List String

unfoldable pub from_storage_claims : Stored.Claims → Claims
from_storage_claims i = record {
  user_id = i.user_id;
  username = i.username;
  email = i.email;
  email_verified = i.email_verified;
  groups = i.groups;
}

unfoldable pub to_storage_claims : Claims → Stored.Claims
to_storage_claims i = record {
  user_id = i.user_id;
  username = i.username;
  email = i.email;
  email_verified = i.email_verified;
  groups = i.groups;
}

pub record AuthCode : Type 0 where
  pub id : String
  pub client_id : String
  pub redirect_uri : String
  pub nonce : String
  pub scopes : List String
  pub connector_id : String
  pub connector_data : Bytes
  pub claims : Claims
  pub expiry : ℕ

unfoldable pub from_storage_auth_code : Stored.AuthCode → AuthCode
unfolding from_storage_claims
from_storage_auth_code a = record {
  id = a.id;
  client_id = a.client_id;
  redirect_uri = a.redirect_uri;
  nonce = a.nonce;
  scopes = a.scopes;
  connector_id = a.connector_id;
  connector_data = a.connector_data;
  claims = from_storage_claims a.claims;
  expiry = a.expiry;
}

pub record AuthRequest : Type 0 where
  pub id : String
  pub client_id : String
  pub response_types : List String
  pub scopes : List String
  pub redirect_uri : String
  pub nonce : String
  pub state : String
  pub force_approval_prompt : Bool
  pub expiry : ℕ
  pub logged_in : Bool
  pub claims : Claims
  pub connector_id : String
  pub connector_data : Bytes

unfoldable pub from_storage_auth_request : Stored.AuthRequest → AuthRequest
unfolding from_storage_claims
from_storage_auth_request a = record {
  id = a.id;
  client_id = a.client_id;
  response_types = a.response_types;
  scopes = a.scopes;
  redirect_uri = a.redirect_uri;
  nonce = a.nonce;
  state = a.state;
  force_approval_prompt = a.force_approval_prompt;
  expiry = a.expiry;
  logged_in = a.logged_in;
  claims = from_storage_claims a.claims;
  connector_id = a.connector_id;
  connector_data = a.connector_data;
}

unfoldable pub to_storage_auth_request : AuthRequest → Stored.AuthRequest
unfolding to_storage_claims
to_storage_auth_request a = record {
  id = a.id;
  client_id = a.client_id;
  response_types = a.response_types;
  scopes = a.scopes;
  redirect_uri = a.redirect_uri;
  nonce = a.nonce;
  state = a.state;
  force_approval_prompt = a.force_approval_prompt;
  expiry = a.expiry;
  logged_in = a.logged_in;
  claims = to_storage_claims a.claims;
  connector_id = a.connector_id;
  connector_data = a.connector_data;
}

pub record RefreshToken : Type 0 where
  pub id : String
  pub token : String
  pub created_at : ℕ
  pub last_used : ℕ
  pub client_id : String
  pub connector_id : String
  pub connector_data : Bytes
  pub claims : Claims
  pub scopes : List String
  pub nonce : String

unfoldable pub to_storage_refresh_token : RefreshToken → Stored.RefreshToken
unfolding to_storage_claims
to_storage_refresh_token r = record {
  id = r.id;
  token = r.token;
  created_at = r.created_at;
  last_used = r.last_used;
  client_id = r.client_id;
  connector_id = r.connector_id;
  connector_data = r.connector_data;
  claims = to_storage_claims r.claims;
  scopes = r.scopes;
  nonce = r.nonce;
}

unfoldable pub from_storage_refresh_token : Stored.RefreshToken → RefreshToken
unfolding from_storage_claims
from_storage_refresh_token r = record {
  id = r.id;
  token = r.token;
  created_at = r.created_at;
  last_used = r.last_used;
  client_id = r.client_id;
  connector_id = r.connector_id;
  connector_data = r.connector_data;
  claims = from_storage_claims r.claims;
  scopes = r.scopes;
  nonce = r.nonce;
}

-- The map of the references may be nil.
pub record OfflineSessions : Type 0 where
  pub user_id : String
  pub conn_id : String
  pub refresh : Option (Map String RefreshTokenRef)

unfoldable pub from_storage_offline_sessions : Stored.OfflineSessions → OfflineSessions
from_storage_offline_sessions o = record {
  user_id = o.user_id;
  conn_id = o.conn_id;
  refresh = some o.refresh;
}

-- A nil map is replaced by an empty one.
unfoldable pub to_storage_offline_sessions : OfflineSessions → Stored.OfflineSessions
to_storage_offline_sessions o = record {
  user_id = o.user_id;
  conn_id = o.conn_id;
  refresh = elim o.refresh [ none ↦ [] | some refs ↦ refs ];
}

-- The zero values.
abbrev pub zero_claims : Claims
zero_claims = record {
  user_id = "";
  username = "";
  email = "";
  email_verified = false;
  groups = [];
}

abbrev pub zero_auth_request : AuthRequest
zero_auth_request = record {
  id = "";
  client_id = "";
  response_types = [];
  scopes = [];
  redirect_uri = "";
  nonce = "";
  state = "";
  force_approval_prompt = false;
  expiry = 0;
  logged_in = false;
  claims = zero_claims;
  connector_id = "";
  connector_data = [];
}

abbrev pub zero_refresh_token : RefreshToken
zero_refresh_token = record {
  id = "";
  token = "";
  created_at = 0;
  last_used = 0;
  client_id = "";
  connector_id = "";
  connector_data = [];
  claims = zero_claims;
  scopes = [];
  nonce = "";
}

abbrev pub zero_offline_sessions : OfflineSessions
zero_offline_sessions = record { user_id = ""; conn_id = ""; refresh = none }

abbrev pub zero_client : Stored.Client
zero_client = record {
  id = "";
  secret = "";
  redirect_uris = [];
  trusted_peers = [];
  public_client = false;
  name = "";
  logo_url = "";
}

abbrev pub zero_password : Stored.Password
zero_password = record { email = ""; hash = []; username = ""; user_id = "" }

abbrev pub zero_connector : Stored.Connector
zero_connector = record { id = ""; type = ""; name = ""; resource_version = ""; config = [] }

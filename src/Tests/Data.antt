-- ===== src/Tests/Data.antt =====
-- A server on the in-memory storage, with simple stand-ins for the code outside this repository.
use dex.Prelude.{true, false, some, none, [], ◌∷◌, ok, err, other}
use dex.Storage.{Client, AuthCode, RefreshToken, Keys, Claims, Connector, OfflineSessions, no_keys}
use dex.Memory.{MemStorage, empty, memory, session_id}
use dex.Server.World.{World, Server, Platform, OpenedConnector}
use dex.Server.Rotation.{private_jwk, public_jwk}

abbrev pub opened : OpenedConnector MemStorage
opened = record {
  login_url = none;
  handle_callback = λ scopes form. err (other "no callback");
  login = none;
  prompt = "";
  post_data = none;
  handle_post = λ scopes response id. err (other "no SAML");
  refresh = none;
}

abbrev pub platform : Platform MemStorage
platform = record {
  query_unescape = some;
  parse_url = λ u. some (record { scheme = "https"; host = "web" });
  split_host_port = λ h. none;
  quote = λ s. s;
  itoa = λ n. "";
  quote_list = λ l. "";
  sign = λ key alg tok. ok "signed";
  left_half_hash = λ alg s. "hash";
  marshal_subject = λ user conn. ok user;
  unmarshal_subject = λ s. ok (s, "ldap");
  marshal_refresh = λ id token. ok id;
  unmarshal_refresh = λ s. ok (s, "value");
  bcrypt_cost = λ hash. ok 10;
  bcrypt_matches = λ hash password. true;
  open_connector = λ c. ok opened;
  url_path = λ u. "";
  join_path = λ items. "";
  with_path = λ u path. path;
  encode_values = λ values. "";
}

abbrev pub server : Server MemStorage
server = record {
  storage = memory (λ s. s);
  platform = platform;
  issuer = "https://dex";
  supported_response_types = "code" ∷ [];
  id_tokens_valid_for = 100;
  skip_approval = false;
  id_source = λ n. "random";
  clock = λ n. 50;
}

abbrev pub web : Client
web = record {
  id = "web";
  secret = "secret";
  redirect_uris = "https://web/callback" ∷ [];
  trusted_peers = [];
  public_client = false;
  name = "Web";
  logo_url = "";
}

abbrev pub jane : Claims
jane = record {
  user_id = "jane";
  username = "Jane";
  email = "jane@example.org";
  email_verified = true;
  groups = [];
}

abbrev pub code : AuthCode
code = record {
  id = "code";
  client_id = "web";
  redirect_uri = "https://web/callback";
  connector_id = "ldap";
  nonce = "";
  scopes = "openid" ∷ [];
  connector_data = [];
  claims = jane;
  expiry = 60;
}

abbrev pub refresh : RefreshToken
refresh = record {
  id = "refresh";
  token = "value";
  created_at = 10;
  last_used = 10;
  client_id = "web";
  connector_id = "ldap";
  connector_data = [];
  claims = jane;
  scopes = "openid" ∷ "offline_access" ∷ [];
  nonce = "";
}

abbrev pub signing_keys : Keys
signing_keys = record no_keys {
  signing_key = some (private_jwk "key" 7);
  signing_key_pub = some (public_jwk "key" 7);
  next_rotation = 1000;
}

abbrev pub ldap : Connector
ldap = record { id = "ldap"; type = "ldap"; name = "LDAP"; resource_version = "1"; config = [] }

abbrev pub session : OfflineSessions
session = record {
  user_id = "jane";
  conn_id = "ldap";
  refresh =
      ("web", record { id = "refresh"; client_id = "web"; created_at = 10; last_used = 10 }) ∷ [];
}

abbrev pub store : MemStorage
store = record empty {
  clients = ("web", web) ∷ [];
  auth_codes = ("code", code) ∷ [];
  refresh_tokens = ("refresh", refresh) ∷ [];
  connectors = ("ldap", ldap) ∷ [];
  offline_sessions = (session_id "jane" "ldap", session) ∷ [];
  keys = signing_keys;
}

abbrev pub world : World MemStorage
world = record { store = store; connectors = []; drawn = 0; ticks = 0; replies = [] }

-- ===== src/Lib.antt =====
-- dex, a federated OpenID Connect provider: the storages, the rotation of the signing keys, the
-- checks of authorization requests, the login, ID tokens, the code response, the token endpoint and
-- the API.
--
-- The parts and their files:
--   Prelude         lists, results and Boolean tests that all parts share
--   GoMap           Go's map as an association list; the order of a range loop is the list's
--   Text            strings.Fields and strings.TrimPrefix
--   Storage         storage/storage.go: the stored records (Storage/Types) and the interface
--                   `Storage` as a record of operations over a state (Storage/Interface)
--   Storage/Static  storage/static.go: clients, passwords and connectors from the configuration,
--                   wrapped around any storage
--   Memory          storage/memory/memory.go: `MemStorage` is memStorage, and `memory` its methods.
--                   A method holds the lock throughout, so it is one step. Memory/Table is the body
--                   that the methods share, Memory/Methods has what each of them does to its map.
--   Etcd            storage/etcd/etcd.go and types.go: Etcd/Db has the client of etcd as a record of
--                   calls, with getKey, deleteKey, txnCreate and txnUpdate; Etcd/Objects,
--                   Etcd/Configured, Etcd/Sessions and Etcd/Collect the methods; Etcd/Laws what the
--                   code relies on of etcd
--   Saml            connector/saml/saml.go: the checks of a SAML response (Saml) and HandlePOST with
--                   verifyResponseSig (Saml/Post), on the types of Saml/Types, with what is
--                   signed in Saml/Signed; openConnector
--                   and POSTData (Saml/Open)
--   Server/Rotation, Server/KeyCacher
--                   server/rotation.go and keyCacher of server/server.go. Server/Rotation/Reach has
--                   the histories: time passes, this server or another one on the same storage
--                   rotates, this server publishes its keys or signs a token.
--   Server/Action   handlers as actions on the world: `next` is a handler that runs to its end,
--                   `stop` one that returned early
--   Server/World    `World` is what handlers change: the storage's state, the open connectors, and
--                   the replies, the latest first. `Server` holds the configuration, `Platform` the
--                   code outside this repository.
--   Server/OAuth2   server/oauth2.go: parseAuthorizationRequest (AuthRequest), newIDToken (IdToken)
--   Server/Connectors
--                   passwordDB, OpenConnector and getConnector of server/server.go
--   Server/Token    server/handlers.go: handleToken, handleAuthCode, handleRefreshToken and
--                   writeAccessToken. Server/Token/Gone has the laws of a storage that the single
--                   use of a code rests on, Server/Token/OnMemory the in-memory storage's. Server/Token/Rotated and
--                   Contended have two requests that read the same refresh token.
--   Server/Login    server/handlers.go: handleAuthorization, handleConnectorLogin and
--                   handleConnectorCallback, with authErr.Handle of server/oauth2.go
--   Server/Setup    server/server.go: newServer's checks and its opening of connectors, the routes of
--                   the handlers, and the rounds of the garbage collection
--   Server/Ensures  what an action keeps and ensures, one rule for each way to build an action, and
--                   what is known of one that stops
--   Server/Vouched  whom the connectors vouch for, handler by handler; Server/Vouched/OnMemory has the
--                   laws for the in-memory storage
--   Server/Api      server/api.go: the methods of dexAPI
--   Server/Approval, Server/Status
--                   server/handlers.go: finalizeLogin, handleApproval, sendCodeResponse; and
--                   handlePublicKeys, handleHealth
--   Tests           the theorems at concrete inputs
--
-- The token endpoint calls the storage through the interface, mints tokens by Server/OAuth2/IdToken,
-- whose keys come from the storage, and asks Server/Connectors whether a user can still log in.
--
-- Choices. A time is a natural number of nanoseconds since Go's zero time; Unix times before 1970
-- are 0, and a token's or a key's remaining life is 0 when it is over. `[]byte` is a list of
-- numbers. The clock and the random IDs are streams, read in the order of the code; the clock of the key cache stands
-- still within one GetKeys, and signing a token is one step of a history, so no rotation comes
-- between reading the keys and reading the clock. The updater of UpdateOfflineSessions also returns
-- the text that Go's closure assigns to a captured variable. A nil dereference is an error that
-- ends the handler. Loops are by recursion on a list, but for openConnector's loop over the PEM blocks:
-- it has one unit of fuel more than the data has bytes, and a block takes at least one byte.
--
-- Outside the model, as fields of `Platform` or parameters: strings.ToLower, net/url, net's
-- SplitHostPort, fmt's %q, strconv.Itoa, bcrypt, jose's signing and hashes, path.Join, the client of etcd, encoding/json,
-- encoding/base64, encoding/xml, encoding/pem, crypto/x509, ioutil.ReadFile, etree and goxmldsig, strings.Split, the protobuf encodings of
-- server/internal, and the constructors of the connectors. The texts of checkCost's errors are
-- without their numbers.
--
-- Not modelled: discovery, and in newServer the metrics, CORS and the static pages; the SQL and
-- Kubernetes storages, which are clients of other services; the connectors
-- other than SAML's, for the same reason;
-- the templates, the commands and generated code. In the etcd storage a context never ends a call
-- early but by an error of the client.
mod Prelude
pub mod GoMap
pub mod Text
pub mod Storage
pub mod Memory
pub mod Etcd
pub mod Saml
pub mod Server
mod Tests

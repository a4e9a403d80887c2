-- ===== src/Server/Token/Gone.antt =====
-- server/handlers.go: a code that is gone stays gone in what handleAuthCode does after it has deleted
-- the code.
use dex.Prelude.{String, Result, ok, err, not_found, ◌≡◌}
use dex.Storage.{Storage, RefreshToken, OfflineSessions}
use dex.Server.World.{Server}
use dex.Server.Ensures.{Property, Any, Calls, Ensures-weaken}
use dex.Server.Connectors.Opening.{Opening, get_connector-Ensures}
use dex.Server.Token.Kept.{HandOutLaws}

-- A code that the storage does not have.
abbrev pub Gone : {S : Type 0} → Storage S → String → S → Type 0
Gone st code s = (st.get_auth_code code s).0 ≡ err not_found

-- An operation of the storage that keeps a property.
abbrev pub StoreKeeps : {S A : Type 0} → (S → Type 0) → (S → Result A × S) → Type 0
StoreKeeps {S} K op = (s : S) → K s → K (op s).1

-- What is asked of a storage: a deleted code is gone, and only the other methods that
-- handleAuthCode calls afterwards leave it so.
pub record CodeLaws {S : Type 0} (st : Storage S) : Type 0 where
  pub deleted :
      (code : String) (s : S)
      → (st.delete_auth_code code s).0 ≡ ok tt
      → Gone st code (st.delete_auth_code code s).1
  pub connector : (code id : String) → StoreKeeps (Gone st code) (st.get_connector id)
  pub refresh : (code : String) (r : RefreshToken) → StoreKeeps (Gone st code) (st.create_refresh r)
  pub delete_refresh : (code id : String) → StoreKeeps (Gone st code) (st.delete_refresh id)
  pub get_session :
      (code user conn : String) → StoreKeeps (Gone st code) (st.get_offline_sessions user conn)
  pub create_session :
      (code : String) (o : OfflineSessions)
      → StoreKeeps (Gone st code) (st.create_offline_sessions o)
  pub update_session :
      (code user conn : String) (f : OfflineSessions → Result (OfflineSessions × String))
      → StoreKeeps (Gone st code) (st.update_offline_sessions user conn f)

module _ {S : Type 0} (server : Server S) (laws : CodeLaws server.storage) (code : String) where
  abbrev pub CodeGone : Property S
  CodeGone s c = Gone server.storage code s

  kept :
      {A : Type 0} {op : S → Result A × S}
      → StoreKeeps (Gone server.storage code) op
      → Calls CodeGone op Any
  kept k = record { at = λ s c h. (k s h, tt) }

  gone-Opening : Opening server CodeGone Any
  gone-Opening = record {
    read = λ id. kept (laws.connector code id);
    good = λ s c id sc h e. tt;
    opening = λ s c conn o h e. (h, tt);
  }

  pub gone-HandOutLaws : HandOutLaws server CodeGone Any
  gone-HandOutLaws = record {
    connector = λ id.
        Ensures-weaken (λ r h. tt) (get_connector-Ensures server CodeGone Any gone-Opening id);
    create_refresh = λ r v. kept (laws.refresh code r);
    delete_refresh = λ id. kept (laws.delete_refresh code id);
    get_session = λ user conn. kept (laws.get_session code user conn);
    create_session = λ o. kept (laws.create_session code o);
    update_session = λ user conn f. kept (laws.update_session code user conn f);
  }

-- ===== src/Server/Vouched/OnMemory.antt =====
-- server/ on storage/memory/memory.go: the laws of the vouched users for the in-memory storage.
use dex.Prelude.{
  sym, ok_injective, some_injective, String, ok, ◌≡◌, subst, ◌==◌, string_eq, Bool-cases, inl, inr,
}
use dex.Storage.{AuthCode, RefreshToken, Password, Connector}
use dex.Memory.Every.{
  Every, create-Every, get-Every, remove-Every, update-Every, insert-Every, sweep-Every,
}
use dex.Memory.{
  MemStorage, memory, session_id_eq, create_auth_request, get_auth_request, update_auth_request,
  delete_auth_request, create_auth_code, get_auth_code, delete_auth_code, create_refresh,
  get_refresh, update_refresh_token, delete_refresh, get_offline_sessions, create_offline_sessions,
  update_offline_sessions, get_client, get_connector, list_connectors, garbage_collect, get_keys,
  get_password,
}
use dex.Server.World.{Server, OpenedConnector, Identity, Scopes}
use dex.Server.Connectors.{opened, password_db, password_db_login, password_db_refresh}
use dex.Server.Connectors.PasswordDb.{password_db_login-Accepted}
use dex.Server.Connectors.Opening.{Opening, entry}
use dex.Server.Approval.Code.{on_memory}
use dex.Server.Ensures.{Property, Returns, Returns-err}
use dex.Server.Vouched.{Honest, Answered, Vouches, Sound, Laws}

-- Every stored request that is logged in, code, refresh token and password names a user of `V`.
abbrev pub Names : (String → Type 0) → MemStorage → Type 0
Names V s =
    Every (Honest V) s.auth_reqs
    × Every (λ (c : AuthCode). V c.claims.user_id) s.auth_codes
    × Every (λ (r : RefreshToken). V r.claims.user_id) s.refresh_tokens
    × Every (λ (p : Password). V p.user_id) s.passwords

module _ (to_lower : String → String) (base : Server MemStorage) (V : String → Type 0) where
  abbrev Kept : Property MemStorage
  Kept = Sound (Names V) V

  password_db_login-Vouched :
      (scopes : Scopes) (user password : String) (s : MemStorage)
      → Names V s
      → Returns
          (Answered V)
          (password_db_login (memory to_lower) base.platform scopes user password s).0
  unfolding get_password
  password_db_login-Vouched scopes user password s h = record {
    at = λ (identity, accepted) r a.
        let (p, found, cost, matches, same) =
          password_db_login-Accepted (memory to_lower) base.platform scopes user password identity s
            (subst
              (λ b.
                (password_db_login (memory to_lower) base.platform scopes user password s).0
                ≡ ok (identity, b))
              a r) in
        subst (λ (i : Identity). V i.user_id) (sym same)
          (get-Every (to_lower user) s.passwords h.3 p found);
  }

  password_db-Vouches : Vouches (Names V) V (password_db (memory to_lower) base.platform)
  unfolding password_db_login password_db_refresh get_password
  password_db-Vouches = record {
    login = λ f e scopes user password s h.
        subst
          (λ g.
            Names V (g scopes user password s).1
            × Returns (Answered V) (g scopes user password s).0)
          (some_injective e) (h, password_db_login-Vouched scopes user password s h);
    callback = λ scopes query. Returns-err _;
    post = λ scopes response id. Returns-err _;
    refresh =
        λ f e scopes ident s h. subst (λ g. Names V (g scopes ident s).1) (some_injective e) h;
  }

  module _
      (opens : (c : Connector) (o : OpenedConnector MemStorage)
        → base.open_connector c ≡ ok o
        → Vouches (Names V) V o) where
    opened-Vouches :
        (c : Connector) (o : OpenedConnector MemStorage)
        → opened (on_memory to_lower base) c ≡ ok o
        → Vouches (Names V) V o
    opened-Vouches c o e = elim (Bool-cases (c.type == "local")) [
      | inl l ↦ subst (Vouches (Names V) V) (ok_injective (rw l at e)) password_db-Vouches
      | inr l ↦ opens c o (rw l at e)
    ]

    memory-Opening : Opening (on_memory to_lower base) Kept (λ sc. Vouches (Names V) V sc.connector)
    unfolding get_connector
    memory-Opening = record {
      read = λ id. record { at = λ s c h. (h, tt) };
      good = λ s c id sc h e. h.1 id sc e;
      opening = λ s c conn o h e.
          let v = opened-Vouches conn o e in
          ((h.0, insert-Every conn.id (entry conn o) c v h.1), v);
    }

    pub memory-Laws : Laws (Names V) V (on_memory to_lower base)
    unfolding create_auth_request get_auth_request update_auth_request delete_auth_request
        create_auth_code get_auth_code delete_auth_code create_refresh get_refresh
        update_refresh_token delete_refresh get_offline_sessions create_offline_sessions
        update_offline_sessions get_client list_connectors get_keys garbage_collect
    memory-Laws = record {
      opening = memory-Opening;
      create_auth_request = λ a q. record {
        at = λ s c h. (((create-Every a.id s.auth_reqs h.0.0 a q, h.0.1, h.0.2, h.0.3), h.1), tt);
      };
      get_auth_request =
          λ id. record { at = λ s c h. (h, record { at = get-Every id s.auth_reqs h.0.0 }) };
      update_auth_request = λ id f q. record {
        at = λ s c h. (((update-Every id s.auth_reqs h.0.0 f q, h.0.1, h.0.2, h.0.3), h.1), tt);
      };
      delete_auth_request = λ id. record {
        at = λ s c h. (((remove-Every id s.auth_reqs h.0.0, h.0.1, h.0.2, h.0.3), h.1), tt);
      };
      create_auth_code = λ a q. record {
        at = λ s c h.
            let (reqs, codes, tokens, passwords) = h.0 in
            (((reqs, create-Every a.id s.auth_codes codes a q, tokens, passwords), h.1), tt);
      };
      get_auth_code =
          λ id. record { at = λ s c h. (h, record { at = get-Every id s.auth_codes h.0.1 }) };
      delete_auth_code = λ id. record {
        at = λ s c h.
            let (reqs, codes, tokens, passwords) = h.0 in
            (((reqs, remove-Every id s.auth_codes codes, tokens, passwords), h.1), tt);
      };
      create_refresh = λ r q. record {
        at = λ s c h.
            let (reqs, codes, tokens, passwords) = h.0 in
            (((reqs, codes, create-Every r.id s.refresh_tokens tokens r q, passwords), h.1), tt);
      };
      get_refresh = λ id. record { at = λ s c h. (h, tt) };
      update_refresh_token = λ id f q. record {
        at = λ s c h.
            let (reqs, codes, tokens, passwords) = h.0 in
            (((reqs, codes, update-Every id s.refresh_tokens tokens f q, passwords), h.1), tt);
      };
      delete_refresh = λ id. record {
        at = λ s c h.
            let (reqs, codes, tokens, passwords) = h.0 in
            (((reqs, codes, remove-Every id s.refresh_tokens tokens, passwords), h.1), tt);
      };
      get_session = λ user conn. record { at = λ s c h. (h, tt) };
      create_session = λ o. record { at = λ s c h. (h, tt) };
      update_session = λ user conn f. record { at = λ s c h. (h, tt) };
      get_client = λ id. record { at = λ s c h. (h, tt) };
      list_connectors = record { at = λ s c h. (h, tt) };
      get_keys = record { at = λ s c h. (h, tt) };
      garbage_collect = λ t. record {
        at = λ s c h.
            let (reqs, codes, tokens, passwords) = h.0 in
            (
              (
                (
                  sweep-Every _ t s.auth_reqs s.auth_reqs 0 reqs,
                  sweep-Every _ t s.auth_codes s.auth_codes 0 codes,
                  tokens,
                  passwords,
                ),
                h.1,
              ),
              tt,
            );
      };
    }

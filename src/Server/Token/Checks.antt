-- ===== src/Server/Token/Checks.antt =====
-- server/handlers.go: what the token endpoint has checked when a handler has sent tokens.
use dex.Prelude.{
  String, true, not, ◌||◌, ◌≤◌, List, ◌≡◌, arith, eq_iff, ◌==◌, string_eq, nat_eq, ltb, ok, All,
  contains, Bool-cases, Result-cases, All-In, [], ◌∷◌, In, contains_iff_In, select, inl, inr,
  length,
}
use dex.Text.{fields}
use dex.Storage.{Client, AuthCode, RefreshToken}
use dex.Server.Action.{next, bind-next}
use dex.Server.World.{World, Server}
use dex.Server.Token.AuthCode.{check_code, handle_auth_code}
use dex.Server.Token.Refresh.{
  check_refresh, decode_token, requested_scopes, unauthorized_scopes, refresh_with,
  handle_refresh_token,
}
use dex.Server.Token.{authenticate}

granted_of_none :
    (granted requested : List String)
    → length (unauthorized_scopes granted requested) == 0 ≡ true
    → (s : String) → In s requested
    → In s granted
unfolding unauthorized_scopes select
granted_of_none granted [] h s i = elim i [ ]
granted_of_none granted (x ∷ requested) h s i = elim (Bool-cases (contains granted x)) [
  | inr p ↦ ground (arith, p)
  | inl p ↦ elim i [
    | inl e ↦ rw e (contains_iff_In granted x p)
    | inr j ↦ granted_of_none granted requested (ground (arith, p)) s j
  ]
]

module _ {S : Type 0} (server : Server S) where
  -- A client that the token endpoint takes as authenticated is the one that the storage gives for
  -- the ID that was sent, and its secret is the one that was sent.
  pub authenticate-next :
      (client_id client_secret : String) (client : Client) (w w' : World S)
      → authenticate server client_id client_secret w ≡ (next client, w')
      → ((server.storage.get_client client_id w.store).0 ≡ ok client)
        × (client.secret ≡ client_secret)
  unfolding authenticate
  authenticate-next client_id client_secret client w w' h =
      elim (Result-cases (server.storage.get_client client_id w.store).0) [
        | inr (x, e) ↦ ground (arith, e)
        | inl (c, e) ↦ elim (Bool-cases (c.secret == client_secret)) [
          | inr v ↦ ground (arith, e, v)
          | inl v ↦ (ground (arith, e, v), ground (arith, e, v, eq_iff c.secret client_secret))
        ]
      ]

  check_code-next :
      (code uri : String) (client : Client) (a : AuthCode) (w w' : World S)
      → check_code server code uri client w ≡ (next a, w')
      → ((server.storage.get_auth_code code w.store).0 ≡ ok a)
        × (server.clock w.ticks ≤ a.expiry)
        × (a.client_id ≡ client.id)
        × (a.redirect_uri ≡ uri)
  unfolding check_code
  check_code-next code uri client a w w' h =
      elim (Result-cases (server.storage.get_auth_code code w.store).0) [
        | inr (x, e) ↦ ground (arith, e)
        | inl (c, e) ↦
            elim (Bool-cases
              (ltb c.expiry (server.clock w.ticks) || not (c.client_id == client.id))) [
                | inl v ↦ ground (arith, e, v)
                | inr v ↦ elim (Bool-cases (c.redirect_uri == uri)) [
                  | inr q ↦ ground (arith, e, v, q)
                  | inl q ↦
                      let same : c ≡ a = ground (arith, e, v, q) in
                      rw (← same) (
                        e,
                        ground (arith, v),
                        ground (arith, v, eq_iff c.client_id client.id),
                        (eq_iff c.redirect_uri uri).0 q,
                      )
                ]
              ]
      ]

  -- When handleAuthCode sends tokens, the code was in the storage, had not expired at the time that
  -- was read, and was issued to the authenticated client for the redirect URI that was sent.
  pub handle_auth_code-next :
      (code redirect_uri : String) (client : Client) (u : Unit {0}) (w w' : World S)
      → handle_auth_code server code redirect_uri client w ≡ (next u, w')
      → (a : AuthCode) × ((server.storage.get_auth_code code w.store).0 ≡ ok a)
        × (server.clock w.ticks ≤ a.expiry)
        × (a.client_id ≡ client.id)
        × (a.redirect_uri ≡ redirect_uri)
  unfolding handle_auth_code
  handle_auth_code-next code redirect_uri client u w w' h =
      let (a, v, e, k) = bind-next (check_code server code redirect_uri client) _ w h in
      let (stored, fresh, same, uri) = check_code-next code redirect_uri client a w v e in
      (a, stored, fresh, same, uri)

  check_refresh-next :
      (code : String) (client : Client) (refresh : RefreshToken) (w w' : World S)
      → check_refresh server code client w ≡ (next refresh, w')
      → ((server.storage.get_refresh (decode_token server code).0 w.store).0 ≡ ok refresh)
        × (refresh.client_id ≡ client.id)
        × (refresh.token ≡ (decode_token server code).1)
  unfolding check_refresh
  check_refresh-next code client refresh w w' h = elim (Bool-cases (code == "")) [
    | inl p ↦ ground (arith, p)
    | inr p ↦
        elim (Result-cases (server.storage.get_refresh (decode_token server code).0 w.store).0) [
          | inr (x, e) ↦ ground (arith, p, e)
          | inl (c, e) ↦ elim (Bool-cases (c.client_id == client.id)) [
            | inr v ↦ ground (arith, p, e, v)
            | inl v ↦ elim (Bool-cases (c.token == (decode_token server code).1)) [
              | inr q ↦ ground (arith, p, e, v, q)
              | inl q ↦
                  let same : c ≡ refresh = ground (arith, p, e, v, q) in
                  rw (← same) (
                    e,
                    (eq_iff c.client_id client.id).0 v,
                    (eq_iff c.token (decode_token server code).1).0 q,
                  )
            ]
          ]
        ]
  ]

  requested_scopes-granted :
      (scope : String) (refresh : RefreshToken) (scopes : List String) (w w' : World S)
      → requested_scopes server scope refresh w ≡ (next scopes, w')
      → (s : String) → In s scopes
      → In s refresh.scopes
  unfolding requested_scopes
  requested_scopes-granted scope refresh scopes w w' h s i = elim (Bool-cases (scope == "")) [
    | inl p ↦ let same : refresh.scopes ≡ scopes = ground (arith, p) in rw same i
    | inr p ↦ elim (Bool-cases (length (unauthorized_scopes refresh.scopes (fields scope)) == 0)) [
      | inr q ↦ ground (arith, p, q)
      | inl q ↦
          let same : fields scope ≡ scopes = ground (arith, p, q) in
          granted_of_none refresh.scopes (fields scope) q s (rw same i)
    ]
  ]

  -- When handleRefreshToken sends tokens, the refresh token with the decoded ID was in the storage,
  -- belonged to the authenticated client and had the decoded value, and the handler went on from
  -- there with scopes that all are among those of the refresh token.
  pub handle_refresh_token-next :
      (code scope : String) (client : Client) (u : Unit {0}) (w w' : World S)
      → handle_refresh_token server code scope client w ≡ (next u, w')
      → (refresh : RefreshToken) × (scopes : List String) × (v : World S)
        × ((server.storage.get_refresh (decode_token server code).0 w.store).0 ≡ ok refresh)
        × (refresh.client_id ≡ client.id)
        × (refresh.token ≡ (decode_token server code).1)
        × All (λ s. In s refresh.scopes) scopes
        × (refresh_with server refresh scopes client v ≡ (next u, w'))
  unfolding handle_refresh_token
  handle_refresh_token-next code scope client u w w' h =
      let (refresh, w₁, e₁, k₁) = bind-next (check_refresh server code client) _ w h in
      let (scopes, w₂, e₂, k₂) = bind-next (requested_scopes server scope refresh) _ w₁ k₁ in
      let (stored, same, value) = check_refresh-next code client refresh w w₁ e₁ in
      (
        refresh,
        scopes,
        w₂,
        stored,
        same,
        value,
        All-In scopes (requested_scopes-granted scope refresh scopes w₁ w₂ e₂),
        k₂,
      )

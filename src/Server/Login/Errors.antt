-- ===== src/Server/Login/Errors.antt =====
-- server/oauth2.go and server/handlers.go: where the reply to a request that does not parse goes.
use Prim.Native.String.{◌++◌ as ◌+++◌}
use dex.Text.{has_char}
use dex.Prelude.{
  String, Bool, true, false, some, ok, List, [], ◌∷◌, ◌≡◌, ◌⊎◌, inl, inr, refl, ◌==◌, eq_iff,
  if◌then◌else◌, Bool-cases, string_eq,
}
use dex.Storage.{Client}
use dex.Server.Action.{stop}
use dex.Server.World.{World, Server, Reply, redirect, rendered_error}
use dex.Server.OAuth2.{validate_redirect_uri}
use dex.Server.OAuth2.AuthRequest.{AuthErr, AuthForm, parse_authorization_request}
use dex.Server.OAuth2.AuthRequest.Redirect.{parse_authorization_request-IsSafe}
use dex.Server.Login.{auth_err_status, auth_err_redirect, auth_err_reply, handle_authorization}

module _ {S : Type 0} (server : Server S) where
  page :
      (e : AuthErr)
      → e.redirect_uri ≡ ""
      → auth_err_reply server e ≡ rendered_error (auth_err_status e) e.description
  unfolding auth_err_reply auth_err_redirect
  page e h = rw (h, auth_err_reply, auth_err_redirect) refl

  -- A redirect to the error's redirect URI, with the error as the query.
  pub record IsErrorRedirect (e : AuthErr) (reply : Reply) : Type 0 where
    pub separator : String
    pub described : List (String × String)
    pub separated :
        ((separator ≡ "?") × (has_char b'?' e.redirect_uri ≡ false))
        ⊎ ((separator ≡ "&") × (has_char b'?' e.redirect_uri ≡ true))
    pub description :
        ((described ≡ []) × (e.description ≡ ""))
        ⊎ (described ≡ ("error_description", e.description) ∷ [])
    pub target :
        reply
        ≡ redirect (
            e.redirect_uri
            +++ separator
            +++ server.encode_values (("state", e.state) ∷ ("error", e.type) ∷ described))

  described_cases :
      (e : AuthErr)
      → let described : List (String × String) =
          if e.description == "" then [] else ("error_description", e.description) ∷ [] in
        ((described ≡ []) × (e.description ≡ ""))
        ⊎ (described ≡ ("error_description", e.description) ∷ [])
  described_cases e = elim (Bool-cases (e.description == "")) [
    | inl empty ↦ rw empty (inl (refl, (eq_iff e.description "").0 empty))
    | inr filled ↦ rw filled (inr refl)
  ]

  separator_cases :
      (b : Bool)
      → let separator : String = if b then "&" else "?" in
        ((separator ≡ "?") × (b ≡ false)) ⊎ ((separator ≡ "&") × (b ≡ true))
  separator_cases true = inr (refl, refl)
  separator_cases false = inl (refl, refl)

  redirected :
      (e : AuthErr) → (e.redirect_uri == "") ≡ false → IsErrorRedirect e (auth_err_reply server e)
  unfolding auth_err_reply auth_err_redirect
  redirected e filled = record {
    separator = if has_char b'?' e.redirect_uri then "&" else "?";
    described = if e.description == "" then [] else ("error_description", e.description) ∷ [];
    separated = separator_cases (has_char b'?' e.redirect_uri);
    description = described_cases e;
    target = rw (filled, auth_err_reply, auth_err_redirect) refl;
  }

  -- When parseAuthorizationRequest refuses the values of a form, the reply of handleAuthorization is
  -- the error page with the error's status and description, or a redirect to the unescaped redirect
  -- URI of the form with the error's state, type and description as its query; that URI is valid
  -- for the stored client that the form names. handleAuthorization sends this reply and ends.
  pub auth_err_reply-IsSafe :
      (q : AuthForm) (w : World S) (e : AuthErr) (w' : World S)
      → parse_authorization_request server (some q) w ≡ (stop e, w')
      → ((handle_authorization server (some q) w).0 ≡ stop tt)
        × ((handle_authorization server (some q) w).1.replies
            ≡ auth_err_reply server e ∷ w'.replies)
        × ((auth_err_reply server e ≡ rendered_error (auth_err_status e) e.description)
            ⊎ (IsErrorRedirect e (auth_err_reply server e)
                × (server.query_unescape q.redirect_uri ≡ some e.redirect_uri)
                × (client : Client) × ((server.storage.get_client q.client_id w.store).0
                    ≡ ok client)
                × (validate_redirect_uri server client e.redirect_uri ≡ true)))
  unfolding handle_authorization
  auth_err_reply-IsSafe q w e w' h = (
    rw (h, handle_authorization) refl,
    rw (h, handle_authorization) refl,
    elim (parse_authorization_request-IsSafe server q w e w' h) [
      | inl plain ↦ inl (page e plain)
      | inr back ↦ elim (Bool-cases (e.redirect_uri == "")) [
        | inl empty ↦ inl (page e ((eq_iff e.redirect_uri "").0 empty))
        | inr filled ↦ inr (redirected e filled, back.0, back.1, back.2, back.3)
      ]
    ],
  )

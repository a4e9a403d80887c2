-- ===== src/Server/Approval/Code.antt =====
-- server/handlers.go on storage/memory/memory.go: the code that sendCodeResponse sends.
use Prim.Native.Nat.{◌*◌}
use dex.Prelude.{
  ℕ, ◌+◌, ◌≤◌, String, false, none, some, [], ◌∷◌, ◌≡◌, refl, arith, le→not_ltb, ◌==◌, string_eq,
  eq_refl,
}
use dex.GoMap.{lookup, insert, delete}
use dex.GoMap.Laws.{lookup-insert, lookup-delete}
use dex.Storage.{AuthRequest, Client}
use dex.Memory.Table
use dex.Memory.{MemStorage, memory, delete_auth_request, create_auth_code, get_auth_code}
use dex.Server.Action.{next}
use dex.Server.World.{World, Server, Url, query_redirect}
use dex.Server.OAuth2.{redirect_uri_oob}
use dex.Server.Approval.{
  minute, new_code, send_code_response, respond_all, respond, make_code, redirect_back,
}
use dex.Server.Token.AuthCode.{check_code}

module _ (to_lower : String → String) (base : Server MemStorage) where
  -- A server on the in-memory storage.
  abbrev pub on_memory : Server MemStorage
  on_memory = record base { storage = memory to_lower }

  module _ (req : AuthRequest) (w : World MemStorage) where
    -- The ID of the code that is made, when it is made, and the world that is left.
    abbrev pub code_id : String
    code_id = base.id_source (w.drawn + 1)

    abbrev pub made_at : ℕ
    made_at = base.clock (w.ticks + 1)

    abbrev pub sent : World MemStorage
    sent = record w {
      store = record w.store {
        auth_reqs = delete req.id w.store.auth_reqs;
        auth_codes = insert code_id (new_code req code_id made_at) w.store.auth_codes;
      };
      drawn = w.drawn + 1 + 1;
      ticks = w.ticks + 1 + 1;
      replies =
          query_redirect req.redirect_uri (("code", code_id) ∷ ("state", req.state) ∷ [])
          ∷ w.replies;
    }

    module _ (stored : AuthRequest) (url : Url) (unexpired : base.clock w.ticks ≤ req.expiry)
        (known : lookup req.id w.store.auth_reqs ≡ some stored)
        (parsed : base.parse_url req.redirect_uri ≡ some url)
        (code_flow : req.response_types ≡ "code" ∷ [])
        (in_band : (req.redirect_uri == redirect_uri_oob) ≡ false)
        (new : lookup code_id w.store.auth_codes ≡ none) where
      send_code_response-sent : send_code_response on_memory req w ≡ (next tt, sent)
      unfolding send_code_response respond_all respond make_code redirect_back delete_auth_request
          create_auth_code Table.remove Table.create
      send_code_response-sent =
          rw
            (
              le→not_ltb req.expiry (base.clock w.ticks) unexpired,
              known,
              parsed,
              code_flow,
              new,
              in_band,
              delete_auth_request,
              Table.remove,
              create_auth_code,
              Table.create,
              respond_all,
              respond,
              make_code,
              redirect_back,
            )
            refl

      -- On the in-memory storage, for a request that has not expired and is stored, with a redirect
      -- URI that parses and is not the out-of-band one, and with the response type "code" alone,
      -- sendCodeResponse with a fresh random ID runs to its end: it redirects with that ID as the
      -- code and with the state, the request is gone, and for thirty minutes from the making of the
      -- code the check of handleAuthCode gives the request's client and redirect URI the code with
      -- the request's data.
      pub send_code_response-redeemable :
          (client : Client)
          → client.id ≡ req.client_id
          → base.clock (w.ticks + 1 + 1) ≤ made_at + 30 * minute
          → (send_code_response on_memory req w ≡ (next tt, sent))
            × (lookup req.id sent.store.auth_reqs ≡ none)
            × ((check_code on_memory code_id req.redirect_uri client
                  (send_code_response on_memory req w).1).0
                ≡ next (new_code req code_id made_at))
      unfolding check_code get_auth_code Table.get
      send_code_response-redeemable client same soon = (
        send_code_response-sent,
        ground (arith, lookup-delete req.id req.id w.store.auth_reqs, eq_refl req.id),
        rw send_code_response-sent (
            let found =
              lookup-insert code_id code_id (new_code req code_id made_at) w.store.auth_codes in
            ground (
              arith,
              found,
              eq_refl code_id,
              eq_refl req.redirect_uri,
              eq_refl req.client_id,
              same,
              soon,
            )),
      )

-- ===== src/Saml/Post.antt =====
-- connector/saml/saml.go: verifyResponseSig and HandlePOST.
use Prim.Native.String.{◌++◌ as ◌+++◌}
use dex.Prelude.{
  ℕ, String, Bool, true, false, not, ◌&&◌, ◌||◌, Option, some, none, List, [], ◌∷◌, if◌then◌else◌,
  ◌==◌, string_eq, other, wrap, Result, ok, err,
}
use dex.Storage.{Bytes}
use dex.Server.World.{Scopes, Identity}
use dex.Saml.Types.{Attribute, Assertion, Response, get, all, names}
use dex.Saml.{Library, Provider, validate_status, validate_subject, validate_conditions}

module _ {A B : Type 0} where
  -- a, err := r; if err != nil { return err }
  infixl 5 ◌>>=◌
  unfoldable pub ◌>>=◌ : Result A → (A → Result B) → Result B
  ◌>>=◌ (ok a) f = f a
  ◌>>=◌ (err e) f = err e

-- if b { return error }
abbrev pub refuse_if : Bool → String → Result (Unit {0})
refuse_if true text = err (other text)
refuse_if false text = ok tt

-- if x == nil { return error }
abbrev pub present : {A : Type 0} → Option A → String → Result A
present none text = err (other text)
present (some a) text = ok a

-- if err != nil { return fmt.Errorf("prefix%v", err) }
abbrev pub or_wrap : {A : Type 0} → Result A → String → Result A
or_wrap (ok a) prefix = ok a
or_wrap (err e) prefix = err (wrap prefix e)

abbrev pub or_text : {A : Type 0} → Result A → String → Result A
or_text (ok a) text = ok a
or_text (err e) text = err (other text)

module _ {Doc El : Type 0} (lib : Library Doc El) where
  -- The loop that removes every child of the unverified response.
  unfoldable pub remove_all : List El → El → El
  remove_all [] response = response
  remove_all (el ∷ els) response = remove_all els (lib.remove_child el response)

  -- The assertion alone is verified: all other elements go.
  unfoldable pub verify_assertion : (El → Result El) → Doc → Result (Bytes × Bool)
  unfolding remove_all
  verify_assertion validate doc = do
    assertion ←
        or_text (lib.select_assertion (lib.root doc))
          "response does not contain an Assertion element"
    transformed ←
        or_wrap (validate assertion) "response does not contain a valid signature element: "
    let emptied = remove_all (lib.children (lib.root doc)) (lib.root doc)
    signed ← lib.write (lib.set_root (lib.add_child transformed emptied) doc)
    ok (signed, false)

  -- The root element if it is verified, else the assertion.
  unfoldable pub verify_document : (El → Result El) → Doc → Result (Bytes × Bool)
  unfolding verify_assertion
  verify_document validate doc = elim (validate (lib.root doc)) [
    | ok transformed ↦ (do signed ← lib.write (lib.set_root transformed doc); ok (signed, true))
    | err e ↦ verify_assertion validate doc
  ]

  unfoldable pub verify_response_sig : (El → Result El) → Bytes → Result (Bytes × Bool)
  unfolding verify_document
  verify_response_sig validate bytes = do
    doc ← or_wrap (lib.read bytes) "parse document: "
    verify_document validate doc

module _ {Doc El : Type 0} (lib : Library Doc El) (p : Provider El) where
  -- Without a validator the response is taken as it is.
  unfoldable pub verified : Bytes → Result (Bytes × Bool)
  unfolding verify_response_sig
  verified raw = elim p.validator [
    | none ↦ ok (raw, true)
    | some validate ↦ or_wrap (verify_response_sig lib validate raw) "verify signature: "
  ]

  abbrev pub other_issuer : Option String → Bool
  other_issuer none = false
  other_issuer (some i) = not (p.sso_issuer == "") && not (i == p.sso_issuer)

  abbrev issuer_text : Option String → String
  issuer_text none = ""
  issuer_text (some i) = i

  -- The checks under `if rootElementSigned`.
  unfoldable pub check_root : String → Response → Result (Unit {0})
  check_root in_response_to resp = do
    u ←
        refuse_if (other_issuer resp.issuer)
          ("expected Issuer value " +++ p.sso_issuer +++ ", got " +++ issuer_text resp.issuer)
    v ←
        refuse_if (not (resp.in_response_to == in_response_to))
          ("expected InResponseTo value " +++ in_response_to +++ ", got " +++ resp.in_response_to)
    w ← refuse_if (not (resp.destination == "") && not (resp.destination == p.redirect_uri)) (
        "expected destination "
        +++ lib.quote p.redirect_uri
        +++ " got "
        +++ lib.quote resp.destination)
    status ← present resp.status "Response did not contain a Status element"
    validate_status lib p status

  abbrev no_attribute : String → List Attribute → String
  no_attribute name attributes =
      "no attribute with name " +++ lib.quote name +++ ": " +++ lib.show_list (names attributes)

  unfoldable pub groups_of : Scopes → List Attribute → Result (List String)
  unfolding get all names
  groups_of s attributes =
      if not s.groups || p.groups_attr == ""
      then ok []
      else if not (p.groups_delim == "")
      then (if (get p.groups_attr attributes).1
          then ok (lib.split (get p.groups_attr attributes).0 p.groups_delim)
          else err (other (no_attribute p.groups_attr attributes)))
      else if (all p.groups_attr attributes).1
      then ok (all p.groups_attr attributes).0
      else err (other (no_attribute p.groups_attr attributes))

  -- From the email to the groups.
  unfoldable pub map_attributes : Scopes → String → List Attribute → Result Identity
  unfolding groups_of get names
  map_attributes s user_id attributes = do
    u ← refuse_if ((get p.email_attr attributes).0 == "") (no_attribute p.email_attr attributes)
    v ←
        refuse_if ((get p.username_attr attributes).0 == "")
          (no_attribute p.username_attr attributes)
    groups ← groups_of s attributes
    ok (record {
      user_id = user_id;
      username = (get p.username_attr attributes).0;
      email = (get p.email_attr attributes).0;
      email_verified = true;
      groups = groups;
      connector_data = [];
    })

  abbrev pub conditions_hold : Assertion → ℕ → Result (Unit {0})
  conditions_hold assertion ticks = elim assertion.conditions [
    | none ↦ ok tt
    | some conditions ↦ validate_conditions lib p conditions (p.clock ticks)
  ]

  -- What follows the checks of the root element.
  unfoldable pub read_assertion : Scopes → String → Assertion → Result Identity
  unfolding map_attributes
  read_assertion s in_response_to assertion = do
    subject ← present assertion.subject "response did not contain a subject"
    ticks ← validate_subject lib p in_response_to subject 0
    u ← conditions_hold assertion ticks
    user_id ← present subject.name_id "subject does not contain an NameID element"
    v ← refuse_if (user_id == "") "NameID element does not contain a value"
    attributes ← present assertion.attributes "response did not contain a AttributeStatement"
    map_attributes s user_id attributes

  -- The checks of a response, the root element's only if it is signed.
  unfoldable pub read_response : Scopes → String → Bool → Response → Result Identity
  unfolding check_root read_assertion
  read_response s in_response_to root_signed resp = do
    u ← (if root_signed then check_root in_response_to resp else ok tt)
    assertion ← present resp.assertion "response did not contain an assertion"
    read_assertion s in_response_to assertion

  unfoldable pub handle_post : Scopes → String → String → Result Identity
  unfolding verified read_response
  handle_post s saml_response in_response_to = do
    raw ← or_wrap (lib.decode_base64 saml_response) "decode response: "
    (signed, root_signed) ← verified raw
    resp ← or_wrap (lib.unmarshal signed) "unmarshal response: "
    read_response s in_response_to root_signed resp

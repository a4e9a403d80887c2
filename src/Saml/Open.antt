-- ===== src/Saml/Open.antt =====
-- connector/saml/saml.go: openConnector, which checks the configuration and reads the certificates,
-- and POSTData, which makes the request to the provider.
pub mod Certificates
pub mod Configured
use Prim.Native.Char.{Char, code}
use Prim.Native.String.{◌++◌ as ◌+++◌}
use dex.Prelude.{
  ℕ, ◌+◌, zero, suc, String, Bool, true, false, not, ◌&&◌, Option, some, none, List, [], ◌∷◌, ◌++◌,
  if◌then◌else◌, ◌==◌, string_eq, nat_eq, length, select, map, Error, other, wrap, Result, ok, err,
}
use dex.GoMap.{Map, lookup, insert, has}
use dex.Storage.{Bytes}
use dex.Saml.{Library, Provider}

abbrev binding_post : String
binding_post = "urn:oasis:names:tc:SAML:2.0:bindings:HTTP-POST"

abbrev pub name_id_format_persistent : String
name_id_format_persistent = "urn:oasis:names:tc:SAML:2.0:nameid-format:persistent"

abbrev pub name_id_formats : List String
name_id_formats =
    "urn:oasis:names:tc:SAML:1.1:nameid-format:emailAddress"
    ∷ "urn:oasis:names:tc:SAML:1.1:nameid-format:unspecified"
    ∷ "urn:oasis:names:tc:SAML:1.1:nameid-format:X509SubjectName"
    ∷ "urn:oasis:names:tc:SAML:1.1:nameid-format:WindowsDomainQualifiedName"
    ∷ "urn:oasis:names:tc:SAML:2.0:nameid-format:encrypted"
    ∷ "urn:oasis:names:tc:SAML:2.0:nameid-format:entity"
    ∷ "urn:oasis:names:tc:SAML:2.0:nameid-format:kerberos" ∷ name_id_format_persistent
    ∷ "urn:oasis:names:tc:SAML:2.0:nameid-format:transient" ∷ []

-- What stands behind the last `c` of a text, or `best` if it has none.
unfoldable pub after_last : ℕ → String → String → String
after_last c best String.[] = best
after_last c best (String.◌∷◌ d s) = after_last c (if code d == c then s else best) s

-- The closure `suffix` at ":"; a colon in the first place does not count.
unfoldable pub suffix : String → String
unfolding after_last
suffix String.[] = String.[]
suffix (String.◌∷◌ c s) = after_last b':' (String.◌∷◌ c s) s

-- The loop of init.
unfoldable pub add_formats : List String → Map String String → Map String String
unfolding suffix insert
add_formats [] m = m
add_formats (format ∷ formats) m =
    add_formats formats (insert format format (insert (suffix format) format m))

abbrev pub name_id_format_lookup : Map String String
name_id_format_lookup = add_formats name_id_formats []

pub record Config : Type 0 where
  pub entity_issuer : String
  pub sso_issuer : String
  pub sso_url : String
  pub ca : String
  pub ca_data : Option Bytes
  pub insecure_skip_signature_validation : Bool
  pub username_attr : String
  pub email_attr : String
  pub groups_attr : String
  pub groups_delim : String
  pub redirect_uri : String
  pub name_id_policy_format : String

-- Code outside this repository: ioutil.ReadFile, pem.Decode with the block's bytes and the rest of
-- the data, x509.ParseCertificate, and goxmldsig's validation context.
pub record CertLibrary (Cert El : Type 0) : Type 0 where
  pub read_file : String → Result Bytes
  pub pem_decode : Bytes → Option (Bytes × Bytes)
  pub parse_certificate : Bytes → Result Cert
  pub validation : List Cert → El → Result El

-- The required fields that are empty.
unfoldable pub missing_fields : Config → List String
missing_fields c =
    map (λ (f : String × String). f.0)
      (select (λ (f : String × String). f.1 == "")
        (("ssoURL", c.sso_url)
          ∷ ("usernameAttr", c.username_attr)
          ∷ ("emailAttr", c.email_attr)
          ∷ ("redirectURI", c.redirect_uri)
          ∷ []))

module _ {Doc El Cert : Type 0} (lib : Library Doc El) (certs : CertLibrary Cert El) where
  unfoldable pub check_fields : Config → Result (Unit {0})
  unfolding missing_fields
  check_fields c = elim (missing_fields c) [
    | [] ↦ ok tt
    | name ∷ [] ↦ err (other ("missing required field " +++ lib.quote name))
    | names ↦ err (other ("missing required fields " +++ lib.show_list names))
  ]

  -- The format that is asked for.
  unfoldable pub policy_format : String → Result String
  unfolding add_formats lookup
  policy_format format =
      if format == ""
      then ok name_id_format_persistent
      else elim (lookup format name_id_format_lookup) [
        | some full ↦ ok full
        | none ↦ err (other ("invalid nameIDPolicyFormat: " +++ lib.quote format))
      ]

  unfoldable pub read_ca : Config → Result Bytes
  read_ca c = elim c.ca_data [
    | none ↦
        if c.ca == ""
        then err (other "must provide either 'ca' or 'caData'")
        else elim (certs.read_file c.ca) [ ok d ↦ ok d | err e ↦ err (wrap "read ca file: " e) ]
    | some d ↦ if c.ca == "" then ok d else err (other "must provide either 'ca' or 'caData'")
  ]

  -- The loop over the PEM blocks, on fuel.
  unfoldable pub read_certs : ℕ → Bytes → List Cert → Option (Result (List Cert))
  read_certs zero d found = none
  read_certs (suc n) d found = elim (certs.pem_decode d) [
    | none ↦ some (ok found)
    | some (block, rest) ↦ elim (certs.parse_certificate block) [
      | err e ↦ some (err (wrap "parse cert: " e))
      | ok cert ↦ read_certs n rest (found ++ (cert ∷ []))
    ]
  ]

  abbrev pub with_certs : Result (List Cert) → Result (Option (El → Result El))
  with_certs (err e) = err e
  with_certs (ok []) = err (other "no certificates found in ca data")
  with_certs (ok (cert ∷ rest)) = ok (some (certs.validation (cert ∷ rest)))

  -- The validator, unless the signatures are not to be checked.
  unfoldable pub open_validator : Config → Option (Result (Option (El → Result El)))
  unfolding read_ca read_certs
  open_validator c =
      if c.insecure_skip_signature_validation then some (ok none) else elim (read_ca c) [
        | err e ↦ some (err e)
        | ok d ↦ elim (read_certs (length d + 1) d []) [
          | none ↦ none
          | some r ↦ some (with_certs r)
        ]
      ]

  abbrev pub provider_of :
      (ℕ → ℕ) → Config → String → Result (Option (El → Result El)) → Result (Provider El)
  provider_of clock c format (err e) = err e
  provider_of clock c format (ok validator) = ok (record {
    entity_issuer = c.entity_issuer;
    sso_issuer = c.sso_issuer;
    sso_url = c.sso_url;
    validator = validator;
    username_attr = c.username_attr;
    email_attr = c.email_attr;
    groups_attr = c.groups_attr;
    groups_delim = c.groups_delim;
    redirect_uri = c.redirect_uri;
    name_id_policy_format = format;
    clock = clock;
  })

  unfoldable pub open_connector : (ℕ → ℕ) → Config → Option (Result (Provider El))
  unfolding check_fields policy_format open_validator
  open_connector clock c = elim (check_fields c) [
    | err e ↦ some (err e)
    | ok u ↦ elim (policy_format c.name_id_policy_format) [
      | err e ↦ some (err e)
      | ok format ↦ elim (open_validator c) [
        | none ↦ none
        | some r ↦ some (provider_of clock c format r)
      ]
    ]
  ]

pub record NameIdPolicy : Type 0 where
  pub allow_create : Bool
  pub format : String

-- The fields of authnRequest that POSTData sets.
pub record AuthnRequest : Type 0 where
  pub id : String
  pub issue_instant : ℕ
  pub destination : String
  pub protocol_binding : String
  pub assertion_consumer_service_url : String
  pub issuer : Option String
  pub name_id_policy : NameIdPolicy

module _ {El : Type 0} (p : Provider El) where
  unfoldable pub authn_request : String → AuthnRequest
  authn_request id = record {
    id = id;
    issue_instant = p.clock 0;
    destination = p.sso_url;
    protocol_binding = binding_post;
    assertion_consumer_service_url = p.redirect_uri;
    issuer = if p.entity_issuer == "" then none else some p.entity_issuer;
    name_id_policy = record { allow_create = true; format = p.name_id_policy_format };
  }

  -- The text of xml.MarshalIndent in base64 is a parameter.
  unfoldable pub post_data :
      (AuthnRequest → Result Bytes) → (Bytes → String) → String → Result (String × String)
  unfolding authn_request
  post_data marshal encode_base64 id = elim (marshal (authn_request id)) [
    | err e ↦ err (wrap "marshal authn request: " e)
    | ok bytes ↦ ok (p.sso_url, encode_base64 bytes)
  ]

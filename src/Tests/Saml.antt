-- ===== src/Tests/Saml.antt =====
-- A SAML response that is accepted.
use dex.Prelude.{
  Bool, List, Option, Result, String, [], ap, arith, contains, eq_refl, err, false, if◌then◌else◌,
  length, none, ok, other, refl, select, some, some_injective, string_eq, true, ◌++◌, ◌<◌, ◌==◌,
  ◌∷◌, ◌≡◌,
}
use dex.Storage.{Bytes}
use dex.Server.World.{Scopes, Identity}
use dex.Saml.Types.{SubjectConfirmation, Assertion, Response, get}
use dex.Saml.{
  Library, Provider, before, after, check_window, check_data, check_confirmation, confirm,
  validate_subject, check_audiences, validate_conditions, validate_status,
}
use dex.Saml.Post.{
  ◌>>=◌, handle_post, verified, verify_response_sig, verify_document, check_root, read_response,
  read_assertion, map_attributes, groups_of,
}
use dex.Saml.Open.{
  Config, CertLibrary, open_connector, missing_fields, check_fields, policy_format, read_ca,
  read_certs, open_validator, suffix, after_last, add_formats,
}
use dex.GoMap.{lookup, insert}
use dex.Saml.Open.Certificates.{open_connector-ends}
use dex.Saml.Open.Configured.{IsConfigured, open_connector-IsConfigured}
use dex.Saml.Signed.{EtreeLaws, Signed}
use dex.Saml.Trusted.{IsAnswer, IsAsserted, handle_post-IsAsserted}

abbrev confirmation : SubjectConfirmation
confirmation = record {
  method = "urn:oasis:names:tc:SAML:2.0:cm:bearer";
  confirmation_data = some (record {
    not_before = 0;
    not_on_or_after = 200;
    recipient = "https://dex/callback";
    in_response_to = "request";
  });
}

abbrev assertion : Assertion
assertion = record {
  subject = some (record { name_id = some "jane"; confirmations = confirmation ∷ [] });
  conditions = some (record {
    not_before = 0;
    not_on_or_after = 200;
    audience_restrictions = ("https://dex/callback" ∷ []) ∷ [];
  });
  attributes = some (
      record { name = "email"; values = "jane@example.org" ∷ [] }
      ∷ record { name = "name"; values = "Jane" ∷ [] }
      ∷ []);
}

abbrev response : Response
response = record {
  in_response_to = "request";
  destination = "";
  issuer = none;
  status =
      some (record { code = some "urn:oasis:names:tc:SAML:2.0:status:Success"; message = none });
  assertion = some assertion;
}

-- An element is its tag with its children, the first one outermost; a document is its root.
data Element : Type 0 where
  bare : (tag : String) → Element
  parent : (child rest : Element) → Element

abbrev tag_of : Element → String
tag_of (bare tag) = tag
tag_of (parent child rest) = tag_of rest

abbrev child_elements : Element → List Element
child_elements (bare tag) = []
child_elements (parent child rest) = child ∷ child_elements rest

-- The first child with the tag of the element to remove.
abbrev without : Element → Element → Element
without el (bare tag) = bare tag
without el (parent child rest) =
    let kept = without el rest in if tag_of child == tag_of el then rest else parent child kept

abbrev with_child : Element → Element → Element
with_child el (bare tag) = parent el (bare tag)
with_child el (parent child rest) = parent child (with_child el rest)

abbrev first_assertion : List Element → Result Element
first_assertion [] = err (other "no assertion")
first_assertion (el ∷ els) =
    let rest = first_assertion els in if tag_of el == "Assertion" then ok el else rest

-- A forged element comes before the assertion.
abbrev posted_root : Element
posted_root = parent (bare "Forged") (parent (bare "Assertion") (bare "Response"))

-- Only the root with the assertion alone is written.
abbrev written : Element → Result Bytes
written el = elim (child_elements el) [
  | child ∷ [] ↦ if tag_of child == "Assertion" then ok (2 ∷ []) else err (other "unexpected")
  | els ↦ err (other "unexpected")
]

abbrev library : Library Element Element
library = record {
  decode_base64 = λ s. ok (1 ∷ []);
  unmarshal = λ b. ok response;
  read = λ b. ok posted_root;
  root = λ d. d;
  set_root = λ e d. e;
  write = written;
  select_assertion = λ e. first_assertion (child_elements e);
  children = child_elements;
  remove_child = without;
  add_child = with_child;
  split = λ s sep. s ∷ [];
  quote = λ s. s;
  show_list = λ l. "";
  show_time = λ t. "";
  show_errors = λ es. "";
}

with_child-children :
    (child e : Element) → child_elements (with_child child e) ≡ child_elements e ++ (child ∷ [])
with_child-children child (bare tag) = refl
with_child-children child (parent first rest) =
    ap (λ (l : List Element). first ∷ l) (with_child-children child rest)

first_same : {x y : Element} {xs ys : List Element} → x ∷ xs ≡ y ∷ ys → x ≡ y
first_same h = cc

rest_same : {x y : Element} {xs ys : List Element} → x ∷ xs ≡ y ∷ ys → xs ≡ ys
rest_same h = cc

without-first :
    (first e : Element) (rest : List Element)
    → child_elements e ≡ first ∷ rest
    → child_elements (without first e) ≡ rest
without-first first (bare tag) rest h = cc
without-first first (parent child others) rest h =
    let same : child ≡ first = first_same h in rw (same, eq_refl (tag_of first)) (rest_same h)

abbrev etree_laws : EtreeLaws library
etree_laws = record { removed = without-first; added = with_child-children }

-- The assertion is signed, and the response is not.
abbrev validator : Element → Result Element
validator e = if tag_of e == "Assertion" then ok e else err (other "no signature")

abbrev provider : Provider Element
provider = record {
  entity_issuer = "";
  sso_issuer = "";
  sso_url = "https://idp";
  validator = some validator;
  username_attr = "name";
  email_attr = "email";
  groups_attr = "";
  groups_delim = "";
  redirect_uri = "https://dex/callback";
  name_id_policy_format = "";
  clock = λ n. 100;
}

abbrev scopes : Scopes
scopes = record { offline_access = false; groups = true }

abbrev jane : Identity
jane = record {
  user_id = "jane";
  username = "Jane";
  email = "jane@example.org";
  email_verified = true;
  groups = [];
  connector_data = [];
}

returned : handle_post library provider scopes "posted" "request" ≡ ok jane
unfolding handle_post verified verify_response_sig verify_document ◌>>=◌ read_response check_root
    validate_status read_assertion validate_subject confirm check_confirmation check_data
    check_window before after validate_conditions check_audiences map_attributes groups_of get
    contains
returned = refl

handle_post-IsAsserted_example :
    (raw : Bytes) × (signed : Bytes) × (root : Bool) × (resp : Response) × (a : Assertion)
    × (library.decode_base64 "posted" ≡ ok raw)
    × Signed library validator raw signed root
    × (library.unmarshal signed ≡ ok resp)
    × (root ≡ true → IsAnswer library provider "request" resp)
    × (resp.assertion ≡ some a)
    × IsAsserted library provider "request" a jane
handle_post-IsAsserted_example =
    handle_post-IsAsserted library provider "request" etree_laws scopes "posted" jane validator refl
      returned

abbrev config : Config
config = record {
  entity_issuer = "";
  sso_issuer = "";
  sso_url = "https://idp";
  ca = "";
  ca_data = some (1 ∷ 2 ∷ []);
  insecure_skip_signature_validation = false;
  username_attr = "name";
  email_attr = "email";
  groups_attr = "";
  groups_delim = "";
  redirect_uri = "https://dex/callback";
  name_id_policy_format = "emailAddress";
}

-- Each number of the data is a block.
abbrev next_block : Bytes → Option (Bytes × Bytes)
next_block [] = none
next_block (n ∷ rest) = some (n ∷ [], rest)

abbrev certificates : CertLibrary Bytes Element
certificates = record {
  read_file = λ path. ok [];
  pem_decode = next_block;
  parse_certificate = ok;
  validation = λ certs e. ok e;
}

block_shorter : (d block rest : Bytes) → next_block d ≡ some (block, rest) → length rest < length d
block_shorter [] block rest h = cc
block_shorter (n ∷ d) block rest h =
    let same : d ≡ rest = ap (λ (t : Bytes × Bytes). t.1) (some_injective h) in
    rw (← same) (omega arith)

open_connector-ends_example :
    (r : Result (Provider Element)) × (open_connector library certificates (λ n. 100) config
      ≡ some r)
open_connector-ends_example =
    open_connector-ends library certificates block_shorter (λ n. 100) config

abbrev opened : Provider Element
opened = record {
  entity_issuer = "";
  sso_issuer = "";
  sso_url = "https://idp";
  validator = some ok;
  username_attr = "name";
  email_attr = "email";
  groups_attr = "";
  groups_delim = "";
  redirect_uri = "https://dex/callback";
  name_id_policy_format = "urn:oasis:names:tc:SAML:1.1:nameid-format:emailAddress";
  clock = λ n. 100;
}

opens : open_connector library certificates (λ n. 100) config ≡ some (ok opened)
unfolding open_connector check_fields missing_fields select policy_format lookup insert suffix
    after_last add_formats open_validator read_ca read_certs
opens = refl

open_connector-IsConfigured_example : IsConfigured library certificates config opened
open_connector-IsConfigured_example =
    open_connector-IsConfigured library certificates (λ n. 100) config opened opens

-- ===== src/Saml/Types.antt =====
-- connector/saml/types.go: the parts of a SAML response that the connector reads. A pointer is an
-- option; a time is 0 where the attribute is missing.
use dex.Prelude.{
  ℕ, String, Bool, true, false, Option, List, [], ◌∷◌, ◌++◌, map, if◌then◌else◌, ◌==◌, string_eq,
}

pub record SubjectConfirmationData : Type 0 where
  pub not_before : ℕ
  pub not_on_or_after : ℕ
  pub recipient : String
  pub in_response_to : String

pub record SubjectConfirmation : Type 0 where
  pub method : String
  pub confirmation_data : Option SubjectConfirmationData

-- The value of a NameID is kept, its format is not read.
pub record Subject : Type 0 where
  pub name_id : Option String
  pub confirmations : List SubjectConfirmation

-- An audience restriction is the list of its audiences.
pub record Conditions : Type 0 where
  pub not_before : ℕ
  pub not_on_or_after : ℕ
  pub audience_restrictions : List (List String)

pub record Status : Type 0 where
  pub code : Option String
  pub message : Option String

pub record Attribute : Type 0 where
  pub name : String
  pub values : List String

pub record Assertion : Type 0 where
  pub subject : Option Subject
  pub conditions : Option Conditions
  pub attributes : Option (List Attribute)

pub record Response : Type 0 where
  pub in_response_to : String
  pub destination : String
  pub issuer : Option String
  pub status : Option Status
  pub assertion : Option Assertion

-- attributeStatement.get: the first value of an attribute of that name which has one, and whether
-- there is an attribute of that name.
unfoldable pub get : String → List Attribute → String × Bool
get name [] = ("", false)
get name (a ∷ rest) =
    let later = get name rest in
    if a.name == name then elim a.values [ v ∷ vs ↦ (v, true) | [] ↦ (later.0, true) ] else later

-- attributeStatement.all: the values of all attributes of that name.
unfoldable pub all : String → List Attribute → List String × Bool
all name [] = ([], false)
all name (a ∷ rest) =
    let later = all name rest in if a.name == name then (a.values ++ later.0, true) else later

-- attributeStatement.names
unfoldable pub names : List Attribute → List String
names attributes = map (λ (a : Attribute). a.name) attributes

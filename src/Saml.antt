-- ===== src/Saml.antt =====
-- connector/saml/saml.go: what the SAML connector makes of a response that is posted to dex.
pub mod Types
pub mod Post
pub mod Open
pub mod Results
pub mod Accepted
pub mod Trusted
pub mod Signed
use Prim.Native.Nat.{◌*◌}
use Prim.Native.String.{◌++◌ as ◌+++◌}
use dex.Prelude.{
  ℕ, ◌+◌, String, Bool, true, false, not, ◌&&◌, ◌||◌, Option, some, none, List, [], ◌∷◌, ◌++◌,
  if◌then◌else◌, ltb, ◌==◌, string_eq, nat_eq, contains, length, Error, other, wrap, error_text,
  Result, ok, err,
}
use dex.Storage.{Bytes}
use dex.Server.Rotation.{second}
use dex.Server.World.{Scopes, Identity}
use dex.Server.Connectors.{no_identity}
use dex.Saml.Types
use dex.Saml.Types.{
  SubjectConfirmationData, SubjectConfirmation, Subject, Conditions, Status, Attribute, Assertion,
  Response,
}

abbrev pub status_code_success : String
status_code_success = "urn:oasis:names:tc:SAML:2.0:status:Success"

abbrev pub subject_confirmation_method_bearer : String
subject_confirmation_method_bearer = "urn:oasis:names:tc:SAML:2.0:cm:bearer"

abbrev pub allowed_clock_drift : ℕ
allowed_clock_drift = 30 * second

-- Code outside this repository: encoding/base64, encoding/xml, the documents of etree with the
-- namespace selection of goxmldsig, strings.Split, and %q, %s and %v of fmt.
pub record Library (Doc El : Type 0) : Type 0 where
  pub decode_base64 : String → Result Bytes
  pub unmarshal : Bytes → Result Response
  pub read : Bytes → Result Doc
  pub root : Doc → El
  pub set_root : El → Doc → Doc
  pub write : Doc → Result Bytes
  pub select_assertion : El → Result El
  pub children : El → List El
  pub remove_child : El → El → El
  pub add_child : El → El → El
  pub split : String → String → List String
  pub quote : String → String
  pub show_list : List String → String
  pub show_time : ℕ → String
  pub show_errors : List Error → String

-- `provider`; the validator is the method Validate of its context, and the clock gives the results
-- of successive calls of `now`.
pub record Provider (El : Type 0) : Type 0 where
  pub entity_issuer : String
  pub sso_issuer : String
  pub sso_url : String
  pub validator : Option (El → Result El)
  pub username_attr : String
  pub email_attr : String
  pub groups_attr : String
  pub groups_delim : String
  pub redirect_uri : String
  pub name_id_policy_format : String
  pub clock : ℕ → ℕ

-- The functions before and after.
unfoldable pub before : ℕ → ℕ → Bool
before now not_before = ltb (now + allowed_clock_drift) not_before

unfoldable pub after : ℕ → ℕ → Bool
after now not_on_or_after = ltb (not_on_or_after + allowed_clock_drift) now

module _ {Doc El : Type 0} (lib : Library Doc El) (p : Provider El) where
  -- if err { … } before the rest.
  abbrev pub guard : {A : Type 0} → Bool → String → Result A → Result A
  guard true text rest = err (other text)
  guard false text rest = rest

  abbrev last_part : String → List String → String
  last_part s [] = s
  last_part s (part ∷ parts) = last_part part parts

  -- The reason of a status, if it has a message.
  abbrev reason : Option String → String
  reason none = ""
  reason (some m) = if m == "" then "" else " -> " +++ m

  unfoldable pub validate_status : Status → Result (Unit {0})
  validate_status status = elim status.code [
    | none ↦ err (other "response did not contain a StatusCode")
    | some code ↦
        guard (not (code == status_code_success))
          ("status code of the Response was not Success, was "
            +++ lib.quote (last_part "" (lib.split code ":"))
            +++ reason status.message)
          (ok tt)
  ]

  -- The window of a response, at a time.
  unfoldable pub check_window : ℕ → ℕ → ℕ → Result (Unit {0})
  unfolding before after
  check_window now not_before not_on_or_after =
      guard (not (not_before == 0) && before now not_before)
        ("at "
          +++ lib.show_time now
          +++ " got response that cannot be processed before "
          +++ lib.show_time not_before)
        (guard (not (not_on_or_after == 0) && after now not_on_or_after)
          ("at "
            +++ lib.show_time now
            +++ " got response that cannot be processed because it expired at "
            +++ lib.show_time not_on_or_after)
          (ok tt))

  abbrev pub and_then : Result (Unit {0}) → Result (Unit {0}) → Result (Unit {0})
  and_then (ok u) rest = rest
  and_then (err e) rest = err e

  unfoldable pub check_data : ℕ → SubjectConfirmationData → Result (Unit {0})
  unfolding check_window
  check_data now info = and_then (check_window now info.not_before info.not_on_or_after) (
      guard (not (info.recipient == "") && not (info.recipient == p.redirect_uri))
        ("expected Recipient "
          +++ lib.quote p.redirect_uri
          +++ " got "
          +++ lib.quote info.recipient)
        (ok tt))

  -- The closure on one confirmation, with the number of times that the clock was read.
  unfoldable pub check_confirmation : String → SubjectConfirmation → ℕ → Result (Unit {0}) × ℕ
  unfolding check_data
  check_confirmation in_response_to c ticks =
      if c.method == subject_confirmation_method_bearer
      then elim c.confirmation_data [
        | none ↦ (err (other "SubjectConfirmation contained no SubjectConfirmationData"), ticks)
        | some info ↦
            if info.in_response_to == in_response_to
            then (check_data (p.clock ticks) info, ticks + 1)
            else (
              err (
                  other (
                    "expected SubjectConfirmationData InResponseTo value "
                    +++ lib.quote in_response_to
                    +++ ", got "
                    +++ lib.quote info.in_response_to)),
              ticks,
            )
      ]
      else (err (other ("unexpected subject confirmation method: " +++ c.method)), ticks)

  abbrev unconfirmed : List Error → Error
  unconfirmed (e ∷ []) = wrap "failed to validate subject confirmation: " e
  unconfirmed es = other ("failed to validate subject confirmation: " +++ lib.show_errors es)

  -- The loop over the confirmations; the result has the number of reads of the clock.
  unfoldable pub confirm : String → List SubjectConfirmation → List Error → ℕ → Result ℕ
  unfolding check_confirmation
  confirm in_response_to [] errs ticks = err (unconfirmed errs)
  confirm in_response_to (c ∷ cs) errs ticks =
      let (r, ticks') = check_confirmation in_response_to c ticks in
      elim r [ ok u ↦ ok ticks' | err e ↦ confirm in_response_to cs (errs ++ (e ∷ [])) ticks' ]

  unfoldable pub validate_subject : String → Subject → ℕ → Result ℕ
  unfolding confirm
  validate_subject in_response_to subject ticks =
      guard (length subject.confirmations == 0) "Subject contained no SubjectConfrimations"
        (confirm in_response_to subject.confirmations [] ticks)

  -- The audience that is expected.
  unfoldable pub expected_audience : String
  expected_audience = if p.entity_issuer == "" then p.redirect_uri else p.entity_issuer

  -- The loop over the restrictions; each must name dex.
  unfoldable pub check_audiences : List (List String) → Result (Unit {0})
  unfolding expected_audience
  check_audiences [] = ok tt
  check_audiences (audiences ∷ rest) =
      let later = check_audiences rest in
      guard (not (contains audiences expected_audience))
        ("required audience "
          +++ expected_audience
          +++ " was not in Response audiences "
          +++ lib.show_list audiences)
        later

  unfoldable pub validate_conditions : Conditions → ℕ → Result (Unit {0})
  unfolding check_window check_audiences
  validate_conditions conditions now =
      and_then (check_window now conditions.not_before conditions.not_on_or_after)
        (check_audiences conditions.audience_restrictions)

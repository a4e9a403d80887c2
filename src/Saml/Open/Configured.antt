-- ===== src/Saml/Open/Configured.antt =====
-- connector/saml/saml.go: the provider that openConnector returns.
use dex.Prelude.{
  ℕ, ◌+◌, String, false, Option, some, List, [], ◌∷◌, Result, ok, err, ◌≡◌, ◌≢◌, refl, In, inl, inr,
  arith, ◌==◌, string_eq, length, select, sym, ap, ◌∙◌, some_injective, ok_injective, subst,
  Bool-cases, List-cases, Option-cases, Result-cases, if◌then◌else◌,
}
use dex.GoMap.{Map, lookup, insert}
use dex.GoMap.Laws.{lookup-insert}
use dex.Storage.{Bytes}
use dex.Saml.{Library, Provider}
use dex.Saml.Accepted.{unequal}
use dex.Saml.Open.{
  Config, CertLibrary, missing_fields, check_fields, policy_format, read_ca, read_certs,
  open_validator, open_connector, with_certs, provider_of, suffix, add_formats, name_id_formats,
  name_id_format_lookup, name_id_format_persistent,
}

-- Every value of a map is in a list.
abbrev Within : List String → Map String String → Type 0
Within known m = (asked format : String) → lookup asked m ≡ some format → In format known

insert-Within :
    (known : List String) (key format : String) (m : Map String String)
    → In format known
    → Within known m
    → Within known (insert key format m)
insert-Within known key format m i h asked found e =
    let law : (if key == asked then some format else lookup asked m) ≡ some found =
      sym (lookup-insert key asked format m) ∙ e in
    elim (Bool-cases (key == asked)) [
      | inl y ↦ rw (← some_injective (rw (y) at law)) i
      | inr n ↦ h asked found (rw (n) at law)
    ]

add_formats-Within :
    (known formats : List String) (m : Map String String)
    → ((x : String) → In x formats → In x known)
    → Within known m
    → Within known (add_formats formats m)
unfolding add_formats
add_formats-Within known [] m sub h = h
add_formats-Within known (format ∷ formats) m sub h =
    add_formats-Within known formats _ (λ x i. sub x (inr i))
      (insert-Within known format format _ (sub format (inl refl))
        (insert-Within known (suffix format) format m (sub format (inl refl)) h))

name_id_format_lookup-Within : Within name_id_formats name_id_format_lookup
unfolding lookup
name_id_format_lookup-Within =
    add_formats-Within name_id_formats name_id_formats [] (λ x i. i) (λ asked format e. cc)

present_fields :
    (c : Config)
    → missing_fields c ≡ []
    → ((c.sso_url == "") ≡ false)
      × ((c.username_attr == "") ≡ false)
      × ((c.email_attr == "") ≡ false)
      × ((c.redirect_uri == "") ≡ false)
unfolding missing_fields select
present_fields c h = ground arith

persistent-In : In name_id_format_persistent name_id_formats
persistent-In = inr (inr (inr (inr (inr (inr (inr (inl refl)))))))

module _ {Doc El Cert : Type 0} (lib : Library Doc El) (certs : CertLibrary Cert El) where
  check_fields-ok :
      (c : Config) (u : Unit {0}) → check_fields lib certs c ≡ ok u → missing_fields c ≡ []
  unfolding check_fields
  check_fields-ok c u h = elim (List-cases (missing_fields c)) [
    | inl e ↦ e
    | inr (name, rest, e) ↦ elim (List-cases rest) [
      | inl r ↦ cc (rw (e, r, check_fields) at h)
      | inr (second, others, r) ↦ cc (rw (e, r, check_fields) at h)
    ]
  ]

  policy_format-ok :
      (asked format : String)
      → policy_format lib certs asked ≡ ok format
      → In format name_id_formats
  unfolding policy_format
  policy_format-ok asked format h = elim (Bool-cases (asked == "")) [
    | inl y ↦ rw (← ok_injective (rw (y, policy_format) at h)) persistent-In
    | inr n ↦ elim (Option-cases (lookup asked name_id_format_lookup)) [
      | inl e ↦ cc (rw (n, e, policy_format) at h)
      | inr (full, e) ↦
          rw (← ok_injective (rw (n, e, policy_format) at h))
            (name_id_format_lookup-Within asked full e)
    ]
  ]

  with_certs-ok :
      (r : Result (List Cert)) (validator : Option (El → Result El))
      → with_certs lib certs r ≡ ok validator
      → (first : Cert) × (others : List Cert) × (r ≡ ok (first ∷ others))
        × (validator ≡ some (certs.validation (first ∷ others)))
  with_certs-ok (err e) validator h = cc
  with_certs-ok (ok []) validator h = cc
  with_certs-ok (ok (first ∷ others)) validator h = (first, others, refl, sym (ok_injective h))

  -- The certificates that the validator of a provider trusts.
  abbrev pub Trusts : Config → Option (El → Result El) → Type 0
  Trusts c validator =
      (bytes : Bytes) × (first : Cert) × (others : List Cert) × (read_ca lib certs c ≡ ok bytes)
      × (read_certs lib certs (length bytes + 1) bytes [] ≡ some (ok (first ∷ others)))
      × (validator ≡ some (certs.validation (first ∷ others)))

  open_validator-ok :
      (c : Config) (validator : Option (El → Result El))
      → c.insecure_skip_signature_validation ≡ false
      → open_validator lib certs c ≡ some (ok validator)
      → Trusts c validator
  unfolding open_validator
  open_validator-ok c validator secure h = elim (Result-cases (read_ca lib certs c)) [
    | inr (x, e) ↦ cc (rw (secure, e, open_validator) at h)
    | inl (bytes, e) ↦ elim (Option-cases (read_certs lib certs (length bytes + 1) bytes [])) [
      | inl r ↦ cc (rw (secure, e, r, open_validator) at h)
      | inr (read, r) ↦
          let (first, others, found, same) =
            with_certs-ok read validator
              (some_injective (rw (secure, e, r, open_validator) at h)) in
          (bytes, first, others, e, r ∙ ap some found, same)
    ]
  ]

  -- A provider with every required field, a format of SAML's, and, unless the configuration skips the
  -- check of signatures, a validator that trusts at least one certificate of the configured data.
  pub record IsConfigured (c : Config) (p : Provider El) : Type 0 where
    pub sso_url : (p.sso_url ≡ c.sso_url) × (c.sso_url ≢ "")
    pub username_attr : (p.username_attr ≡ c.username_attr) × (c.username_attr ≢ "")
    pub email_attr : (p.email_attr ≡ c.email_attr) × (c.email_attr ≢ "")
    pub redirect_uri : (p.redirect_uri ≡ c.redirect_uri) × (c.redirect_uri ≢ "")
    pub format : In p.name_id_policy_format name_id_formats
    pub validated : c.insecure_skip_signature_validation ≡ false → Trusts c p.validator

  provider_of-IsConfigured :
      (clock : ℕ → ℕ) (c : Config) (format : String) (r : Result (Option (El → Result El)))
      (p : Provider El)
      → missing_fields c ≡ []
      → In format name_id_formats
      → open_validator lib certs c ≡ some r
      → provider_of lib certs clock c format r ≡ ok p
      → IsConfigured c p
  provider_of-IsConfigured clock c format (err e) p m i v h = cc
  provider_of-IsConfigured clock c format (ok validator) p m i v h =
      let (url, username, email, redirect) = present_fields c m in
      subst (IsConfigured c) (ok_injective h) (record {
        sso_url = (refl, unequal c.sso_url "" url);
        username_attr = (refl, unequal c.username_attr "" username);
        email_attr = (refl, unequal c.email_attr "" email);
        redirect_uri = (refl, unequal c.redirect_uri "" redirect);
        format = i;
        validated = λ secure. open_validator-ok c validator secure v;
      })

  -- A provider that openConnector returns has the configuration's required fields, none of which is empty, and asks for one of
  -- the nine name ID formats, given in full. Unless the configuration skips the check of
  -- signatures, its validator is the one of the certificates that the PEM loop read from the
  -- configured data, of which there is at least one.
  pub open_connector-IsConfigured :
      (clock : ℕ → ℕ) (c : Config) (p : Provider El)
      → open_connector lib certs clock c ≡ some (ok p)
      → IsConfigured c p
  unfolding open_connector
  open_connector-IsConfigured clock c p h = elim (Result-cases (check_fields lib certs c)) [
    | inr (x, e) ↦ cc (rw (e, open_connector) at h)
    | inl (u, e) ↦ elim (Result-cases (policy_format lib certs c.name_id_policy_format)) [
      | inr (x, f) ↦ cc (rw (e, f, open_connector) at h)
      | inl (format, f) ↦ elim (Option-cases (open_validator lib certs c)) [
        | inl v ↦ cc (rw (e, f, v, open_connector) at h)
        | inr (r, v) ↦
            provider_of-IsConfigured clock c format r p (check_fields-ok c u e)
              (policy_format-ok c.name_id_policy_format format f) v
              (some_injective (rw (e, f, v, open_connector) at h))
      ]
    ]
  ]

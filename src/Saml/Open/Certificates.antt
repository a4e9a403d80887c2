-- ===== src/Saml/Open/Certificates.antt =====
-- connector/saml/saml.go: openConnector ends.
use dex.Prelude.{
  ℕ, ◌+◌, ◌<◌, zero, suc, Option, some, none, List, [], ◌∷◌, ◌++◌, length, wrap, Result, ok, err,
  ◌≡◌, refl, Bool-cases, arith, inl, inr, Option-cases, Result-cases,
}
use dex.Storage.{Bytes}
use dex.Saml.{Library, Provider}
use dex.Saml.Open.{
  Config, CertLibrary, check_fields, policy_format, read_ca, read_certs, open_validator,
  open_connector, with_certs, provider_of,
}

module _ {Doc El Cert : Type 0} (lib : Library Doc El) (certs : CertLibrary Cert El)
    (shorter : (d block rest : Bytes)
      → certs.pem_decode d ≡ some (block, rest)
      → length rest < length d) where
  read_certs-ends :
      (n : ℕ) (d : Bytes) (found : List Cert)
      → length d < n
      → (r : Result (List Cert)) × (read_certs lib certs n d found ≡ some r)
  unfolding read_certs
  read_certs-ends zero d found h = absurd (omega arith)
  read_certs-ends (suc n) d found h = elim (Option-cases (certs.pem_decode d)) [
    | inl e ↦ (ok found, rw (e, read_certs) refl)
    | inr (p, e) ↦ elim (Result-cases (certs.parse_certificate p.0)) [
      | inr (x, q) ↦ (err (wrap "parse cert: " x), rw (e, q, read_certs) refl)
      | inl (cert, q) ↦
          let less = shorter d p.0 p.1 e in
          let (r, run) = read_certs-ends n p.1 (found ++ (cert ∷ [])) (omega arith) in
          (r, rw (e, q, read_certs) run)
    ]
  ]

  open_validator-ends :
      (c : Config) → (r : Result (Option (El → Result El))) × (open_validator lib certs c ≡ some r)
  unfolding open_validator
  open_validator-ends c = elim (Bool-cases c.insecure_skip_signature_validation) [
    | inl i ↦ (ok none, rw (i, open_validator) refl)
    | inr i ↦ elim (Result-cases (read_ca lib certs c)) [
      | inr (x, e) ↦ (err x, rw (i, e, open_validator) refl)
      | inl (d, e) ↦
          let (r, run) = read_certs-ends (length d + 1) d [] (omega arith) in
          (with_certs lib certs r, rw (i, e, run, open_validator) refl)
    ]
  ]

  -- If pem.Decode leaves less data behind each block than it was given, openConnector returns a
  -- provider or an error for every configuration: the loop over the PEM blocks ends within as many
  -- rounds as the data has bytes, and one more.
  pub open_connector-ends :
      (clock : ℕ → ℕ) (c : Config)
      → (r : Result (Provider El)) × (open_connector lib certs clock c ≡ some r)
  unfolding open_connector
  open_connector-ends clock c = elim (Result-cases (check_fields lib certs c)) [
    | inr (x, e) ↦ (err x, rw (e, open_connector) refl)
    | inl (u, e) ↦ elim (Result-cases (policy_format lib certs c.name_id_policy_format)) [
      | inr (x, f) ↦ (err x, rw (e, f, open_connector) refl)
      | inl (format, f) ↦
          let (r, v) = open_validator-ends c in
          (provider_of lib certs clock c format r, rw (e, f, v, open_connector) refl)
    ]
  ]

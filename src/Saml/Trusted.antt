-- ===== src/Saml/Trusted.antt =====
-- connector/saml/saml.go: the identities that HandlePOST returns.
use dex.Prelude.{
  String, Bool, true, false, not, some, List, Result, ok, ◌≡◌, ◌≢◌, sym, subst, ap, ◌∙◌, ◌⊎◌, inl,
  inr, In, ok_injective, ◌==◌, string_eq, Option-cases,
}
use dex.Storage.{Bytes}
use dex.Server.World.{Scopes, Identity}
use dex.Saml.Types.{
  SubjectConfirmation, Subject, Conditions, Status, Attribute, Assertion, Response,
}
use dex.Saml.{Library, Provider, validate_status, validate_subject, status_code_success}
use dex.Saml.Post.{
  verified, check_root, groups_of, map_attributes, read_assertion, read_response, handle_post,
}
use dex.Saml.Results.{bind-ok, refuse_if-ok, present-ok, or_wrap-ok, guard-ok}
use dex.Saml.Accepted.{
  IsConfirmation, IsMet, not_equal, unequal, optional, confirm-ok, conditions_hold-ok,
}
use dex.Saml.Signed.{EtreeLaws, Signed, verified-Signed}

module _ {Doc El : Type 0} (lib : Library Doc El) (p : Provider El) (id : String) where
  -- What is checked of a signed root element.
  pub record IsAnswer (resp : Response) : Type 0 where
    pub answers : resp.in_response_to ≡ id
    pub destination : (resp.destination ≡ "") ⊎ (resp.destination ≡ p.redirect_uri)
    pub status : Status
    pub has_status : resp.status ≡ some status
    pub success : status.code ≡ some status_code_success

  -- What is checked of the assertion, for an identity.
  pub record IsAsserted (a : Assertion) (ident : Identity) : Type 0 where
    pub subject : Subject
    pub confirmation : SubjectConfirmation
    pub has_subject : a.subject ≡ some subject
    pub member : In confirmation subject.confirmations
    pub confirmed : IsConfirmation lib p id confirmation
    pub conditions : (k : Conditions) → a.conditions ≡ some k → IsMet lib p id k
    pub user : subject.name_id ≡ some ident.user_id
    pub named : ident.user_id ≢ ""
    pub email : ident.email ≢ ""
    pub username : ident.username ≢ ""

  validate_status-ok :
      (s : Status) (u : Unit {0})
      → validate_status lib p s ≡ ok u
      → s.code ≡ some status_code_success
  unfolding validate_status
  validate_status-ok s u h = elim (Option-cases s.code) [
    | inl e ↦ cc (rw (e, validate_status) at h)
    | inr (code, e) ↦
        let (same, done) =
          guard-ok lib p (not (code == status_code_success)) _ _ u (rw (e, validate_status) at h) in
        rw e (ap some (not_equal code status_code_success same))
  ]

  check_root-ok : (resp : Response) (u : Unit {0}) → check_root lib p id resp ≡ ok u → IsAnswer resp
  unfolding check_root
  check_root-ok resp u h =
      let (a, e₁, k₁) = bind-ok _ _ u h in
      let (b, e₂, k₂) = bind-ok _ _ u k₁ in
      let (c, e₃, k₃) = bind-ok _ _ u k₂ in
      let (status, e₄, k₄) = bind-ok _ _ u k₃ in
      record {
        answers = not_equal resp.in_response_to id (refuse_if-ok _ _ b e₂);
        destination = optional resp.destination p.redirect_uri (refuse_if-ok _ _ c e₃);
        status = status;
        has_status = present-ok resp.status _ status e₄;
        success = validate_status-ok status u k₄;
      }

  map_attributes-ok :
      (s : Scopes) (user : String) (attributes : List Attribute) (ident : Identity)
      → map_attributes lib p s user attributes ≡ ok ident
      → (ident.user_id ≡ user) × (ident.email ≢ "") × (ident.username ≢ "")
  unfolding map_attributes
  map_attributes-ok s user attributes ident h =
      let (a, e₁, k₁) = bind-ok _ _ ident h in
      let (b, e₂, k₂) = bind-ok _ _ ident k₁ in
      let (groups, e₃, k₃) = bind-ok (groups_of lib p s attributes) _ ident k₂ in
      let same = ok_injective k₃ in
      (
        sym (ap (λ (i : Identity). i.user_id) same),
        subst (λ (i : Identity). i.email ≢ "") same (unequal _ "" (refuse_if-ok _ _ a e₁)),
        subst (λ (i : Identity). i.username ≢ "") same (unequal _ "" (refuse_if-ok _ _ b e₂)),
      )

  read_assertion-ok :
      (s : Scopes) (a : Assertion) (ident : Identity)
      → read_assertion lib p s id a ≡ ok ident
      → IsAsserted a ident
  unfolding read_assertion validate_subject
  read_assertion-ok s a ident h =
      let (subject, e₁, k₁) = bind-ok _ _ ident h in
      let (ticks, e₂, k₂) = bind-ok (validate_subject lib p id subject 0) _ ident k₁ in
      let (u, e₃, k₃) = bind-ok _ _ ident k₂ in
      let (user, e₄, k₄) = bind-ok _ _ ident k₃ in
      let (v, e₅, k₅) = bind-ok _ _ ident k₄ in
      let (attributes, e₆, k₆) = bind-ok _ _ ident k₅ in
      let (many, found) = guard-ok lib p _ _ _ ticks e₂ in
      let (c, member, confirmed) = confirm-ok lib p id subject.confirmations _ 0 ticks found in
      let (same, email, username) = map_attributes-ok s user attributes ident k₆ in
      record {
        subject = subject;
        confirmation = c;
        has_subject = present-ok a.subject _ subject e₁;
        member = member;
        confirmed = confirmed;
        conditions = conditions_hold-ok lib p id a ticks u e₃;
        user = present-ok subject.name_id _ user e₄ ∙ ap some (sym same);
        named = subst (λ x. x ≢ "") (sym same) (unequal user "" (refuse_if-ok _ _ v e₅));
        email = email;
        username = username;
      }

  read_response-ok :
      (s : Scopes) (root : Bool) (resp : Response) (ident : Identity)
      → read_response lib p s id root resp ≡ ok ident
      → (a : Assertion) × (root ≡ true → IsAnswer resp)
        × (resp.assertion ≡ some a)
        × IsAsserted a ident
  unfolding read_response
  read_response-ok s true resp ident h =
      let (u, e₁, k₁) = bind-ok _ _ ident h in
      let (a, e₂, k₂) = bind-ok _ _ ident k₁ in
      (
        a,
        (λ r. check_root-ok resp u e₁),
        present-ok resp.assertion _ a e₂,
        read_assertion-ok s a ident k₂,
      )
  read_response-ok s false resp ident h =
      let (u, e₁, k₁) = bind-ok _ _ ident h in
      let (a, e₂, k₂) = bind-ok _ _ ident k₁ in
      (a, (λ r. cc), present-ok resp.assertion _ a e₂, read_assertion-ok s a ident k₂)

  -- If etree removes and adds children as it says, HandlePOST returns an identity, and the connector
  -- checks signatures: the posted text decodes to a document of which the validator accepts the root
  -- element or else the selected assertion, and then what it accepted is the only child element of
  -- the root that is written for what follows; the identity comes from a response read from what was accepted. The
  -- response has a subject with a bearer confirmation that answers the request, in time up to the
  -- allowed drift and for dex; its conditions, if it has any, are in time and each names dex's
  -- audience; the user ID is the NameID and not empty, nor are email and name. If the root element
  -- was accepted, it answers the request too, for dex, with the status of success.
  pub handle_post-IsAsserted :
      (laws : EtreeLaws lib) (s : Scopes) (posted : String) (ident : Identity)
      (validate : El → Result El)
      → p.validator ≡ some validate
      → handle_post lib p s posted id ≡ ok ident
      → (raw : Bytes) × (signed : Bytes) × (root : Bool) × (resp : Response) × (a : Assertion)
        × (lib.decode_base64 posted ≡ ok raw)
        × Signed lib validate raw signed root
        × (lib.unmarshal signed ≡ ok resp)
        × (root ≡ true → IsAnswer resp)
        × (resp.assertion ≡ some a)
        × IsAsserted a ident
  unfolding handle_post
  handle_post-IsAsserted laws s posted ident validate v h =
      let (raw, e₁, k₁) = bind-ok _ _ ident h in
      let (sr, e₂, k₂) = bind-ok (verified lib p raw) _ ident k₁ in
      let (resp, e₃, k₃) = bind-ok _ _ ident k₂ in
      let (a, answer, assertion, asserted) = read_response-ok s sr.1 resp ident k₃ in
      (
        raw,
        sr.0,
        sr.1,
        resp,
        a,
        or_wrap-ok _ _ raw e₁,
        verified-Signed lib laws validate raw p sr.0 sr.1 v e₂,
        or_wrap-ok _ _ resp e₃,
        answer,
        assertion,
        asserted,
      )

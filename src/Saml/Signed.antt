-- ===== src/Saml/Signed.antt =====
-- connector/saml/saml.go: what verifyResponseSig hands on of the posted document.
use dex.Prelude.{
  Bool, true, false, some, List, [], ◌∷◌, ◌++◌, refl, Result, ok, ◌≡◌, ap, ◌∙◌, inl, inr,
  ok_injective, string_eq, Result-cases,
}
use dex.Storage.{Bytes}
use dex.Saml.{Library, Provider}
use dex.Saml.Post.{verify_response_sig, verify_assertion, verify_document, verified, remove_all}
use dex.Saml.Results.{bind-ok, or_wrap-ok, or_text-ok}

-- What verifyResponseSig relies on of etree: the children without the first one, and with one more.
pub record EtreeLaws {Doc El : Type 0} (lib : Library Doc El) : Type 0 where
  pub removed :
      (first e : El) (rest : List El)
      → lib.children e ≡ first ∷ rest
      → lib.children (lib.remove_child first e) ≡ rest
  pub added : (child e : El) → lib.children (lib.add_child child e) ≡ lib.children e ++ (child ∷ [])

remove_all-children :
    {Doc El : Type 0} (lib : Library Doc El) (laws : EtreeLaws lib) (els : List El) (e : El)
    → lib.children e ≡ els
    → lib.children (remove_all lib els e) ≡ []
unfolding remove_all
remove_all-children lib laws [] e h = h
remove_all-children lib laws (el ∷ els) e h =
    remove_all-children lib laws els (lib.remove_child el e) (laws.removed el e els h)

-- How the signed bytes come from the posted ones, if the root element was verified, and if the
-- assertion alone was: then the root that is written has the verified element as its only child.
abbrev pub Signed :
    {Doc El : Type 0} → Library Doc El → (El → Result El) → Bytes → Bytes → Bool → Type 0
Signed {Doc} {El} lib validate raw signed true =
    (doc : Doc) × (element : El) × (lib.read raw ≡ ok doc)
    × (validate (lib.root doc) ≡ ok element)
    × (lib.write (lib.set_root element doc) ≡ ok signed)
Signed {Doc} {El} lib validate raw signed false =
    (doc : Doc) × (assertion : El) × (element : El) × (response : El) × (lib.read raw ≡ ok doc)
    × (lib.select_assertion (lib.root doc) ≡ ok assertion)
    × (validate assertion ≡ ok element)
    × (lib.children response ≡ element ∷ [])
    × (lib.write (lib.set_root response doc) ≡ ok signed)

module _ {Doc El : Type 0} (lib : Library Doc El) (laws : EtreeLaws lib) (validate : El → Result El)
    (raw : Bytes) where
  verify_assertion-Signed :
      (doc : Doc) (signed : Bytes) (root : Bool)
      → lib.read raw ≡ ok doc
      → verify_assertion lib validate doc ≡ ok (signed, root)
      → Signed lib validate raw signed root
  unfolding verify_assertion
  verify_assertion-Signed doc signed true r h =
      let (assertion, e₁, k₁) = bind-ok _ _ (signed, true) h in
      let (element, e₂, k₂) = bind-ok _ _ (signed, true) k₁ in
      let (written, e₃, k₃) = bind-ok _ _ (signed, true) k₂ in
      cc (ap (λ (t : Bytes × Bool). t.1) (ok_injective k₃))
  verify_assertion-Signed doc signed false r h =
      let (assertion, e₁, k₁) = bind-ok _ _ (signed, false) h in
      let (element, e₂, k₂) = bind-ok _ _ (signed, false) k₁ in
      let (written, e₃, k₃) = bind-ok _ _ (signed, false) k₂ in
      (
        doc,
        assertion,
        element,
        _,
        r,
        or_text-ok _ _ assertion e₁,
        or_wrap-ok _ _ element e₂,
        laws.added element (remove_all lib (lib.children (lib.root doc)) (lib.root doc))
            ∙ ap (λ (l : List El). l ++ (element ∷ []))
                (remove_all-children lib laws (lib.children (lib.root doc)) (lib.root doc) refl),
        e₃ ∙ ap (λ (t : Bytes × Bool). ok t.0) (ok_injective k₃),
      )

  root-Signed :
      (doc : Doc) (element : El) (signed : Bytes) (root : Bool) (written : Bytes)
      → lib.read raw ≡ ok doc
      → validate (lib.root doc) ≡ ok element
      → lib.write (lib.set_root element doc) ≡ ok written
      → ◌≡◌ {A = Bytes × Bool} (written, true) (signed, root)
      → Signed lib validate raw signed root
  root-Signed doc element signed true written r v w h =
      (doc, element, r, v, w ∙ ap (λ (t : Bytes × Bool). ok t.0) h)
  root-Signed doc element signed false written r v w h = cc (ap (λ (t : Bytes × Bool). t.1) h)

  verify_document-Signed :
      (doc : Doc) (signed : Bytes) (root : Bool)
      → lib.read raw ≡ ok doc
      → verify_document lib validate doc ≡ ok (signed, root)
      → Signed lib validate raw signed root
  unfolding verify_document
  verify_document-Signed doc signed root r h = elim (Result-cases (validate (lib.root doc))) [
    | inr (x, v) ↦ verify_assertion-Signed doc signed root r (rw (v, verify_document) at h)
    | inl (element, v) ↦
        let (written, e, k) = bind-ok _ _ (signed, root) (rw (v, verify_document) at h) in
        root-Signed doc element signed root written r v e (ok_injective k)
  ]

  pub verified-Signed :
      (p : Provider El) (signed : Bytes) (root : Bool)
      → p.validator ≡ some validate
      → verified lib p raw ≡ ok (signed, root)
      → Signed lib validate raw signed root
  unfolding verified verify_response_sig
  verified-Signed p signed root v h =
      let (doc, e, k) =
        bind-ok _ _ (signed, root)
          (or_wrap-ok (verify_response_sig lib validate raw) _ (signed, root)
            (rw (v, verified) at h)) in
      verify_document-Signed doc signed root (or_wrap-ok _ _ doc e) k

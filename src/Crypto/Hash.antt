-- ===== src/Crypto/Hash.antt =====
-- crypto/hash.go: the hash of an invoice, taken without the elements that signing adds. The parser,
-- the elements of etree, the canonical form, SHA-256 and base64 are parameters.
pub mod Excluded
use zatca_integration.Common.{
  ℕ, Bool, true, false, ◌&&◌, ◌||◌, not, Option, none, some, List, [], ◌∷◌, any, if◌then◌else◌,
}
use zatca_integration.Text.{Text, codes, text_eq, is_empty}
use zatca_integration.Text.Utf8.{trim_space}
use zatca_integration.Errors.{Result, ok, err, opaque}
use zatca_integration.Crypto.Qr.{Base64Library}

-- etree.Attr
pub record Attr : Type 0 where
  pub space : Text
  pub key : Text
  pub value : Text

-- an etree.Token among the children of the root: an element, or a text, comment or the like
pub data Node (Element : Type 0) : Type 0 where
  child : Element → Node Element
  token : Text → Node Element

-- what Root answers; its parent is the document, which has no attributes
pub record Root (Element : Type 0) : Type 0 where
  pub attrs : List Attr
  pub children : List (Node Element)

-- The libraries. `read_from` is ReadFromString and Root; `print` is Indent(0) and WriteToString.
pub record HashLibrary (Element : Type 0) : Type 0 where
  pub read_from : Text → Result (Option (Root Element))
  pub space : Element → Text
  pub tag : Element → Text
  pub child_elements : Element → List Element
  pub text : Element → Text
  pub canonicalize : Root Element → Result (List ℕ)
  pub print : Root Element → Text
  pub sha256 : List ℕ → List ℕ
  pub base64 : Base64Library

abbrev pub ns_ext : Text
ns_ext = codes "urn:oasis:names:specification:ubl:schema:xsd:CommonExtensionComponents-2"

abbrev pub ns_cac : Text
ns_cac = codes "urn:oasis:names:specification:ubl:schema:xsd:CommonAggregateComponents-2"

abbrev pub xmlns : Text
xmlns = codes "xmlns"

abbrev declares : Text → Attr → Bool
declares prefix a =
    (text_eq a.space xmlns && text_eq a.key prefix)
    || (is_empty a.space && (text_eq a.key xmlns && is_empty prefix))

-- resolveNamespace, over the attributes of an element and of its parents; the inner loop ends at the
-- first attribute that declares the prefix
unfoldable pub declared : Text → List Attr → Option Text
declared prefix [] = none
declared prefix (a ∷ attrs) =
    let rest = declared prefix attrs in if declares prefix a then some a.value else rest

unfoldable pub resolve_namespace : Text → List (List Attr) → Text
resolve_namespace prefix [] = []
resolve_namespace prefix (attrs ∷ parents) = elim (declared prefix attrs) [
  | some value ↦ value
  | none ↦ resolve_namespace prefix parents
]

-- the loop over the children, which ends with RemoveChild of the first that the test selects
unfoldable pub remove_first {ℓ} : {A : Type ℓ} → (A → Bool) → List A → List A
remove_first p [] = []
remove_first p (x ∷ xs) = let rest = remove_first p xs in if p x then xs else x ∷ rest

module _ {Element : Type 0} (library : HashLibrary Element) where
  -- the two tests of removeChildElement
  abbrev pub is_named : List Attr → Text → Text → Node Element → Bool
  is_named attrs space tag (token t) = false
  is_named attrs space tag (child e) =
      (not (is_empty (library.space e))
        && (text_eq (resolve_namespace (library.space e) (attrs ∷ [] ∷ [])) space
            && text_eq (library.tag e) tag))
      || (text_eq (library.tag e) tag
          && any
              (λ a.
                text_eq a.key (library.space e) && (text_eq a.space xmlns && text_eq a.value space))
              attrs)

  -- removeChildElement
  unfoldable pub remove_child_element : Text → Text → Root Element → Root Element
  remove_child_element space tag root = record root {
    children = remove_first (is_named root.attrs space tag) root.children;
  }

  -- the test of removeQRReference
  abbrev pub is_qr_reference : Node Element → Bool
  is_qr_reference (token t) = false
  is_qr_reference (child e) =
      text_eq (library.tag e) (codes "AdditionalDocumentReference")
      && any
          (λ sub.
            text_eq (library.tag sub) (codes "ID")
            && text_eq (trim_space (library.text sub)) (codes "QR"))
          (library.child_elements e)

  -- removeQRReference
  unfoldable pub remove_qr_reference : Root Element → Root Element
  remove_qr_reference root = record root { children = remove_first is_qr_reference root.children }

  -- the three calls of canonicalizeForHashing and of ExportStripForHashing
  abbrev pub strip : Root Element → Root Element
  strip root = remove_qr_reference (
      remove_child_element ns_cac (codes "Signature")
        (remove_child_element ns_ext (codes "UBLExtensions") root))

  abbrev pub canonical_root : Option (Root Element) → Result (List ℕ)
  canonical_root none = err opaque
  canonical_root (some root) = elim (library.canonicalize (strip root)) [
    | err e ↦ err e
    | ok bytes ↦ ok bytes
  ]

  -- canonicalizeForHashing, and ExportCanonicalizedXML
  unfoldable pub canonicalize_for_hashing : Text → Result (List ℕ)
  canonicalize_for_hashing xml = elim (library.read_from xml) [
    | err e ↦ err e
    | ok root ↦ canonical_root root
  ]

  -- InvoiceHashBytes
  unfoldable pub invoice_hash_bytes : Text → Result (List ℕ)
  invoice_hash_bytes xml = elim (canonicalize_for_hashing xml) [
    | err e ↦ err e
    | ok bytes ↦ ok (library.sha256 bytes)
  ]

  -- InvoiceHash
  unfoldable pub invoice_hash : Text → Result Text
  invoice_hash xml = elim (canonicalize_for_hashing xml) [
    | err e ↦ err e
    | ok bytes ↦ ok (library.base64.encode (library.sha256 bytes))
  ]

  abbrev stripped_text : Text → Option (Root Element) → Text
  stripped_text xml none = xml
  stripped_text xml (some root) = library.print (strip root)

  -- ExportStripForHashing
  unfoldable pub export_strip_for_hashing : Text → Text
  export_strip_for_hashing xml = elim (library.read_from xml) [
    | err e ↦ xml
    | ok root ↦ stripped_text xml root
  ]

  -- PIHHash
  unfoldable pub pih_hash : Text → Text
  pih_hash signed_xml = library.base64.encode (library.sha256 signed_xml)

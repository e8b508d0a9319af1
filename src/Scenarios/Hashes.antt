-- ===== src/Scenarios/Hashes.antt =====
-- An invoice before and after it is signed.
use zatca_integration.Common.{◌≡◌, refl, Option, some, List, [], ◌∷◌, ◌++◌, arith}
use zatca_integration.Text.{Text, codes}
use zatca_integration.Queue.Message.{runnable}
use zatca_integration.Errors.{Result, ok}
use zatca_integration.Crypto.Hash.{
  Attr, Node, child, token, Root, HashLibrary, ns_ext, ns_cac, xmlns, declared, resolve_namespace,
  invoice_hash,
}
use zatca_integration.Crypto.Hash.Excluded.{count, without, body, IsSingle, invoice_hash-body}

data SmallElement : Type 0 where
  extensions_element signature_element qr_element qr_id total_element : SmallElement

abbrev prefix_of : SmallElement → Text
prefix_of extensions_element = codes "ext"
prefix_of signature_element = codes "cac"
prefix_of qr_element = codes "cac"
prefix_of qr_id = codes "cbc"
prefix_of total_element = codes "cac"

abbrev tag_of : SmallElement → Text
tag_of extensions_element = codes "UBLExtensions"
tag_of signature_element = codes "Signature"
tag_of qr_element = codes "AdditionalDocumentReference"
tag_of qr_id = codes "ID"
tag_of total_element = codes "TaxTotal"

abbrev children_of : SmallElement → List SmallElement
children_of extensions_element = []
children_of signature_element = []
children_of qr_element = qr_id ∷ []
children_of qr_id = []
children_of total_element = []

abbrev text_of : SmallElement → Text
text_of extensions_element = []
text_of signature_element = []
text_of qr_element = []
text_of qr_id = codes "QR"
text_of total_element = []

abbrev namespaces : List Attr
namespaces =
    record { space = xmlns; key = codes "ext"; value = ns_ext }
    ∷ record { space = xmlns; key = codes "cac"; value = ns_cac }
    ∷ []

abbrev unsigned_root : Root SmallElement
unsigned_root = record { attrs = namespaces; children = child total_element ∷ [] }

abbrev signed_root : Root SmallElement
signed_root = record {
  attrs = namespaces;
  children =
      child extensions_element
      ∷ child qr_element
      ∷ child signature_element
      ∷ child total_element
      ∷ [];
}

abbrev read_small : Text → Result (Option (Root SmallElement))
read_small [] = ok (some unsigned_root)
read_small (c ∷ s) = ok (some signed_root)

abbrev listed : List (Node SmallElement) → Text
listed [] = []
listed (child e ∷ nodes) = tag_of e ++ listed nodes
listed (token t ∷ nodes) = t ++ listed nodes

abbrev small_library : HashLibrary SmallElement
small_library = record {
  read_from = read_small;
  space = prefix_of;
  tag = tag_of;
  child_elements = children_of;
  text = text_of;
  canonicalize = λ root. ok (listed root.children);
  print = λ root. [];
  sha256 = λ bytes. bytes;
  base64 = record { encode = λ bytes. bytes; decode = λ t. some t };
}

unsigned-IsSingle : IsSingle small_library unsigned_root
unfolding count declared resolve_namespace runnable
unsigned-IsSingle = record {
  extensions = omega arith;
  signature = omega arith;
  qr_reference = omega arith;
}

signed-IsSingle : IsSingle small_library signed_root
unfolding count declared resolve_namespace runnable
signed-IsSingle = record {
  extensions = omega arith;
  signature = omega arith;
  qr_reference = omega arith;
}

same_body : body small_library unsigned_root ≡ body small_library signed_root
unfolding body without declared resolve_namespace runnable
same_body = refl

invoice_hash-body_example :
    invoice_hash small_library [] ≡ invoice_hash small_library (codes "signed")
invoice_hash-body_example =
    invoice_hash-body small_library [] (codes "signed") unsigned_root signed_root refl refl
      unsigned-IsSingle signed-IsSingle same_body

-- ===== src/Crypto/Sign.antt =====
-- crypto/sign.go: the XAdES signature of an invoice, its place in the document, and the DER form of an
-- ECDSA signature. The hashes, the certificate's texts, the clock and ecdsa.Sign are parameters.
pub mod Der
pub mod Places
use zatca_integration.Common.{
  ℕ, zero, suc, ◌+◌, ◌/◌, ◌%◌, Bool, true, false, not, Option, none, some, List, [], ◌∷◌, ◌++◌,
  length, take, drop, ltb, leb, ◌==◌, if◌then◌else◌,
}
use zatca_integration.Text.{Text, codes, is_empty, has_prefix}
use zatca_integration.Errors.{Result, ok, err, opaque}
use zatca_integration.Crypto.Qr.{Base64Library, QrData, generate_qr}

-- strings.Index
unfoldable pub index_of : Text → Text → Option ℕ
index_of [] sub = if has_prefix sub [] then some 0 else none
index_of (c ∷ s) sub =
    let later = index_of s sub in
    if has_prefix sub (c ∷ s) then some 0 else elim later [ none ↦ none | some n ↦ some (suc n) ]

-- strings.LastIndex
unfoldable pub last_index_of : Text → Text → Option ℕ
last_index_of [] sub = if has_prefix sub [] then some 0 else none
last_index_of (c ∷ s) sub = elim (last_index_of s sub) [
  | some n ↦ some (suc n)
  | none ↦ if has_prefix sub (c ∷ s) then some 0 else none
]

-- strings.Replace(s, old, new, 1)
unfoldable pub replace_once : Text → Text → Text → Text
replace_once s old new = elim (index_of s old) [
  | none ↦ s
  | some n ↦ take n s ++ (new ++ drop (n + length old) s)
]

abbrev pub marker : Text
marker = codes "</sbc:ReferencedSignatureID>"

abbrev pub closing_marker : Text
closing_marker = codes "</sac:SignatureInformation>"

-- the text that injectSignature puts between the markers
abbrev pub placed : Text → Text
placed signature = 10 ∷ (signature ++ (10 ∷ codes "                "))

abbrev pub inject_between : Text → Text → ℕ → Option ℕ → Text
inject_between xml signature point none = xml
inject_between xml signature point (some closing) =
    take point xml ++ (placed signature ++ drop (point + closing) xml)

abbrev pub inject_after : Text → Text → Option ℕ → Text
inject_after xml signature none = xml
inject_after xml signature (some n) =
    inject_between xml signature (n + length marker)
      (index_of (drop (n + length marker) xml) closing_marker)

-- injectSignature
unfoldable pub inject_signature : Text → Text → Text
inject_signature xml signature = inject_after xml signature (index_of xml marker)

abbrev qr_object : Text → Text
qr_object qr =
    codes "<cbc:EmbeddedDocumentBinaryObject mimeCode=\"text/plain\">"
    ++ (qr ++ codes "</cbc:EmbeddedDocumentBinaryObject>")

-- injectQR
unfoldable pub inject_qr : Text → Text → Text
inject_qr xml qr = elim (last_index_of xml (codes "<cbc:ID>QR</cbc:ID>")) [
  | none ↦ xml
  | some n ↦ take n xml ++ replace_once (drop n xml) (qr_object []) (qr_object qr)
]

-- big.Int.Bytes: big-endian, without leading zeros. The fuel counts bytes.
unfoldable pub int_bytes : ℕ → ℕ → List ℕ
int_bytes zero n = []
int_bytes (suc fuel) n = elim (n == 0) [
  | true ↦ []
  | false ↦ int_bytes fuel (n / 256) ++ n % 256 ∷ []
]

abbrev pub padded : List ℕ → List ℕ
padded [] = []
padded (b ∷ bytes) = if leb 128 b then 0 ∷ b ∷ bytes else b ∷ bytes

-- intToASN1
unfoldable pub int_to_asn1 : ℕ → List ℕ
int_to_asn1 n = let bytes = padded (int_bytes n n) in 2 ∷ length bytes % 256 ∷ bytes

-- encodeECDSASignatureDER
unfoldable pub encode_der : ℕ → ℕ → List ℕ
encode_der r s = let inner = int_to_asn1 r ++ int_to_asn1 s in 48 ∷ length inner % 256 ∷ inner

-- CertInfo, through the texts and bytes that the signature takes from it
pub record Certificate : Type 0 where
  pub digest : Text
  pub issuer : Text
  pub serial : Text
  pub base64 : Text
  pub public_key : List ℕ
  pub raw : List ℕ

-- buildSignedProperties
unfoldable pub build_signed_properties : Text → Certificate → Text
build_signed_properties signing_time cert =
    codes
      "<xades:SignedProperties xmlns:xades=\"http://uri.etsi.org/01903/v1.3.2#\" Id=\"xadesSignedProperties\">"
    ++ (codes "<xades:SignedSignatureProperties>"
        ++ (codes "<xades:SigningTime>"
            ++ (signing_time
                ++ (codes "</xades:SigningTime>"
                    ++ (codes "<xades:SigningCertificate>"
                        ++ (codes "<xades:Cert>"
                            ++ (codes "<xades:CertDigest>"
                                ++ (codes
                                      "<ds:DigestMethod xmlns:ds=\"http://www.w3.org/2000/09/xmldsig#\" Algorithm=\"http://www.w3.org/2001/04/xmlenc#sha256\"/>"
                                    ++ (codes
                                          "<ds:DigestValue xmlns:ds=\"http://www.w3.org/2000/09/xmldsig#\">"
                                        ++ (cert.digest
                                            ++ (codes "</ds:DigestValue>"
                                                ++ (codes "</xades:CertDigest>"
                                                    ++ (codes "<xades:IssuerSerial>"
                                                        ++ (codes
                                                            "<ds:X509IssuerName xmlns:ds=\"http://www.w3.org/2000/09/xmldsig#\">"
                                                            ++ (cert.issuer
                                                            ++ (codes "</ds:X509IssuerName>"
                                                            ++ (codes
                                                            "<ds:X509SerialNumber xmlns:ds=\"http://www.w3.org/2000/09/xmldsig#\">"
                                                            ++ (cert.serial
                                                            ++ (codes "</ds:X509SerialNumber>"
                                                            ++ (codes "</xades:IssuerSerial>"
                                                            ++ (codes "</xades:Cert>"
                                                            ++ (codes "</xades:SigningCertificate>"
                                                            ++ (codes
                                                            "</xades:SignedSignatureProperties>"
                                                            ++ codes
                                                            "</xades:SignedProperties>")))))))))))))))))))))))

-- buildSignedInfo
unfoldable pub build_signed_info : Text → Text → Text
build_signed_info invoice_digest properties_digest =
    codes "<ds:SignedInfo xmlns:ds=\"http://www.w3.org/2000/09/xmldsig#\">"
    ++ (codes "<ds:CanonicalizationMethod Algorithm=\"http://www.w3.org/2006/12/xml-c14n11\"/>"
        ++ (codes
              "<ds:SignatureMethod Algorithm=\"http://www.w3.org/2001/04/xmldsig-more#ecdsa-sha256\"/>"
            ++ (codes "<ds:Reference Id=\"invoiceSignedData\" URI=\"\">"
                ++ (codes "<ds:Transforms>"
                    ++ (codes
                          "<ds:Transform Algorithm=\"http://www.w3.org/TR/1999/REC-xpath-19991116\">"
                        ++ (codes "<ds:XPath>not(//ancestor-or-self::ext:UBLExtensions)</ds:XPath>"
                            ++ (codes "</ds:Transform>"
                                ++ (codes
                                      "<ds:Transform Algorithm=\"http://www.w3.org/TR/1999/REC-xpath-19991116\">"
                                    ++ (codes
                                          "<ds:XPath>not(//ancestor-or-self::cac:Signature)</ds:XPath>"
                                        ++ (codes "</ds:Transform>"
                                            ++ (codes
                                                  "<ds:Transform Algorithm=\"http://www.w3.org/TR/1999/REC-xpath-19991116\">"
                                                ++ (codes
                                                      "<ds:XPath>not(//ancestor-or-self::cac:AdditionalDocumentReference[cbc:ID='QR'])</ds:XPath>"
                                                    ++ (codes "</ds:Transform>"
                                                        ++ (codes
                                                            "<ds:Transform Algorithm=\"http://www.w3.org/2006/12/xml-c14n11\"/>"
                                                            ++ (codes "</ds:Transforms>"
                                                            ++ (codes
                                                            "<ds:DigestMethod Algorithm=\"http://www.w3.org/2001/04/xmlenc#sha256\"/>"
                                                            ++ (codes "<ds:DigestValue>"
                                                            ++ (invoice_digest
                                                            ++ (codes "</ds:DigestValue>"
                                                            ++ (codes "</ds:Reference>"
                                                            ++ (codes
                                                            "<ds:Reference Type=\"http://www.w3.org/2000/09/xmldsig#SignatureProperties\" URI=\"#xadesSignedProperties\">"
                                                            ++ (codes
                                                            "<ds:DigestMethod Algorithm=\"http://www.w3.org/2001/04/xmlenc#sha256\"/>"
                                                            ++ (codes "<ds:DigestValue>"
                                                            ++ (properties_digest
                                                            ++ (codes "</ds:DigestValue>"
                                                            ++ (codes "</ds:Reference>"
                                                            ++ codes
                                                            "</ds:SignedInfo>"))))))))))))))))))))))))))

abbrev newline : Text
newline = 10 ∷ []

-- buildDSSignature
unfoldable pub build_ds_signature : Text → Text → Certificate → Text → Text
build_ds_signature signed_info signature_value cert properties =
    codes
      "                    <ds:Signature xmlns:ds=\"http://www.w3.org/2000/09/xmldsig#\" Id=\"signature\">"
    ++ (newline
        ++ (codes "                        "
            ++ (signed_info
                ++ (newline
                    ++ (codes "                        <ds:SignatureValue>"
                        ++ (signature_value
                            ++ (codes "</ds:SignatureValue>"
                                ++ (newline
                                    ++ (codes "                        <ds:KeyInfo>"
                                        ++ (newline
                                            ++ (codes "                            <ds:X509Data>"
                                                ++ (newline
                                                    ++ (codes
                                                          "                                <ds:X509Certificate>"
                                                        ++ (cert.base64
                                                            ++ (codes "</ds:X509Certificate>"
                                                            ++ (newline
                                                            ++ (codes
                                                            "                            </ds:X509Data>"
                                                            ++ (newline
                                                            ++ (codes
                                                            "                        </ds:KeyInfo>"
                                                            ++ (newline
                                                            ++ (codes
                                                            "                        <ds:Object>"
                                                            ++ (newline
                                                            ++ (codes
                                                            "                            <xades:QualifyingProperties xmlns:xades=\"http://uri.etsi.org/01903/v1.3.2#\" Target=\"signature\">"
                                                            ++ (newline
                                                            ++ (codes
                                                            "                                "
                                                            ++ (properties
                                                            ++ (newline
                                                            ++ (codes
                                                            "                            </xades:QualifyingProperties>"
                                                            ++ (newline
                                                            ++ (codes
                                                            "                        </ds:Object>"
                                                            ++ (newline
                                                            ++ codes
                                                            "                    </ds:Signature>")))))))))))))))))))))))))))))))

-- InvoiceHash of hash.go, crypto/sha256, "%x", ecdsa.Sign and the clock
pub record SigningLibrary : Type 0 where
  pub invoice_hash : Text → Option Text
  pub sha256 : Text → List ℕ
  pub hex : List ℕ → Text
  pub sign : List ℕ → List ℕ → Option (ℕ × ℕ)
  pub signing_time : Text
  pub zero_time : Text

-- SignResult
pub record SignResult : Type 0 where
  pub signed_xml : Text
  pub invoice_hash : Text
  pub signature_base64 : Text
  pub qr_code : Text

-- what the two entry points share: the hash, the signature, and the document that holds it
pub record Signed : Type 0 where
  pub hash : Text
  pub signature : List ℕ
  pub xml : Text

module _ (base64 : Base64Library) (library : SigningLibrary) where
  abbrev properties_digest : Text → Text
  properties_digest properties = base64.encode (library.hex (library.sha256 properties))

  abbrev signed_by : Text → Certificate → Text → Text → Text → Option (ℕ × ℕ) → Result Signed
  signed_by xml cert hash properties info none = err opaque
  signed_by xml cert hash properties info (some (r, s)) =
      let signature = encode_der r s in
      ok (record {
        hash = hash;
        signature = signature;
        xml =
            inject_signature xml
              (build_ds_signature info (base64.encode signature) cert properties);
      })

  abbrev signed_hash : Text → List ℕ → Certificate → Option Text → Result Signed
  signed_hash xml key cert none = err opaque
  signed_hash xml key cert (some hash) =
      let properties = build_signed_properties library.signing_time cert in
      let info = build_signed_info hash (properties_digest properties) in
      signed_by xml cert hash properties info (library.sign key (library.sha256 info))

  -- the steps that SignInvoice and SignInvoiceWithQR begin with
  unfoldable pub signed : Text → List ℕ → Certificate → Result Signed
  signed xml key cert = signed_hash xml key cert (library.invoice_hash xml)

  abbrev pub result_of : Signed → Text → Text → SignResult
  result_of s xml qr = record {
    signed_xml = xml;
    invoice_hash = s.hash;
    signature_base64 = base64.encode s.signature;
    qr_code = qr;
  }

  -- `qrCode, _ = GenerateQR(qrData)`
  abbrev pub or_empty : Result Text → Text
  or_empty (err e) = []
  or_empty (ok t) = t

  -- the QR data of SignInvoice
  abbrev pub bare_qr : Signed → Certificate → QrData
  bare_qr s cert = record {
    seller_name = [];
    vat_number = [];
    timestamp = library.zero_time;
    total = [];
    vat_amount = [];
    hash = s.hash;
    signature = s.signature;
    public_key = cert.public_key;
    cert_hash = cert.raw;
  }

  abbrev pub with_code : Signed → Text → SignResult
  with_code s qr = result_of s (if is_empty qr then s.xml else inject_qr s.xml qr) qr

  abbrev pub finish : Bool → Certificate → Result Signed → Result SignResult
  finish simplified cert (err e) = err e
  finish simplified cert (ok s) =
      ok (with_code s (if simplified then or_empty (generate_qr base64 (bare_qr s cert)) else []))

  -- SignInvoice
  unfoldable pub sign_invoice : Text → List ℕ → Certificate → Bool → Result SignResult
  sign_invoice xml key cert simplified = finish simplified cert (signed xml key cert)

  -- the caller's part of the QR data
  abbrev pub full_qr : Signed → Certificate → Text → Text → Text → Text → Text → QrData
  full_qr s cert seller_name vat_number timestamp total vat_amount = record (bare_qr s cert) {
    seller_name = seller_name;
    vat_number = vat_number;
    timestamp = timestamp;
    total = total;
    vat_amount = vat_amount;
  }

  abbrev pub with_result : Signed → Result Text → Result SignResult
  with_result s (err e) = err e
  with_result s (ok qr) = ok (result_of s (inject_qr s.xml qr) qr)

  abbrev pub finish_with_qr :
      Certificate → Text → Text → Text → Text → Text → Result Signed → Result SignResult
  finish_with_qr cert seller_name vat_number timestamp total vat_amount (err e) = err e
  finish_with_qr cert seller_name vat_number timestamp total vat_amount (ok s) =
      with_result s
        (generate_qr base64 (full_qr s cert seller_name vat_number timestamp total vat_amount))

  -- SignInvoiceWithQR, whose two branches on isSimplified are the same call
  unfoldable pub sign_invoice_with_qr :
      Text → List ℕ → Certificate → Text → Text → Text → Text → Text → Result SignResult
  sign_invoice_with_qr xml key cert seller_name vat_number timestamp total vat_amount =
      finish_with_qr cert seller_name vat_number timestamp total vat_amount (signed xml key cert)

-- ===== src/Crypto/Sign/Places.antt =====
-- Where crypto/sign.go puts the signature and the QR code.
use zatca_integration.Common.{ℕ, ◌≡◌, refl, Bool, true, false, List, []}
use zatca_integration.Text.{Text}
use zatca_integration.Errors.{Result, ok, err}
use zatca_integration.Crypto.Qr.{Base64Library, generate_qr}
use zatca_integration.Crypto.Sign.{
  Certificate, SigningLibrary, SignResult, Signed, signed, finish, sign_invoice,
}

abbrev pub HasNoQr : Result SignResult → Type 0
HasNoQr (err e) = Unit
HasNoQr (ok r) = r.qr_code ≡ []

-- SignInvoice never makes a QR code: it leaves the names out of the QR data, which GenerateQR refuses,
-- and the error is dropped. So the result that it answers, if any, has no code, and is the same for a
-- simplified invoice as for a standard one.
pub sign_invoice-HasNoQr :
    (base64 : Base64Library) (library : SigningLibrary) (xml : Text) (key : List ℕ)
    (cert : Certificate) (simplified : Bool)
    → HasNoQr (sign_invoice base64 library xml key cert simplified)
      × (sign_invoice base64 library xml key cert true
          ≡ sign_invoice base64 library xml key cert false)
unfolding sign_invoice generate_qr
sign_invoice-HasNoQr base64 library xml key cert simplified =
    at simplified (signed base64 library xml key cert)
  where
    at :
        (b : Bool) (s : Result Signed)
        → HasNoQr (finish base64 library b cert s)
          × (finish base64 library true cert s ≡ finish base64 library false cert s)
    at b (err e) = (tt, refl)
    at true (ok s) = (refl, refl)
    at false (ok s) = (refl, refl)

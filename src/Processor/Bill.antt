-- ===== src/Processor/Bill.antt =====
-- processor/bill.go: the printed identity and the payment of a bill.
use zatca_integration.Common.{ℕ, Option, none, some, ◌==◌, [], ◌++◌, if◌then◌else◌}
use zatca_integration.Text.{Text, codes, is_empty}
use zatca_integration.Text.Utf8.{trim_space}
use zatca_integration.Text.Decimal.{format_nat, parse_uint}

abbrev printed : Option ℕ → Text
printed none = []
printed (some n) = if n == 0 then [] else codes "INV-" ++ format_nat n

-- finalizedInvoiceID of a bill with this seq_number
unfoldable pub finalized_invoice_id : Option Text → Text
finalized_invoice_id none = []
finalized_invoice_id (some sequence) = printed (parse_uint (trim_space sequence))

-- paymentMeans of a bill with this payment method; PaymentCash is "10"
unfoldable pub payment_means : Option Text → Text
payment_means none = codes "10"
payment_means (some method) = if is_empty method then codes "10" else method

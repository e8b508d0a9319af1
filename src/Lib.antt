-- ===== src/Lib.antt =====
-- A model of the daemon that signs invoices and reports them to ZATCA, and of what makes it correct.
--
-- The daemon receives one envelope for each final sale. A worker claims its request, books the next
-- number of the branch's invoice chain, builds and signs the invoice, commits it together with the
-- chain, hands it to ZATCA, records the answer and acknowledges the delivery. All state is in tables
-- of the tenant's database.
--
-- - Common, Text, Errors: numbers, lists and tables; Go strings as lists of bytes, with the parts of
--   unicode/utf8, strings and strconv that the source uses (Text.Utf8, Text.Decimal); error values as
--   the lists of sentinels that errors.Is finds in them.
-- - Db.Tables: the rows that the SQL statements read and write. Db.Program: programs of SQL
--   statements. Each statement takes one tick: time passes, and the statement is done, fails, finds a
--   lock, or runs while its answer is lost. The ticks are a list in the world; when it is used up,
--   every statement is done. A failed transaction is rolled back, and a transaction runs as a whole:
--   the locks that it takes keep others out. Db.Program.Rules: rules for such programs.
-- - Queue.Message: queue/message.go, the envelope, its validation and the keys derived from it.
-- - Queue.Types, Queue.Evidence: the values of queue/chain.go and the text of external evidence.
-- - Queue.Claim: queue/claim.go and queue/sql_claim_store.go, Claim, Release and Complete.
-- - Queue.Chain, Queue.Record: queue/chain.go, Book, Release (release_booking), Commit, Stored and
--   Record (record_outcome). Numbers are uint64 and wrap at 2^64.
-- - Queue.Rules, Queue.Kept, Queue.Operations: what every operation does, from what its statements do.
-- - Queue.Stream: queue/ordered_stream.go, HandleMessage and FinalizePermanentFailure. What the
--   pipeline and the broker answer during a delivery is a record (Delivery); the lists sent and acked
--   of the world hold what was handed to ZATCA and what was acknowledged.
-- - Daemon: cmd/daemon/worker.go (handleDelivery) and queue/reconcile.go with cmd/daemon/reconcile.go
--   (a request that reads or records an outcome). Daemon.Workers: any workers, whose operations follow
--   one another in any order.
-- - Processor.Answer, Processor.Bill: processor/bill.go, what an answer of ZATCA means
--   (responseOutcome, rejectionOutcome), and the printed identity and the payment of a bill.
-- - Client: client/client.go, the requests to ZATCA and the reading of its answers. Client.Exchange:
--   what a result says of the exchange.
-- - Processor.Onboard: processor/onboard.go, OnboardBranch over the table branch_zatca_config.
-- - Tenant: tenant/tenant.go, the registry of tenants.
-- - Daemon.Branches: queue/onboard.go, and the sets of branch keys of cmd/daemon/worker.go.
-- - Daemon.Topology: cmd/daemon/reconcile.go, the tenants, workers, subscriptions and caches that the
--   daemon holds, and the steps that follow the registry (getService, reconcile, addTenant,
--   removeTenant, reconcileBranches, startBranch, stop). A Go map is a list; what databases and the
--   broker answer during a call is a record (Platform). The entry of a worker stays when it ends by
--   itself; tenants have serial numbers in place of pointers.
-- - Queue.Preflight: queue/preflight.go, the columns that the statements need.
-- - Secutil: secutil/secutil.go, keys and encrypted values. Storeconfig: storeconfig/storeconfig.go, the
--   credentials and the status of a branch. Config: config/config.go, config/nats.go,
--   config/taxpayer.go (Config.Taxpayers) and dbutil/dsn.go (Config.Dsn).
-- - Invoice: invoice/invoice.go, amounts over any float64. Invoice.Groups: the tax subtotals.
--   Invoice.Xml, Invoice.Xml.Document: invoice/xml.go, the document as a list of pieces, one for each tag
--   or element that the source writes, and the text that they print to.
-- - Crypto.Qr: crypto/qr.go, the QR code of an invoice. The loop of DecodeTLV runs on fuel, the length
--   of the data, which is enough since each turn reads a byte at least. Crypto.Sign: crypto/sign.go, the
--   signature, its DER form and its place. The bytes of a number run on fuel, the number itself, which
--   is enough since each turn divides it by 256. Crypto.Hash: crypto/hash.go, over the attributes and
--   children of the root that etree answers. Crypto.Sign takes InvoiceHash as a parameter.
-- - Scenarios: concrete runs.
--
-- Parameters stand for uuid.Parse, base64, AES-GCM, etree, XML canonicalisation, SHA-256, ecdsa,
-- url.Parse, the MySQL driver's names, xml.EscapeText, float64, the clock and random sources, and
-- what databases, ZATCA and the broker answer. Nothing is assumed of float64, so nothing is said
-- of rounding, and nothing of EscapeText, so nothing is said of well-formed XML. Not modelled are the texts of errors, logging and mails, JSON, crypto/cert.go, the
-- service of zatca/zatca.go, the SDK, the mapping of a bill to an invoice, readiness and the
-- commands: they call libraries and services, or are left for later work.
pub mod Common
pub mod Text
pub mod Errors
pub mod Queue
pub mod Db
pub mod Crypto
pub mod Daemon
pub mod Processor
pub mod Client
pub mod Tenant
pub mod Config
pub mod Invoice
pub mod Secutil
pub mod Storeconfig
pub mod Scenarios

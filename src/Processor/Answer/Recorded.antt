-- ===== src/Processor/Answer/Recorded.antt =====
-- What the classification of an answer promises (processor/bill.go).
use zatca_integration.Common.{
  ◌≡◌, ◌≢◌, ℕ, ◌≤◌, ◌<◌, refl, true, false, Option, none, some, List, [], ◌∷◌, arith, ◌⊎◌, is_some,
  ◌↔◌,
}
use zatca_integration.Text.{Text, text_eq, text_eq_iff, is_empty}
use zatca_integration.Errors.{opaque}
use zatca_integration.Queue.Types.{
  Kind, standard, simplified, other_kind, Outcome, rejected, ambiguous,
}
use zatca_integration.Queue.Record.{is_issued, submission_status}
use zatca_integration.Queue.Stream.{Submitted}
use zatca_integration.Processor.Answer.{
  FmtLibrary, Detail, InvoiceResponse, ApiError, provider_status, success_status, validation_errors,
  validation_warnings, warned_or_accepted, refused_or, by_status, response_outcome,
}

-- The answer accepts an invoice of this kind.
pub record Accepts (kind : Kind) (r : InvoiceResponse) : Type 0 where
  pub no_errors : r.errors ≡ []
  pub no_validation_errors : validation_errors r ≡ []
  pub succeeded : provider_status kind r ≡ success_status kind
  pub kind_known : is_empty (success_status kind) ≡ false

warned-is_issued :
    (l m : List Detail) (o : Outcome)
    → is_issued o.state ≡ true
    → is_issued (warned_or_accepted l (warned_or_accepted m o)).state ≡ true
warned-is_issued [] [] o h = h
warned-is_issued [] (d ∷ m) o h = refl
warned-is_issued (d ∷ l) m o h = refl

refused-is_issued :
    (l : List Detail) (t : Text) (o : Outcome)
    → is_issued (refused_or l t o).state ≡ true
    → (l ≡ []) × (is_issued o.state ≡ true)
refused-is_issued [] t o h = (refl, h)
refused-is_issued (d ∷ l) t o h = cc

not_refused :
    (l : List Detail) (t : Text) (o : Outcome)
    → l ≡ []
    → is_issued o.state ≡ true
    → is_issued (refused_or l t o).state ≡ true
not_refused [] t o e h = h
not_refused (d ∷ l) t o e h = cc

module _ (fmt : FmtLibrary) (kind : Kind) (r : InvoiceResponse) where
  status-is_issued :
      is_issued (by_status fmt kind r).state ≡ true
      → (provider_status kind r ≡ success_status kind) × (is_empty (success_status kind) ≡ false)
  status-is_issued h = ground (arith, text_eq_iff (provider_status kind r) (success_status kind))

  issued_status :
      provider_status kind r ≡ success_status kind
      → is_empty (success_status kind) ≡ false
      → is_issued (by_status fmt kind r).state ≡ true
  issued_status same shown =
      let equal : text_eq (provider_status kind r) (success_status kind) ≡ true =
        (text_eq_iff (provider_status kind r) (success_status kind)).1 same in
      rw (shown, equal) (warned-is_issued r.warnings (validation_warnings r) _ refl)

  -- An answer counts as accepted, with or without a warning, exactly when it has no errors, no
  -- validation errors, and the status that stands for success of an invoice of its kind.
  pub response_outcome_iff : (is_issued (response_outcome fmt kind r).state ≡ true) ↔ Accepts kind r
  unfolding response_outcome
  response_outcome_iff = (there, back)
    where
      there : is_issued (response_outcome fmt kind r).state ≡ true → Accepts kind r
      there h =
          let (top, rest) = refused-is_issued r.errors _ _ h in
          let (validated, final) = refused-is_issued (validation_errors r) _ _ rest in
          let (same, shown) = status-is_issued final in
          record {
            no_errors = top;
            no_validation_errors = validated;
            succeeded = same;
            kind_known = shown;
          }

      back : Accepts kind r → is_issued (response_outcome fmt kind r).state ≡ true
      back a = not_refused r.errors _ _ a.no_errors (
          not_refused (validation_errors r) _ _ a.no_validation_errors
            (issued_status a.succeeded a.kind_known))

-- Record takes the state.
abbrev pub IsRecordable : Outcome → Type 0
IsRecordable o = is_some (submission_status o.state) ≡ true

-- Submit reports a technical failure, or an outcome that Record takes.
abbrev pub Settles : Submitted → Type 0
Settles s = (s.error ≡ some opaque) ⊎ IsRecordable s.outcome

-- the answer 208 or 409: ZATCA has the invoice
abbrev pub IsRepeat : ApiError → Type 0
IsRepeat e = (e.status_code ≡ 208) ⊎ (e.status_code ≡ 409)

-- The body of such an answer is an answer that accepts the invoice, of a kind that is known.
abbrev pub ShowsAccepted : Kind → Option InvoiceResponse → Type 0
ShowsAccepted kind none = ⊥
ShowsAccepted (other_kind t) (some r) = ⊥
ShowsAccepted standard (some r) = Accepts standard r
ShowsAccepted simplified (some r) = Accepts simplified r

-- a status that says that the invoice itself was refused
abbrev pub RefusesInvoice : ℕ → Type 0
RefusesInvoice n = (400 ≤ n) × (n < 500) × (n ≢ 401) × (n ≢ 403) × (n ≢ 408) × (n ≢ 409) × (n ≢ 429)

-- What Submit makes of an error of the client.
pub record Classified (kind : Kind) (e : ApiError) (s : Submitted) : Type 0 where
  pub accepts : (is_issued s.outcome.state ≡ true) ↔ (IsRepeat e × ShowsAccepted kind e.response)
  pub rejects : (s.outcome.state ≡ rejected) ↔ RefusesInvoice e.status_code
  pub leaves_open : (s.outcome.state ≡ ambiguous) ↔ (IsRepeat e × ¬ ShowsAccepted kind e.response)
  pub reports :
      (s.error ≡ none)
      ↔ ((IsRepeat e × ShowsAccepted kind e.response) ⊎ RefusesInvoice e.status_code)
  pub settles : Settles s

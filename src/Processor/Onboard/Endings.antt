-- ===== src/Processor/Onboard/Endings.antt =====
-- How an attempt to register a branch can end (processor/onboard.go).
use zatca_integration.Common.{ℕ, ◌<◌, ◌≡◌, ◌⊎◌, true, false, none, some, [], ◌∷◌, is_some}
use zatca_integration.Common.Int.{ℤ}
use zatca_integration.Text.{Text, is_empty}
use zatca_integration.Errors.{Error, ok}
use zatca_integration.Config.{CsrConfig}
use zatca_integration.Config.Taxpayers.{Taxpayer, or_default, generate_tin}
use zatca_integration.Processor.Onboard.{
  ConfigRow, OnboardState, OnboardResult, OnboardServices, row_of, save_onboard_csr,
}

module _ (sv : OnboardServices) (branch_id : ℤ) (tin computer_number : Text) where
  abbrev row_in : OnboardState → ConfigRow
  row_in s = row_of branch_id s.rows

  -- A CSR was handed to ZATCA, and the row of the branch holds it with the identity of the attempt.
  abbrev pub IsSubmitted : Text → OnboardState → OnboardState → Type 0
  IsSubmitted csr before after =
      (after.submitted ≡ csr ∷ before.submitted)
      × ((row_of branch_id before.rows).compliance_cert ≡ [])
      × ((row_of branch_id after.rows).csr ≡ csr)
      × ((row_of branch_id after.rows).tin ≡ tin)
      × ((row_of branch_id after.rows).computer_number ≡ computer_number)

  -- The answer of ZATCA stands in the row of the branch.
  abbrev pub IsRegistered : Text → ConfigRow → Type 0
  IsRegistered csr row =
      (key : Text) × (r : OnboardResult) × (sv.onboard_with_csr csr key ≡ ok r)
      × (row.compliance_cert ≡ r.compliance_cert)
      × (row.production_username ≡ r.production_cert)
      × (sv.encrypt 1 key ≡ ok row.private_key)
      × (sv.encrypt 3 r.production_secret ≡ ok row.production_password)

  abbrev pub Ends : OnboardState → Error × OnboardState → Type 0
  Ends before (e, after) =
      ((is_some e ≡ true) × (after ≡ before))
      ⊎ ((is_some e ≡ true)
          × ((csr : Text) × IsSubmitted csr before after
              × ((row_of branch_id after.rows).compliance_cert ≡ [])))
      ⊎ ((e ≡ none)
          × ((csr : Text) × IsSubmitted csr before after
              × IsRegistered csr (row_of branch_id after.rows)))

  abbrev saved : CsrConfig → Taxpayer → Text → Text → OnboardState → OnboardState
  saved c t csr sealed s = record {
    rows = save_onboard_csr branch_id c csr sealed t s.rows;
    submitted = csr ∷ s.submitted;
  }

module _ (sv : OnboardServices) (branch_id : ℤ)
    (small : (n : ℕ) → sv.first_random.number ≡ some n → n < 999999999)
    (named : is_empty sv.first_random.uuid ≡ false) where
  -- the identity that an attempt on this row uses
  abbrev pub tin_of : ConfigRow → Text
  tin_of row = or_default row.tin (generate_tin sv.first_random.number)

  abbrev pub number_of : ConfigRow → Text
  number_of row = or_default row.computer_number sv.first_random.uuid

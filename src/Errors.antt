-- ===== src/Errors.antt =====
-- Go error values. An error is the list of the sentinels that errors.Is finds in it; its text is
-- not modelled, except where the code stores it.
use zatca_integration.Common.{ℕ, ◌==◌, Bool, true, false, List, [], ◌∷◌, ◌++◌, any, Option}

-- The sentinels of the queue package. `technical` stands for any other error value.
pub data Sentinel : Type 0 where
  invalid_envelope fingerprint_conflict claim_in_flight claim_not_found claim_stale : Sentinel
  chain_busy chain_conflict rejected_input invoice_rejected outcome_ambiguous technical : Sentinel

-- the place of a sentinel in the list above
abbrev tag : Sentinel → ℕ
tag invalid_envelope = 0
tag fingerprint_conflict = 1
tag claim_in_flight = 2
tag claim_not_found = 3
tag claim_stale = 4
tag chain_busy = 5
tag chain_conflict = 6
tag rejected_input = 7
tag invoice_rejected = 8
tag outcome_ambiguous = 9
tag technical = 10

abbrev pub same : Sentinel → Sentinel → Bool
same a b = tag a == tag b

abbrev pub Failure : Type 0
Failure = List Sentinel

-- errors.Is(err, sentinel)
abbrev pub is : Failure → Sentinel → Bool
is e s = any (same s) e

-- errors.Join(a, b), and fmt.Errorf with two wrapped errors
abbrev pub join : Failure → Failure → Failure
join a b = a ++ b

-- An `error` result: `none` is nil.
abbrev pub Error : Type 0
Error = Option Failure

-- fmt.Errorf("...: %w", err) keeps what errors.Is finds, and "%v" does not
abbrev pub opaque : Failure
opaque = technical ∷ []

abbrev pub only : Sentinel → Failure
only s = s ∷ []

pub data Result {ℓ} (A : Type ℓ) : Type ℓ where
  ok : A → Result A
  err : Failure → Result A

abbrev pub is_ok {ℓ} : {A : Type ℓ} → Result A → Bool
is_ok (ok a) = true
is_ok (err e) = false

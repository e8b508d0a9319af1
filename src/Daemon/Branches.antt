-- ===== src/Daemon/Branches.antt =====
-- queue/onboard.go and cmd/daemon/worker.go: the branches that are served or being onboarded, and the
-- check of an onboarding request. A set of keys is a list; the mutexes make each call one step.
use zatca_integration.Common.{
  ◌≡◌, refl, sym, ap, ◌∙◌, Bool, true, false, not, ◌||◌, none, some, List, [], ◌∷◌, ◌++◌, any,
  length, ltb, if◌then◌else◌, arith,
}
use zatca_integration.Common.Int.{ℤ, is_positive}
use zatca_integration.Text.{Text, codes, text_eq, text_eq_iff, text_eq_refl}
use zatca_integration.Text.Decimal.{format_int}
use zatca_integration.Errors.{Error, only, opaque, invalid_envelope}
use zatca_integration.Queue.Message.{is_blank, valid_identity_text}
use zatca_integration.Queue.Message.Keys.{
  split_last, cancel_left, positive-Lacks, format_int-injective,
}

-- OnboardRequest
pub record OnboardRequest : Type 0 where
  pub db_name : Text
  pub tenant_key : Text
  pub branch_id : ℤ
  pub otp : Text

-- OnboardSubject
unfoldable pub onboard_subject : Text → ℤ → Text
onboard_subject db_name branch_id =
    codes "control.zatca.onboard." ++ (db_name ++ b'.' ∷ format_int branch_id)

-- OnboardWildcard
unfoldable pub onboard_wildcard : Text → Text
onboard_wildcard db_name = codes "control.zatca.onboard." ++ (db_name ++ codes ".*")

-- the checks of DecodeOnboardRequest on a decoded request
unfoldable pub validate_onboard : OnboardRequest → Error
validate_onboard r =
    if not (valid_identity_text r.db_name 64)
    then some (only invalid_envelope)
    else if not (valid_identity_text r.tenant_key 64)
    then some (only invalid_envelope)
    else if not (is_positive r.branch_id)
    then some (only invalid_envelope)
    else if is_blank r.otp || ltb 64 (length r.otp)
    then some (only invalid_envelope)
    else none

-- checkOnboardRequest, for a tenant with this database and key
unfoldable pub check_onboard_request : Text → Text → Text → OnboardRequest → Error
check_onboard_request subject db_name tenant_key r =
    if not (text_eq r.db_name db_name) || not (text_eq r.tenant_key tenant_key)
    then some opaque
    else if not (text_eq subject (onboard_subject r.db_name r.branch_id))
    then some opaque
    else none

-- branchKey
unfoldable pub branch_key : Text → ℤ → Text
branch_key db_name branch_id = db_name ++ b':' ∷ format_int branch_id

abbrev pub Keys : Type 0
Keys = List Text

-- markBranchActive and beginOnboarding: the answer, and the set after the call
unfoldable pub mark_branch : Text → ℤ → Keys → Bool × Keys
mark_branch db_name branch_id keys =
    if any (text_eq (branch_key db_name branch_id)) keys
    then (false, keys)
    else (true, branch_key db_name branch_id ∷ keys)

abbrev without : Text → Keys → Keys
without k [] = []
without k (x ∷ keys) = if text_eq k x then without k keys else x ∷ without k keys

-- unmarkBranchActive and endOnboarding
unfoldable pub unmark_branch : Text → ℤ → Keys → Keys
unmark_branch db_name branch_id keys = without (branch_key db_name branch_id) keys

-- For positive branch ids, a branch key belongs to one branch of one database.
pub branch_key-injective :
    (d e : Text) (a b : ℤ)
    → is_positive a ≡ true
    → is_positive b ≡ true
    → branch_key d a ≡ branch_key e b
    → (d ≡ e) × (a ≡ b)
unfolding branch_key
branch_key-injective d e a b pa pb q =
    let (names, ids) =
      split_last b':' d e (format_int a) (format_int b) (positive-Lacks b':' a (omega arith) pa)
        (positive-Lacks b':' b (omega arith) pb) q in
    (names, format_int-injective a b pa pb ids)

without-any : (k : Text) (keys : Keys) → any (text_eq k) (without k keys) ≡ false
without-any k [] = refl
without-any k (x ∷ keys) = ground (arith, without-any k keys)

-- A branch is marked once: while it is marked a second call is refused and changes nothing, and
-- after it is unmarked the next call succeeds.
pub mark_branch_once :
    (d : Text) (b : ℤ) (keys : Keys)
    → (mark_branch d b (mark_branch d b keys).1 ≡ (false, (mark_branch d b keys).1))
      × ((mark_branch d b (unmark_branch d b keys)).0 ≡ true)
unfolding mark_branch unmark_branch
mark_branch_once d b keys = (
  ground (arith, text_eq_refl (branch_key d b)),
  ground (arith, without-any (branch_key d b) keys),
)

-- the text of OnboardSubject
abbrev pub subject_text : Text → ℤ → Text
subject_text db_name branch_id =
    codes "control.zatca.onboard." ++ (db_name ++ (codes "." ++ format_int branch_id))

check_onboard_sound :
    (subject db_name tenant_key : Text) (r : OnboardRequest)
    → check_onboard_request subject db_name tenant_key r ≡ none
    → (r.db_name ≡ db_name)
      × (r.tenant_key ≡ tenant_key)
      × (subject ≡ subject_text r.db_name r.branch_id)
unfolding check_onboard_request onboard_subject
check_onboard_sound subject db_name tenant_key r h = ground (
  arith,
  text_eq_iff r.db_name db_name,
  text_eq_iff r.tenant_key tenant_key,
  text_eq_iff subject (subject_text r.db_name r.branch_id),
)

subject_text-injective :
    (d : Text) (a b : ℤ)
    → is_positive a ≡ true
    → is_positive b ≡ true
    → subject_text d a ≡ subject_text d b
    → a ≡ b
subject_text-injective d a b pa pb q = format_int-injective a b pa pb (
    cancel_left (codes ".") _ _
      (cancel_left d _ _ (cancel_left (codes "control.zatca.onboard.") _ _ q)))

-- One subject admits the onboarding of one branch only: two requests with positive branch ids that are
-- accepted under one subject, for a tenant with its database and key, are for the same branch of it.
pub check_onboard_one_branch :
    (subject db_name tenant_key : Text) (r q : OnboardRequest)
    → is_positive r.branch_id ≡ true
    → is_positive q.branch_id ≡ true
    → check_onboard_request subject db_name tenant_key r ≡ none
    → check_onboard_request subject db_name tenant_key q ≡ none
    → (r.db_name ≡ db_name)
      × (q.db_name ≡ db_name)
      × (r.tenant_key ≡ q.tenant_key)
      × (r.branch_id ≡ q.branch_id)
check_onboard_one_branch subject db_name tenant_key r q pr pq hr hq =
    let (db_r, key_r, subject_r) = check_onboard_sound subject db_name tenant_key r hr in
    let (db_q, key_q, subject_q) = check_onboard_sound subject db_name tenant_key q hq in
    let same : subject_text db_name r.branch_id ≡ subject_text db_name q.branch_id =
      ap (λ d. subject_text d r.branch_id) (sym db_r)
      ∙ (sym subject_r ∙ (subject_q ∙ ap (λ d. subject_text d q.branch_id) db_q)) in
    (
      db_r,
      db_q,
      key_r ∙ sym key_q,
      subject_text-injective db_name r.branch_id q.branch_id pr pq same,
    )

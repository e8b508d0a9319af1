-- ===== src/Queue/Evidence.antt =====
-- How an outcome's message and its evidence share one column (queue/chain.go), and the texts that
-- an operator may supply (queue/reconcile.go).
use zatca_integration.Common.{
  ℕ, ◌≤◌, ◌≡◌, ◌≢◌, refl, Bool, false, not, ◌||◌, Option, none, some, [], ◌∷◌, ◌++◌, ltb, ◌==◌,
  if◌then◌else◌, All, arith,
}
use mathlib.Core.List.{append_assoc}
use zatca_integration.Text.{Text, codes, is_empty}
use zatca_integration.Text.Utf8.{valid_string, rune_count, every_rune, truncate}
use zatca_integration.Queue.Message.{is_blank, opaque_rune}
use zatca_integration.Queue.Types.{Evidence, unspecified, external, Outcome, is_external}

-- validEvidenceText
unfoldable pub valid_evidence_text : Text → ℕ → Bool
valid_evidence_text s max =
    if ltb max (rune_count s) || not (valid_string s) then false else every_rune opaque_rune s

-- nullString of queue/sql.go
unfoldable pub null_string : Text → ℕ → Option Text
null_string s n = if is_empty s then none else some (truncate s n)

abbrev prefix : Text
prefix = codes "external-evidence:"

-- outcomeMessage
unfoldable pub outcome_message : Outcome → Text
outcome_message o =
    if is_external o.evidence then prefix ++ (o.evidence_id ++ b'|' ∷ o.message) else o.message

-- outcomeLogMessage
unfoldable pub outcome_log_message : Outcome → Option Text → Option Text
outcome_log_message o warning =
    if is_external o.evidence then null_string (outcome_message o) 1024 else warning

-- strings.TrimPrefix after strings.HasPrefix; `none` if the prefix is not there
strip_prefix : Text → Text → Option Text
strip_prefix [] s = some s
strip_prefix (c ∷ p) [] = none
strip_prefix (c ∷ p) (x ∷ s) = if c == x then strip_prefix p s else none

abbrev prepend : ℕ → Option (Text × Text) → Option (Text × Text)
prepend c none = none
prepend c (some (a, b)) = some (c ∷ a, b)

-- strings.SplitN(s, "|", 2); `none` if there is one part only
split_bar : Text → Option (Text × Text)
split_bar [] = none
split_bar (c ∷ s) = let rest = split_bar s in if c == b'|' then some ([], s) else prepend c rest

abbrev on_parts : Text → Option (Text × Text) → Evidence × Text × Text
on_parts message none = (external, [], message)
on_parts message (some (id, rest)) =
    if is_blank id then (external, [], message) else (external, id, rest)

abbrev on_payload : Text → Option Text → Evidence × Text × Text
on_payload message none = (unspecified, [], message)
on_payload message (some payload) = on_parts message (split_bar payload)

-- parseOutcomeEvidence
unfoldable pub parse_outcome_evidence : Text → Evidence × Text × Text
unfolding strip_prefix split_bar
parse_outcome_evidence message = on_payload message (strip_prefix prefix message)

split_bar-append : (a b : Text) → All (λ c. c ≢ b'|') a → split_bar (a ++ b'|' ∷ b) ≡ some (a, b)
unfolding split_bar
split_bar-append [] b h = refl
split_bar-append (c ∷ a) b h = ground (arith, split_bar-append a b h.1)

parse-outcome_message :
    (o : Outcome)
    → o.evidence ≡ external
    → All (λ c. c ≢ b'|') o.evidence_id
    → is_blank o.evidence_id ≡ false
    → parse_outcome_evidence (outcome_message o) ≡ (external, o.evidence_id, o.message)
unfolding parse_outcome_evidence outcome_message
parse-outcome_message o ext bare shown =
    rw (ext, split_bar-append o.evidence_id o.message bare, shown)

-- What a column of n characters stores of the message of external evidence is read back by
-- parseOutcomeEvidence as the same id and message, where the id is not blank and holds no '|', and the
-- message with its prefix and id has at most n characters.
pub parse-null_string :
    (o : Outcome) (n : ℕ)
    → o.evidence ≡ external
    → All (λ c. c ≢ b'|') o.evidence_id
    → is_blank o.evidence_id ≡ false
    → rune_count (outcome_message o) ≤ n
    → (stored : Text) × (null_string (outcome_message o) n ≡ some stored)
      × (parse_outcome_evidence stored ≡ (external, o.evidence_id, o.message))
unfolding null_string truncate rune_count outcome_message
parse-null_string o n ext bare shown fits =
    (outcome_message o, stored, parse-outcome_message o ext bare shown)
  where
    full : is_empty (outcome_message o) ≡ false
    full = rw ext refl

    stored : null_string (outcome_message o) n ≡ some (outcome_message o)
    stored = rw full (ground (arith, fits))

-- An id that holds a '|' behind a part that is not blank is cut there: the rest moves into the
-- message.
pub evidence_id_cut :
    (o : Outcome) (a b : Text)
    → o.evidence ≡ external
    → o.evidence_id ≡ a ++ b'|' ∷ b
    → All (λ c. c ≢ b'|') a
    → is_blank a ≡ false
    → parse_outcome_evidence (outcome_message o) ≡ (external, a, b ++ b'|' ∷ o.message)
unfolding parse_outcome_evidence outcome_message
evidence_id_cut o a b ext id bare shown = rw (
  ext,
  id,
  append_assoc a (b'|' ∷ b) (b'|' ∷ o.message),
  split_bar-append a (b ++ b'|' ∷ o.message) bare,
  shown,
)

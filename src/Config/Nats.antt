-- ===== src/Config/Nats.antt =====
-- config/nats.go: the settings of the daemon's transport. url.Parse is a parameter.
use zatca_integration.Common.{
  ℕ, ◌+◌, ◌≤◌, ◌≡◌, ◌↔◌, ◌⊎◌, Bool, true, false, not, ◌&&◌, ◌||◌, Option, none, some, map, ltb, leb,
  if◌then◌else◌, arith,
}
use zatca_integration.Common.Int.{ℤ, pos, negsuc, is_positive}
use zatca_integration.Text.{Text, codes, text_eq, text_eq_iff, is_empty}
use zatca_integration.Text.Utf8.{trim_space}
use zatca_integration.Errors.{Error, Result, ok, err, opaque}

-- the fields of a parsed URL that Validate reads
pub record Url : Type 0 where
  pub scheme : Text
  pub host : Text

pub record UrlLibrary : Type 0 where
  pub parse : Text → Option Url

-- NATSMode
pub data NatsMode : Type 0 where
  external : NatsMode
  embedded : NatsMode

abbrev lower : ℕ → ℕ
lower c = if leb b'A' c && leb c b'Z' then c + 32 else c

abbrev mode_of : Text → Result NatsMode
mode_of t =
    if text_eq t (codes "external")
    then ok external
    else if text_eq t (codes "embedded")
    then ok embedded
    else err opaque

-- ParseNATSMode. Only ASCII letters are lowered: no other letter has the lower case of one in
-- "external" or "embedded".
unfoldable pub parse_nats_mode : Text → Result NatsMode
parse_nats_mode value = mode_of (map lower (trim_space value))

-- NATSConfig; the durations are in nanoseconds
pub record NatsConfig : Type 0 where
  pub mode : Text
  pub url : Text
  pub port : ℤ
  pub monitor_port : ℤ
  pub data_dir : Text
  pub ack_wait : ℤ
  pub max_deliver : ℤ
  pub reconcile_interval : ℤ

-- `port < 0 || port > 65535`
abbrev outside : ℤ → Bool
outside (pos n) = ltb 65535 n
outside (negsuc n) = true

abbrev bad_url : Option Url → Bool
bad_url none = true
bad_url (some u) =
    not (text_eq u.scheme (codes "nats")) && not (text_eq u.scheme (codes "tls")) || is_empty u.host

-- the checks of Validate after the mode
abbrev pub validate_mode : UrlLibrary → NatsConfig → NatsMode → Error
validate_mode library c external =
    if is_empty (trim_space c.url)
    then some opaque
    else if bad_url (library.parse c.url)
    then some opaque
    else none
validate_mode library c embedded = if is_empty (trim_space c.data_dir) then some opaque else none

abbrev validate_limits : UrlLibrary → NatsConfig → Result NatsMode → Error
validate_limits library c (err e) = some e
validate_limits library c (ok mode) =
    if outside c.port
    then some opaque
    else if outside c.monitor_port
    then some opaque
    else if not (is_positive c.ack_wait)
    then some opaque
    else if not (is_positive c.max_deliver)
    then some opaque
    else if not (is_positive c.reconcile_interval)
    then some opaque
    else validate_mode library c mode

-- NATSConfig.Validate
unfoldable pub validate_nats : UrlLibrary → NatsConfig → Error
validate_nats library c = validate_limits library c (parse_nats_mode c.mode)

abbrev pub IsPort : ℤ → Type 0
IsPort (pos n) = n ≤ 65535
IsPort (negsuc n) = ⊥

abbrev pub IsNatsUrl : Option Url → Type 0
IsNatsUrl none = ⊥
IsNatsUrl (some u) =
    ((u.scheme ≡ codes "nats") ⊎ (u.scheme ≡ codes "tls")) × (is_empty u.host ≡ false)

abbrev pub IsReachable : UrlLibrary → NatsConfig → Result NatsMode → Type 0
IsReachable library c (err e) = ⊥
IsReachable library c (ok external) =
    (is_empty (trim_space c.url) ≡ false) × IsNatsUrl (library.parse c.url)
IsReachable library c (ok embedded) = is_empty (trim_space c.data_dir) ≡ false

-- the settings that Validate is to accept
abbrev pub IsUsable : UrlLibrary → NatsConfig → Type 0
IsUsable library c =
    IsPort c.port
    × IsPort c.monitor_port
    × (is_positive c.ack_wait ≡ true)
    × (is_positive c.max_deliver ≡ true)
    × (is_positive c.reconcile_interval ≡ true)
    × IsReachable library c (parse_nats_mode c.mode)

outside-IsPort : (p : ℤ) → (outside p ≡ false) ↔ IsPort p
outside-IsPort (pos n) = ground arith
outside-IsPort (negsuc n) = ground arith

bad_url-IsNatsUrl : (u : Option Url) → (bad_url u ≡ false) ↔ IsNatsUrl u
bad_url-IsNatsUrl none = ground arith
bad_url-IsNatsUrl (some u) =
    ground (arith, text_eq_iff u.scheme (codes "nats"), text_eq_iff u.scheme (codes "tls"))

validate_limits_iff :
    (library : UrlLibrary) (c : NatsConfig) (mode : Result NatsMode)
    → (validate_limits library c mode ≡ none) ↔ (
        IsPort c.port
        × IsPort c.monitor_port
        × (is_positive c.ack_wait ≡ true)
        × (is_positive c.max_deliver ≡ true)
        × (is_positive c.reconcile_interval ≡ true)
        × IsReachable library c mode)
validate_limits_iff library c (err e) = ground arith
validate_limits_iff library c (ok external) = ground (
  arith,
  outside-IsPort c.port,
  outside-IsPort c.monitor_port,
  bad_url-IsNatsUrl (library.parse c.url),
)
validate_limits_iff library c (ok embedded) =
    ground (arith, outside-IsPort c.port, outside-IsPort c.monitor_port)

-- Validate accepts exactly the usable settings: both ports in range, positive times and deliveries,
-- and for the mode that it parses a nats or tls URL with a host (external) or a data directory
-- (embedded); a text that is no mode is refused.
pub validate_nats_iff :
    (library : UrlLibrary) (c : NatsConfig) → (validate_nats library c ≡ none) ↔ IsUsable library c
unfolding validate_nats
validate_nats_iff library c = validate_limits_iff library c (parse_nats_mode c.mode)

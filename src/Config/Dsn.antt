-- ===== src/Config/Dsn.antt =====
-- dbutil/dsn.go: the data source name of a database. The MySQL driver's FormatDSN and net.JoinHostPort
-- are parameters.
use zatca_integration.Common.{
  ◌≡◌, refl, ◌↔◌, Bool, true, false, not, List, [], ◌∷◌, if◌then◌else◌, arith,
}
use zatca_integration.Text.{Text, codes, is_empty}
use zatca_integration.Errors.{Result, ok, err, opaque}

-- the fields of mysql.Config that the program sets
pub record MysqlConfig : Type 0 where
  pub user : Text
  pub passwd : Text
  pub net : Text
  pub addr : Text
  pub db_name : Text

pub record MysqlLibrary : Type 0 where
  pub join_host_port : Text → Text → Text
  pub format : MysqlConfig → Text

-- the parts of a data source name
pub record Parts : Type 0 where
  pub user : Text
  pub pass : Text
  pub host : Text
  pub port : Text
  pub db_name : Text

-- FormatDSN
unfoldable pub format_dsn : MysqlLibrary → Parts → Text
format_dsn library p = library.format (record {
  user = p.user;
  passwd = p.pass;
  net = codes "tcp";
  addr = library.join_host_port p.host p.port;
  db_name = p.db_name;
})

abbrev note_missing : Text → Text → List Text → List Text
note_missing value name names = if is_empty value then name ∷ names else names

-- the names that ResolveDSN collects
unfoldable pub missing_parts : Parts → List Text
missing_parts p = note_missing p.host (codes "db-host/HOST") (
    note_missing p.port (codes "db-port/PORT") (
      note_missing p.user (codes "db-user/DBUSER")
        (note_missing p.db_name (codes "db-name/DBNAME") [])))

abbrev no_names : List Text → Bool
no_names [] = true
no_names (x ∷ names) = false

-- ResolveDSN
unfoldable pub resolve_dsn : MysqlLibrary → Text → Parts → Result Text
resolve_dsn library dsn p =
    if not (is_empty dsn)
    then ok dsn
    else if no_names (missing_parts p)
    then ok (format_dsn library p)
    else err opaque

abbrev pub IsComplete : Parts → Type 0
IsComplete p =
    (is_empty p.host ≡ false)
    × (is_empty p.port ≡ false)
    × (is_empty p.user ≡ false)
    × (is_empty p.db_name ≡ false)

missing_parts-IsComplete : (p : Parts) → (no_names (missing_parts p) ≡ true) ↔ IsComplete p
unfolding missing_parts
missing_parts-IsComplete p = ground arith

-- An explicit name is returned as it is. Without one, the name built from the parts is returned
-- exactly when host, port, user and database are all given (the password may be empty), and an error
-- otherwise.
pub resolve_dsn_cases :
    (library : MysqlLibrary) (dsn : Text) (p : Parts)
    → ((is_empty dsn ≡ false) → resolve_dsn library dsn p ≡ ok dsn)
      × ((is_empty dsn ≡ true)
          → (resolve_dsn library dsn p ≡ ok (format_dsn library p)) ↔ IsComplete p)
      × ((is_empty dsn ≡ true) → (resolve_dsn library dsn p ≡ err opaque) ↔ ¬ IsComplete p)
unfolding resolve_dsn
resolve_dsn_cases library dsn p = (
  λ h. rw h refl,
  λ h. rw h (ground (arith, missing_parts-IsComplete p)),
  λ h. rw h (ground (arith, missing_parts-IsComplete p)),
)

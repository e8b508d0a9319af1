-- ===== src/Queue/Preflight/Reports.antt =====
-- What the schema check of queue/preflight.go reports.
use zatca_integration.Common.{
  ◌≡◌, refl, sym, ◌∙◌, Bool, true, false, ◌&&◌, ◌||◌, not, Option, none, some, List, [], ◌∷◌, ◌++◌,
  any, all, arith,
}
use zatca_integration.Text.{Text, text_eq}
use zatca_integration.Queue.Preflight.{
  SchemaRequirement, runtime_schema, Columns, is_found, missing_columns, missing_in, Verdict, ready,
  unreadable, missing, verdict, preflight,
}

-- a column as the report names it
abbrev pub column_name : Text → Text → Text
column_name table column = table ++ b'.' ∷ column

abbrev pub table_columns : Text → List Text → Columns
table_columns table [] = []
table_columns table (c ∷ rest) = (table, c) ∷ table_columns table rest

-- every column that a schema asks for, with its table
unfoldable pub required : List SchemaRequirement → Columns
required [] = []
required (r ∷ rest) = table_columns r.table r.columns ++ required rest

abbrev pub present : Columns → Text × Text → Bool
present found (table, column) = is_found found table column

abbrev pub absent_as : Columns → Text → Text × Text → Bool
absent_as found name (table, column) =
    not (is_found found table column) && text_eq name (column_name table column)

abbrev pub Reports : Option Columns → Verdict → Type 0
Reports none v = v ≡ unreadable
Reports (some found) unreadable = ⊥
Reports (some found) ready = all (present found) (required runtime_schema) ≡ true
Reports (some found) (missing names) =
    (all (present found) (required runtime_schema) ≡ false)
    × ((name : Text)
        → any (text_eq name) names ≡ any (absent_as found name) (required runtime_schema))

any-append :
    {A : Type 0} (p : A → Bool) (xs ys : List A) → any p (xs ++ ys) ≡ (any p xs || any p ys)
any-append p [] ys = refl
any-append p (x ∷ xs) ys = ground (arith, any-append p xs ys)

all-append :
    {A : Type 0} (p : A → Bool) (xs ys : List A) → all p (xs ++ ys) ≡ (all p xs && all p ys)
all-append p [] ys = refl
all-append p (x ∷ xs) ys = ground (arith, all-append p xs ys)

missing_columns-names :
    (found : Columns) (table : Text) (columns : List Text) (name : Text)
    → any (text_eq name) (missing_columns found table columns)
      ≡ any (absent_as found name) (table_columns table columns)
unfolding missing_columns
missing_columns-names found table [] name = refl
missing_columns-names found table (c ∷ rest) name =
    ground (arith, missing_columns-names found table rest name)

missing_in-names :
    (found : Columns) (schema : List SchemaRequirement) (name : Text)
    → any (text_eq name) (missing_in found schema) ≡ any (absent_as found name) (required schema)
unfolding missing_in required
missing_in-names found [] name = refl
missing_in-names found (r ∷ rest) name = ground (
  arith,
  any-append (text_eq name) (missing_columns found r.table r.columns) (missing_in found rest),
  any-append (absent_as found name) (table_columns r.table r.columns) (required rest),
  missing_columns-names found r.table r.columns name,
  missing_in-names found rest name,
)

abbrev no_names : List Text → Bool
no_names [] = true
no_names (x ∷ names) = false

no_names-append : (xs ys : List Text) → no_names (xs ++ ys) ≡ (no_names xs && no_names ys)
no_names-append [] ys = refl
no_names-append (x ∷ xs) ys = refl

missing_columns-none :
    (found : Columns) (table : Text) (columns : List Text)
    → no_names (missing_columns found table columns)
      ≡ all (present found) (table_columns table columns)
unfolding missing_columns
missing_columns-none found table [] = refl
missing_columns-none found table (c ∷ rest) = ground (arith, missing_columns-none found table rest)

missing_in-none :
    (found : Columns) (schema : List SchemaRequirement)
    → no_names (missing_in found schema) ≡ all (present found) (required schema)
unfolding missing_in required
missing_in-none found [] = refl
missing_in-none found (r ∷ rest) = ground (
  arith,
  no_names-append (missing_columns found r.table r.columns) (missing_in found rest),
  all-append (present found) (table_columns r.table r.columns) (required rest),
  missing_columns-none found r.table r.columns,
  missing_in-none found rest,
)

-- Preflight answers that the schema is ready exactly when every column that the schema of the
-- statements asks for was read. Otherwise its error names exactly the required columns that were not
-- read, each after its table. A query that fails is reported as such. Sorting is assumed to keep the
-- names of a list.
pub preflight-Reports :
    (sort : List Text → List Text)
    → ((names : List Text) (x : Text) → any (text_eq x) (sort names) ≡ any (text_eq x) names)
    → (query : Option Columns) → Reports query (preflight sort query)
unfolding preflight
preflight-Reports sort keeps none = refl
preflight-Reports sort keeps (some found) =
    at (missing_in found runtime_schema) (missing_in-none found runtime_schema)
      (missing_in-names found runtime_schema)
  where
    at :
        (names : List Text)
        → no_names names ≡ all (present found) (required runtime_schema)
        → ((x : Text) → any (text_eq x) names ≡ any (absent_as found x) (required runtime_schema))
        → Reports (some found) (verdict sort names)
    at [] e h = sym e
    at (n ∷ names) e h = (sym e, λ x. keeps (n ∷ names) x ∙ h x)

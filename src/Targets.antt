-- ===== src/Targets.antt =====
-- packages/targetdb/src: the databases of the customers, as far as the row jobs see them: quoted
-- names, numbered placeholders, the kinds of errors, and moving staged rows into a table. What a
-- database stores in a column is NULL or a value's text.
pub mod Promotion
pub mod Batches
use Prim.Native.Char.{Char, code}
use Prim.Native.String.{◌++◌, [], ◌∷◌}
use task_schedular.Prelude.{
  ℕ, zero, suc, ◌+◌, String, Bool, true, false, ◌&&◌, ◌||◌, Option, none, some, ◌==◌, leb, str_eq,
  if◌then◌else◌,
}
use text.Mathlib.Text.{starts_with}
use task_schedular.Prelude.Act.{Result, ok, err, error}
use task_schedular.Prelude.Show.{show}

-- What a driver reports: Postgres an SQLSTATE, the others a number.
pub record DbError : Type 0 where
  pub code : String
  pub number : ℕ
  pub message : String

pub record Dialect : Type 0 where
  pub open_quote : String
  pub close_quote : String
  pub in_schema : Bool
  pub max_bind_params : ℕ
  pub is_unique_violation : DbError → Bool
  pub is_data_error : DbError → Bool
  pub now : String
  pub cast_text : String → String

abbrev one_of_mssql_data_errors : ℕ → Bool
one_of_mssql_data_errors n =
    n == 245
    || n == 220
    || n == 241
    || n == 515
    || n == 547
    || n == 8114
    || n == 8115
    || n == 8152
    || n == 2628

abbrev one_of_mysql_data_errors : ℕ → Bool
one_of_mysql_data_errors n =
    n == 1048
    || n == 1264
    || n == 1265
    || n == 1292
    || n == 1366
    || n == 1406
    || n == 1452
    || n == 1690
    || n == 3819

abbrev pub postgres : Dialect
postgres = record {
  open_quote = "\"";
  close_quote = "\"";
  in_schema = true;
  max_bind_params = 65535;
  is_unique_violation = λ e. str_eq e.code "23505";
  is_data_error = λ e. starts_with e.code "22" || starts_with e.code "23";
  now = "now()";
  cast_text = λ expr. "(" ++ expr ++ ")::text";
}

abbrev pub sqlserver : Dialect
sqlserver = record {
  open_quote = "[";
  close_quote = "]";
  in_schema = true;
  max_bind_params = 2000;
  is_unique_violation = λ e. e.number == 2627 || e.number == 2601;
  is_data_error = λ e. one_of_mssql_data_errors e.number;
  now = "SYSUTCDATETIME()";
  cast_text = λ expr. "CAST(" ++ expr ++ " AS NVARCHAR(MAX))";
}

abbrev pub mysql : Dialect
mysql = record {
  open_quote = "`";
  close_quote = "`";
  in_schema = false;
  max_bind_params = 65535;
  is_unique_violation = λ e. e.number == 1062;
  is_data_error = λ e. one_of_mysql_data_errors e.number;
  now = "NOW()";
  cast_text = λ expr. "CAST(" ++ expr ++ " AS CHAR)";
}

abbrev between : ℕ → ℕ → ℕ → Bool
between a b n = leb a n && leb n b

abbrev is_start : Char → Bool
is_start c = between b'A' b'Z' (code c) || between b'a' b'z' (code c) || code c == b'_'

abbrev is_part : Char → Bool
is_part c = is_start c || between b'0' b'9' (code c)

abbrev every : (Char → Bool) → String → Bool
every p [] = true
every p (c ∷ s) = p c && every p s

-- /^[A-Za-z_][A-Za-z0-9_]*$/
unfoldable pub is_safe : String → Bool
is_safe [] = false
is_safe (c ∷ s) = is_start c && every is_part s

unfoldable pub assert_safe_ident : String → Result String
unfolding is_safe
assert_safe_ident name =
    if is_safe name then ok name else err (error ("unsafe identifier: " ++ name))

unfoldable pub quoted : Dialect → String → Result String
unfolding assert_safe_ident
quoted d name = elim (assert_safe_ident name) [
  | ok s ↦ ok (d.open_quote ++ (s ++ d.close_quote))
  | err e ↦ err e
]

-- `schema.table`; MySQL is bound to its database and leaves the schema out.
unfoldable pub qualify : Dialect → String → String → Result String
unfolding quoted
qualify d schema name =
    if d.in_schema
    then elim (quoted d schema) [
      | ok s ↦ elim (quoted d name) [ ok t ↦ ok (s ++ ("." ++ t)) | err e ↦ err e ]
      | err e ↦ err e
    ]
    else quoted d name

-- `?` placeholders rewritten to `$1`, `$2`, … or `@p1`, `@p2`, …; `i` were rewritten before.
unfoldable pub number_placeholders : String → ℕ → String → String
number_placeholders sign i [] = []
number_placeholders sign i (c ∷ s) =
    let hit = code c == b'?' in
    let rest = number_placeholders sign (if hit then suc i else i) s in
    if hit then sign ++ (show (suc i) ++ rest) else c ∷ rest

-- ===== src/Rules/Language.antt =====
-- What packages/rule-engine/src takes from the language's values, and its shared test for emptiness.
use task_schedular.Prelude.{String, Bool, true, false, Option, none, some, str_eq}
use task_schedular.Prelude.Act.{Result}
use task_schedular.Contracts.Json.{Json, Fields, null, str}

-- The language: `String(v)`, `Number(v)` (`none` is NaN), `<` on numbers, the length of a text,
-- Number.isInteger, toLowerCase, Date.parse, a regular expression's test (`none` where the pattern is
-- invalid), the value of an expression on a row, the truth of a value, trim and toUpperCase.
pub record Language (Num : Type 0) : Type 0 where
  pub text : Option Json → String
  pub number : Option Json → Option Num
  pub below : Num → Num → Bool
  pub text_length : String → Num
  pub is_integer : Num → Bool
  pub lower : String → String
  pub is_date : String → Bool
  pub matches : String → String → Option Bool
  pub compute : String → Fields → Result (Option Json)
  pub truthy : Option Json → Bool
  pub trim : String → String
  pub upper : String → String

abbrev pub is_empty : Option Json → Bool
is_empty none = true
is_empty (some null) = true
is_empty (some (str s)) = str_eq s ""
is_empty (some v) = false

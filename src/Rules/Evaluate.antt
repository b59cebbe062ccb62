-- ===== src/Rules/Evaluate.antt =====
-- packages/rule-engine/src/evaluate.ts and the rule format of packages/contracts/src/rules.ts.
use task_schedular.Prelude.{
  String, Bool, true, false, not, ◌&&◌, Option, none, some, List, [], ◌∷◌, any, str_eq, or_else,
  if◌then◌else◌,
}
use Prim.Native.String.{◌++◌}
use task_schedular.Prelude.Act.{Result, ok, err}
use task_schedular.Rules.Language.{Language, is_empty}
use task_schedular.Rules.Transforms.{Transform, apply_transforms}
use task_schedular.Contracts.Common.{truthy_text}
use task_schedular.Contracts.Json.{Json, Fields, get_field}

pub data RuleType : Type 0 where
  required regex range length_rule enum type_rule unique lookup compare_rule expression : RuleType

pub data Cast : Type 0 where
  string_cast number_cast integer_cast boolean_cast date_cast : Cast

pub record Rule (Num : Type 0) : Type 0 where
  pub field : String
  pub type : RuleType
  pub pattern : Option String
  pub min : Option Num
  pub max : Option Num
  pub values : Option (List Json)
  pub entity : Option String
  pub cast : Option Cast
  pub op : Option String
  pub other : Option String
  pub expr : Option String
  pub message : Option String

pub record RowError : Type 0 where
  pub field : String
  pub rule : String
  pub message : String

pub record EvalResult : Type 0 where
  pub valid : Bool
  pub errors : List RowError
  pub value : Fields

abbrev pub rule_name : RuleType → String
rule_name required = "required"
rule_name regex = "regex"
rule_name range = "range"
rule_name length_rule = "length"
rule_name enum = "enum"
rule_name type_rule = "type"
rule_name unique = "unique"
rule_name lookup = "lookup"
rule_name compare_rule = "compare"
rule_name expression = "expression"

abbrev pub no_errors : List RowError → Bool
no_errors [] = true
no_errors (e ∷ es) = false

module _ {Num : Type 0} (js : Language Num) where
  unfoldable pub default_message : Rule Num → String
  default_message r = or_else r.message ("failed " ++ (rule_name r.type ++ (" on " ++ r.field)))

  abbrev pub failure : Rule Num → RowError
  failure r = record { field = r.field; rule = rule_name r.type; message = default_message r }

  -- `ok ? null : fail()`
  abbrev pub unless : Rule Num → Bool → Option RowError
  unless r good = if good then none else some (failure r)

  abbrev pub in_bounds : Rule Num → Num → Bool
  in_bounds r n =
      elim r.min [ none ↦ true | some m ↦ not (js.below n m) ]
      && elim r.max [ none ↦ true | some m ↦ not (js.below m n) ]

  unfoldable pub check_pattern : Rule Num → Option Json → Option RowError
  check_pattern r v = elim r.pattern [
    | none ↦ some (failure r)
    | some p ↦ if str_eq p "" then some (failure r) else elim (js.matches p (js.text v)) [
      | none ↦
          some
            (record { field = r.field; rule = "regex"; message = "invalid regex pattern: " ++ p })
      | some good ↦ unless r good
    ]
  ]

  unfoldable pub check_cast : Rule Num → Option Json → Option RowError
  check_cast r v = elim r.cast [
    | some integer_cast ↦ unless r (elim (js.number v) [ none ↦ false | some n ↦ js.is_integer n ])
    | some number_cast ↦ unless r (elim (js.number v) [ none ↦ false | some n ↦ true ])
    | some boolean_cast ↦
        unless r (any (str_eq (js.lower (js.text v))) ("true" ∷ "false" ∷ "0" ∷ "1" ∷ []))
    | some date_cast ↦ unless r (js.is_date (js.text v))
    | _ ↦ none
  ]

  -- A numeric comparison, false unless both sides are numbers
  abbrev pub numeric : Option Json → Option Json → (Num → Num → Bool) → Bool
  numeric v w test = elim (js.number v) [
    | none ↦ false
    | some a ↦ elim (js.number w) [ none ↦ false | some b ↦ test a b ]
  ]

  unfoldable pub compares : String → Option Json → Option Json → Bool
  compares op v w =
      if str_eq op "eq"
      then str_eq (js.text v) (js.text w)
      else if str_eq op "ne"
      then not (str_eq (js.text v) (js.text w))
      else if str_eq op "lt"
      then numeric v w js.below
      else if str_eq op "lte"
      then numeric v w (λ a b. not (js.below b a))
      else if str_eq op "gt"
      then numeric v w (λ a b. js.below b a)
      else if str_eq op "gte"
      then numeric v w (λ a b. not (js.below a b))
      else false

  unfoldable pub check_compare : Rule Num → Fields → Option Json → Option RowError
  check_compare r row v = elim r.other [
    | none ↦ none
    | some o ↦
        if str_eq o "" then none else unless r (compares (or_else r.op "eq") v (get_field o row))
  ]

  unfoldable pub check_expression : Rule Num → Fields → Option RowError
  check_expression r row = elim r.expr [
    | none ↦ some (failure r)
    | some e ↦
        if str_eq e ""
        then some (failure r)
        else elim (js.compute e row) [ ok v ↦ unless r (js.truthy v) | err t ↦ some (failure r) ]
  ]

  -- A value that is there.
  unfoldable pub check_value : RuleType → Rule Num → Fields → Option Json → Option RowError
  check_value required r row v = none
  check_value regex r row v = check_pattern r v
  check_value range r row v =
      unless r (elim (js.number v) [ none ↦ false | some n ↦ in_bounds r n ])
  check_value length_rule r row v = unless r (in_bounds r (js.text_length (js.text v)))
  check_value enum r row v = unless r (elim r.values [
    | none ↦ false
    | some vs ↦ any (λ w. str_eq (js.text (some w)) (js.text v)) vs
  ])
  check_value type_rule r row v = check_cast r v
  check_value unique r row v = none
  check_value lookup r row v = none
  check_value compare_rule r row v = check_compare r row v
  check_value expression r row v = check_expression r row

  abbrev pub missing : RuleType → Rule Num → Option RowError
  missing required r = some (failure r)
  missing _ r = none

  -- `checkRule`: an empty value fails `required` and passes all else.
  unfoldable pub check_rule : Rule Num → Fields → Option RowError
  check_rule r row =
      let v = get_field r.field row in
      if is_empty v then missing r.type r else check_value r.type r row v

  unfoldable pub check_rules : List (Rule Num) → Fields → List RowError
  unfolding check_rule
  check_rules [] row = []
  check_rules (r ∷ rs) row =
      let rest = check_rules rs row in elim (check_rule r row) [ none ↦ rest | some e ↦ e ∷ rest ]

  -- `evaluateRow`: transforms first, then the rules. A transform may throw.
  unfoldable pub evaluate_row : List Transform → List (Rule Num) → Fields → Result EvalResult
  evaluate_row transforms rules input = elim (apply_transforms js transforms input) [
    | err t ↦ err t
    | ok value ↦ ok (record {
      valid = no_errors (check_rules rules value);
      errors = check_rules rules value;
      value = value;
    })
  ]

pub record StatefulRules : Type 0 where
  pub unique_fields : List String
  pub lookups : List (String × String)

abbrev pub add_stateful : {Num : Type 0} → Rule Num → StatefulRules → StatefulRules
add_stateful r s = elim r.type [
  | unique ↦ record s { unique_fields = r.field ∷ s.unique_fields }
  | lookup ↦ elim (truthy_text r.entity) [
    | none ↦ s
    | some e ↦ record s { lookups = (r.field, e) ∷ s.lookups }
  ]
  | _ ↦ s
]

-- `extractStatefulRules`, in the order of the rules
unfoldable pub extract_stateful_rules : {Num : Type 0} → List (Rule Num) → StatefulRules
extract_stateful_rules [] = record { unique_fields = []; lookups = [] }
extract_stateful_rules (r ∷ rs) = add_stateful r (extract_stateful_rules rs)

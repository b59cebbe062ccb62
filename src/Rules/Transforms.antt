-- ===== src/Rules/Transforms.antt =====
-- packages/rule-engine/src/transforms.ts: the transforms of a row, in order. What `dateFormat` makes
-- of a text in a format is an argument.
use task_schedular.Prelude.{String, Option, none, some, List, [], ◌∷◌, str_eq, if◌then◌else◌}
use task_schedular.Prelude.Act.{Result, ok, err}
use task_schedular.Contracts.Common.{truthy_text}
use task_schedular.Contracts.Json.{Json, Fields, str, end, field, get_field, set_field}
use task_schedular.Rules.Language.{Language, is_empty}

pub data TransformOp : Type 0 where
  trim upper lower map_values default computed : TransformOp
  date_format : (reformat : String → String → Option String) → TransformOp

pub record Transform : Type 0 where
  pub field : String
  pub op : TransformOp
  pub from : Option String
  pub to : Option String
  pub values : Option Fields
  pub value : Option Json
  pub expr : Option String

unfoldable pub remove_field : String → Fields → Fields
remove_field k end = end
remove_field k (field j v o) = if str_eq j k then o else field j v (remove_field k o)

-- `out[k] = v`; a field that is `undefined` is an absent one.
abbrev pub assign : String → Option Json → Fields → Fields
assign k none o = remove_field k o
assign k (some v) o = set_field k v o

-- A change of a value that is a text
abbrev pub on_text : String → (String → Option String) → Option Json → Fields → Fields
on_text k f (some (str s)) o = elim (f s) [ none ↦ o | some t ↦ set_field k (str t) o ]
on_text k f v o = o

module _ {Num : Type 0} (js : Language Num) where
  unfoldable pub map_value : Transform → Option Json → Fields → Fields
  map_value t v o = elim t.values [
    | none ↦ o
    | some m ↦ elim (get_field (js.text v) m) [ none ↦ o | some w ↦ set_field t.field w o ]
  ]

  unfoldable pub compute_field : Transform → Fields → Result Fields
  compute_field t o = elim (truthy_text t.expr) [
    | none ↦ ok o
    | some e ↦ elim (js.compute e o) [ ok v ↦ ok (assign t.field v o) | err x ↦ err x ]
  ]

  unfoldable pub format_date :
      (String → String → Option String) → Transform → Option Json → Fields → Fields
  format_date reformat t v o = elim (truthy_text t.from) [
    | none ↦ o
    | some from ↦ elim t.to [
      | none ↦ o
      | some to ↦
          if str_eq to "iso" then on_text t.field (λ s. truthy_text (reformat s from)) v o else o
    ]
  ]

  unfoldable pub apply_transform : Fields → Transform → Result Fields
  apply_transform row t =
      let v = get_field t.field row in
      elim t.op [
        | trim ↦ ok (on_text t.field (λ s. some (js.trim s)) v row)
        | upper ↦ ok (on_text t.field (λ s. some (js.upper s)) v row)
        | lower ↦ ok (on_text t.field (λ s. some (js.lower s)) v row)
        | date_format reformat ↦ ok (format_date reformat t v row)
        | map_values ↦ ok (map_value t v row)
        | default ↦ ok (if is_empty v then assign t.field t.value row else row)
        | computed ↦ compute_field t row
      ]

  unfoldable pub apply_transforms : List Transform → Fields → Result Fields
  unfolding apply_transform
  apply_transforms [] row = ok row
  apply_transforms (t ∷ ts) row = elim (apply_transform row t) [
    | ok next ↦ apply_transforms ts next
    | err x ↦ err x
  ]

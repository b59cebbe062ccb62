-- ===== src/Gateway/Jobs/Retries.antt =====
-- What a retry clones.
use task_schedular.Prelude.{
  String, Bool, false, none, some, List, [], ◌∷◌, ◌≡◌, refl, ap, ◌∙◌, arith, str_eq, eq_refl,
  eq_iff, or_else,
}
use mathlib.Core.Option
use task_schedular.Prelude.Act.{ok}
use task_schedular.Contracts.Json.{Json, Fields, end, field, obj, get_field, set_field, spread}
use task_schedular.Store.{Home, Job, job_at}
use task_schedular.Enqueue.{EnqueueInput, Fresh, Statement, job_row, mapping_json}
use task_schedular.Gateway.Jobs.{
  Gateway, conflict, GateCall, Around, is_terminal, text_fields, fields_of, retry_input,
  retry_found, retry_job,
}

get_field-set_field : (k : String) (v : Json) (o : Fields) → get_field k (set_field k v o) ≡ some v
unfolding get_field set_field
get_field-set_field k v end = ground (arith, eq_refl k)
get_field-set_field k v (field j w o) = ground (arith, eq_refl k, get_field-set_field k v o)

get_field-set_field_other :
    (k l : String) (v : Json) (o : Fields)
    → str_eq l k ≡ false
    → get_field k (set_field l v o) ≡ get_field k o
unfolding get_field set_field
get_field-set_field_other k l v end e = ground arith
get_field-set_field_other k l v (field j w o) e =
    ground (arith, get_field-set_field_other k l v o e, eq_iff j l, eq_iff j k, eq_iff l k)

text_fields-mapping_json : (m : List (String × String)) → text_fields (mapping_json m) ≡ m
text_fields-mapping_json [] = refl
text_fields-mapping_json ((k, v) ∷ m) = ap (λ r. (k, v) ∷ r) (text_fields-mapping_json m)

get_field-spread_two :
    (k l : String) (v w : Json) (o : Fields)
    → str_eq l k ≡ false
    → let all = spread o (field k v (field l w end)) in
      (get_field k all ≡ some v) × (get_field l all ≡ some w)
unfolding spread
get_field-spread_two k l v w o e = (
  get_field-set_field_other k l w (set_field k v o) e ∙ get_field-set_field k v o,
  get_field-set_field l w (set_field k v o),
)

-- The input of a retry repeats the input that the job was enqueued with, as enqueueJob stored it:
-- project, entity, type, source, destination, rule set, priority, mapping and options, with the
-- defaults filled in.
pub retry_input-job_row :
    (a : Around) (id : String) (input : EnqueueInput) (f : Fresh) (home : Home)
    → let again = retry_input a id (job_row input f home) in
      (again.project_id ≡ input.project_id)
      × (again.entity ≡ input.entity)
      × (again.type ≡ input.type)
      × (again.source ≡ some (or_else input.source end))
      × (again.destination ≡ some (or_else input.destination end))
      × (again.rule_set_id ≡ input.rule_set_id)
      × (again.priority ≡ some (or_else input.priority 5))
      × (again.mapping ≡ some (or_else input.mapping []))
      × (again.options ≡ some (or_else input.options end))
unfolding retry_input
retry_input-job_row a id input f home =
    let (options, mapping) =
      get_field-spread_two "options" "mapping" (obj (or_else input.options end))
        (obj (mapping_json (or_else input.mapping []))) (or_else input.parameters end) refl in
    (
      refl,
      refl,
      refl,
      refl,
      refl,
      refl,
      refl,
      ap (λ o. Option.map text_fields (fields_of o)) mapping
          ∙ ap some (text_fields-mapping_json (or_else input.mapping [])),
      ap fields_of options,
    )

-- A retry of a job that is not in a terminal state is refused and changes nothing.
pub retry_job-not_terminal :
    (a : Around) (f : Fresh) (read_fails : Bool) (fails : Statement → Bool) (id : String) (j : Job)
    (g : Gateway)
    → a.fails GateCall.read_job ≡ false
    → job_at none id g.process.db ≡ some j
    → is_terminal j.status ≡ false
    → retry_job a f read_fails fails id g ≡ (ok (conflict (some j.status)), g)
unfolding retry_job retry_found
retry_job-not_terminal a f read_fails fails id j g e at t = rw (e, at, t) refl

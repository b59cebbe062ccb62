-- ===== src/Worker.antt =====
-- packages/worker-runtime/src/context.ts: what a handler works with, read from the control plane. The
-- connection of a project is taken as its id, its schema and its allow-list, since the other columns
-- only go to the drivers of the target databases.
pub mod Own
use task_schedular.Prelude.{
  String, Bool, ◌&&◌, not, Option, none, some, List, [], str_eq, find, or_else, if◌then◌else◌,
}
use Prim.Native.String.{◌++◌ as append}
use task_schedular.Prelude.Act.{Result, ok, err, error}
use task_schedular.Contracts.Common.{JobType, webhook, truthy_text}
use task_schedular.Contracts.Json.{Json}
use task_schedular.Contracts.Envelope.{JobEnvelope}
use task_schedular.Store.{Home, Job, Db, job_at}

-- A row of `projects`
pub record Connection : Type 0 where
  pub id : String
  pub deleted : Bool
  pub schema : Option String
  pub allowlist_hosts : List String

-- A row of `project_entities`
pub record EntityRow : Type 0 where
  pub project_id : String
  pub name : String
  pub target_table : String
  pub primary_key : String
  pub mapping : Option (List (String × String))
  pub rule_set_id : Option String

pub record Catalog : Type 0 where
  pub connections : List Connection
  pub entities : List EntityRow
  pub rule_sets : List (String × Json)

pub record EntityConfig : Type 0 where
  pub name : String
  pub target_table : String
  pub primary_key : String
  pub mapping : List (String × String)
  pub rule_set_id : Option String

pub record JobContext (RuleSet : Type 0) : Type 0 where
  pub envelope : JobEnvelope
  pub job : Job
  pub project : Connection
  pub entity : EntityConfig
  pub rule_set : RuleSet

-- WHERE id=$1 AND deleted_at IS NULL
abbrev pub is_connection : String → Connection → Bool
is_connection id c = str_eq c.id id && not c.deleted

-- WHERE project_id=$1 AND name=$2
abbrev pub is_entity : String → String → EntityRow → Bool
is_entity project name e = str_eq e.project_id project && str_eq e.name name

abbrev pub is_rule_set : String → String × Json → Bool
is_rule_set id (key, rules) = str_eq key id

abbrev pub is_entityless : JobType → Bool
is_entityless t = elim t [ webhook ↦ Bool.true | _ ↦ Bool.false ]

abbrev pub config_of : EntityRow → EntityConfig
config_of e = record {
  name = e.name;
  target_table = e.target_table;
  primary_key = e.primary_key;
  mapping = or_else e.mapping [];
  rule_set_id = e.rule_set_id;
}

abbrev pub entity_stub : String → EntityConfig
entity_stub name = record {
  name = name;
  target_table = "";
  primary_key = "";
  mapping = [];
  rule_set_id = none;
}

-- `no_rules` is the rule set without rules, and `parse_rules` is RuleSetSchema.parse.
module _ {RuleSet : Type 0} (no_rules : RuleSet) (parse_rules : String → Json → Result RuleSet)
    (env : JobEnvelope) (cat : Catalog) where
  abbrev pub stored_rules : String → Option (String × Json) → Result RuleSet
  stored_rules id none = ok no_rules
  stored_rules id (some (key, rules)) = parse_rules id rules

  -- An empty id of a rule set counts as none.
  unfoldable pub rules_of : Option String → Result RuleSet
  rules_of id = elim (truthy_text id) [
    | none ↦ ok no_rules
    | some i ↦ stored_rules i (find (is_rule_set i) cat.rule_sets)
  ]

  abbrev pub with_rules :
      Job → Connection → EntityConfig → Result RuleSet → Result (JobContext RuleSet)
  with_rules j c e (err x) = err x
  with_rules j c e (ok rules) =
      ok (record { envelope = env; job = j; project = c; entity = e; rule_set = rules })

  abbrev pub with_entity : Job → Connection → Option EntityRow → Result (JobContext RuleSet)
  with_entity j c none = err (
      error
        (append "entity '" (append j.entity (append "' not configured for project " j.project_id))))
  with_entity j c (some e) = with_rules j c (config_of e) (rules_of e.rule_set_id)

  abbrev pub with_connection : Job → Option Connection → Result (JobContext RuleSet)
  with_connection j none = err (error (append "project " (append j.project_id " not found")))
  with_connection j (some c) =
      if is_entityless j.type
      then with_rules j c (entity_stub j.entity) (ok no_rules)
      else with_entity j c (find (is_entity j.project_id j.entity) cat.entities)

  abbrev pub with_job : Option Job → Result (JobContext RuleSet)
  with_job none = err (error (append "job " (append env.job_id " not found")))
  with_job (some j) = with_connection j (find (is_connection j.project_id) cat.connections)

  unfoldable pub resolve_context : Home → Db → Result (JobContext RuleSet)
  unfolding rules_of
  resolve_context home db = with_job (job_at home env.job_id db)

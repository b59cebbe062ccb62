-- ===== src/Gateway/Entities.antt =====
-- services/gateway-api/src/repos/entities.ts and the route of routes/entities.ts that stores an entity.
-- The validated body is an argument (`none` where the schema refuses it), and so is which statements
-- fail. The routes that list tables and columns ask the target database, and are not modelled.
pub mod Resolved
use task_schedular.Prelude.{
  String, Bool, true, false, not, ◌&&◌, Option, none, some, List, [], ◌∷◌, any, find, keep, str_eq,
  update_where, or_else, if◌then◌else◌,
}
use task_schedular.Prelude.Act.{
  Act, Result, ok, err, error, pure, throw, modify, and_then, ◌>>=◌, ◌>>◌,
}
use task_schedular.Worker.{Connection, EntityRow, Catalog, is_connection, is_entity}
use task_schedular.Gateway.Jobs.{Audit}

pub record EntityBody : Type 0 where
  pub name : String
  pub target_table : String
  pub primary_key : String
  pub mapping : List (String × String)
  pub rule_set_id : Option String

pub data EntityReply : Type 0 where
  project_not_found invalid_body no_mapping : EntityReply
  created : EntityRow → EntityReply

pub data EntityCall : Type 0 where
  read_project upsert insert_audit : EntityCall

pub record Site : Type 0 where
  pub catalog : Catalog
  pub audits : List Audit

-- COALESCE(a, b)
abbrev pub coalesce : Option String → Option String → Option String
coalesce none b = b
coalesce (some a) b = some a

abbrev pub new_entity : String → EntityBody → EntityRow
new_entity project b = record {
  project_id = project;
  name = b.name;
  target_table = b.target_table;
  primary_key = b.primary_key;
  mapping = some b.mapping;
  rule_set_id = b.rule_set_id;
}

-- DO UPDATE SET: a rule set that is attached stays where the body names none.
abbrev pub merged : EntityBody → EntityRow → EntityRow
merged b e = record e {
  target_table = b.target_table;
  primary_key = b.primary_key;
  mapping = some b.mapping;
  rule_set_id = coalesce b.rule_set_id e.rule_set_id;
}

-- INSERT … ON CONFLICT (project_id, name)
unfoldable pub upsert_entity : String → EntityBody → List EntityRow → List EntityRow
upsert_entity project b es =
    if any (is_entity project b.name) es
    then update_where (is_entity project b.name) (merged b) es
    else new_entity project b ∷ es

-- RETURNING
unfoldable pub upserted : String → EntityBody → List EntityRow → EntityRow
upserted project b es = elim (find (is_entity project b.name) es) [
  | none ↦ new_entity project b
  | some e ↦ merged b e
]

module _ (fails : EntityCall → Bool) (actor : String) where
  abbrev pub statement {ℓ} : {A : Type ℓ} → EntityCall → Act Site A → Act Site A
  statement q body s = if fails q then (err (error "query failed"), s) else body s

  abbrev pub is_empty_mapping : List (String × String) → Bool
  is_empty_mapping [] = true
  is_empty_mapping (x ∷ xs) = false

  unfoldable pub store_entity : String → EntityBody → Act Site EntityRow
  unfolding upsert_entity upserted
  store_entity project b = statement upsert λ s. (
    ok (upserted project b s.catalog.entities),
    record s {
      catalog = record s.catalog { entities = upsert_entity project b s.catalog.entities };
    },
  )

  unfoldable pub audit_upsert : Act Site (Unit {0})
  audit_upsert = statement insert_audit (
      modify λ s. record s {
        audits = record { actor = actor; action = "entity.upsert"; job_id = none } ∷ s.audits;
      })

  abbrev pub with_body : String → Option EntityBody → Act Site EntityReply
  with_body project none = pure invalid_body
  with_body project (some b) =
      if is_empty_mapping b.mapping
      then pure no_mapping
      else (do e ← store_entity project b; audit_upsert; pure (created e))

  -- POST /projects/:id/entities
  unfoldable pub post_entity : String → Option EntityBody → Act Site EntityReply
  unfolding store_entity audit_upsert
  post_entity project body =
      statement read_project (λ s. (ok (any (is_connection project) s.catalog.connections), s))
      >>= λ known. if known then with_body project body else pure project_not_found

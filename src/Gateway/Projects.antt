-- ===== src/Gateway/Projects.antt =====
-- services/gateway-api/src/repos/projects.ts and the routes of routes/projects.ts that read or write
-- projects. A project's row has the columns that a body may set as a JSON object, and the rest by
-- name. A secret stands as its ciphertext with the key's id, which is an argument, and so are which statements fail and what other
-- requests and the provisioner do to the table between the statements of a promotion.
pub mod Tiers
use task_schedular.Prelude.{
  ℕ, String, Bool, true, false, not, ◌&&◌, Option, none, some, List, [], ◌∷◌, find, keep, any,
  update_where, map, str_eq, if◌then◌else◌,
}
use task_schedular.Prelude.Act.{
  Act, Result, Thrown, error, ok, err, pure, throw, modify, and_then, ◌>>=◌, ◌>>◌,
}
use task_schedular.Contracts.Common.{IsolationMode, shared, dedicated}
use task_schedular.Contracts.Json.{
  Json, Fields, end, str, num, null, arr, nil, obj, get_field, set_field, or_default,
}

pub data ContainerState : Type 0 where
  absent provisioning running stopping stopped broken : ContainerState

pub record ProjectRow : Type 0 where
  pub id : String
  pub columns : Fields
  pub secret_ciphertext : String
  pub secret_key_id : String
  pub isolation_mode : IsolationMode
  pub db_schema : Option String
  pub container_state : ContainerState
  pub is_deleted : Bool

-- What the API shows of a project: the secret is masked.
pub record ProjectView : Type 0 where
  pub id : String
  pub columns : Fields
  pub secret_masked : String
  pub isolation_mode : IsolationMode
  pub db_schema : Option String
  pub container_state : ContainerState

-- The columns of a body's keys
abbrev pub patchable : List (String × String)
patchable =
    ("name", "name")
    ∷ ("description", "description")
    ∷ ("environment", "environment")
    ∷ ("status", "status")
    ∷ ("host", "host")
    ∷ ("port", "port")
    ∷ ("database", "database")
    ∷ ("schema", "schema")
    ∷ ("username", "username")
    ∷ ("sslMode", "ssl_mode")
    ∷ ("poolMax", "pool_max")
    ∷ ("queryTimeoutS", "query_timeout_s")
    ∷ ("maxRows", "max_rows")
    ∷ ("concurrencyLimit", "concurrency_limit")
    ∷ ("allowlistHosts", "allowlist_hosts")
    ∷ []

-- The columns of an INSERT; an UPDATE leaves the provider as it is.
abbrev pub insertable : List (String × String)
insertable = ("provider", "provider") ∷ patchable

-- SET column = patch[key], for the keys that the body has
unfoldable pub patched : List (String × String) → Fields → Fields → Fields
patched [] patch columns = columns
patched ((key, column) ∷ more) patch columns =
    patched more patch
      (elim (get_field key patch) [ none ↦ columns | some v ↦ set_field column v columns ])

-- The columns of a new project with the code's defaults, and `options`
unfoldable pub with_options : Fields → Fields → Fields
with_options patch columns = elim (get_field "options" patch) [
  | none ↦ columns
  | some v ↦ set_field "options_jsonb" v columns
]

abbrev pub defaults : Fields
defaults = set_field "description" null (
    set_field "schema" null (
      set_field "ssl_mode" (str "prefer") (
        set_field "options_jsonb" (obj end) (
          set_field "pool_max" (num 5) (
            set_field "query_timeout_s" (num 30) (
              set_field "max_rows" (num 5000000) (
                set_field "concurrency_limit" (num 4) (
                  set_field "allowlist_hosts" (arr nil)
                    (set_field "status" (str "active") end)))))))))

pub data Statement : Type 0 where
  select_project insert_project update_row delete_row provision_ddl record_schema set_mode :
      Statement

pub data ProjectReply : Type 0 where
  invalid_body not_found no_content : ProjectReply
  created view : ProjectView → ProjectReply

abbrev pub Projects : Type 0
Projects = List (ProjectRow)

unfoldable pub to_view : ProjectRow → ProjectView
to_view r = record {
  id = r.id;
  columns = r.columns;
  secret_masked = "••••••••";
  isolation_mode = r.isolation_mode;
  db_schema = r.db_schema;
  container_state = r.container_state;
}

-- WHERE id = $1 AND deleted_at IS NULL
abbrev pub at_project : String → ProjectRow → Bool
at_project id r = str_eq r.id id && not r.is_deleted

abbrev pub updated : String → (ProjectRow → ProjectRow) → Projects → Projects
updated id f ps = update_where (at_project id) f ps

abbrev pub with_secret : Option (String × String) → ProjectRow → ProjectRow
with_secret none r = r
with_secret (some (cipher, key)) r = record r { secret_ciphertext = cipher; secret_key_id = key }

-- The changes of an UPDATE: a patch, a soft delete, a schema
abbrev pub edited : Fields → Option (String × String) → ProjectRow → ProjectRow
edited patch secret r =
    with_secret secret
      (record r { columns = with_options patch (patched patchable patch r.columns) })

abbrev pub closed : ProjectRow → ProjectRow
closed r = record r { columns = set_field "status" (str "disabled") r.columns; is_deleted = true }

abbrev pub homed : String → ProjectRow → ProjectRow
homed schema r = record r { db_schema = some schema }

abbrev pub as_mode : IsolationMode → ProjectRow → ProjectRow
as_mode dedicated r = record r { isolation_mode = dedicated; container_state = provisioning }
as_mode shared r = record r { isolation_mode = shared; container_state = stopping }

abbrev pub shown : Option (ProjectRow) → ProjectReply
shown none = not_found
shown (some r) = view (to_view r)

module _ (fails : Statement → Bool) where
  abbrev pub query : {A : Type 0} → Statement → Act Projects A → Act Projects A
  query s body ps = if fails s then (err (error "query failed"), ps) else body ps

  abbrev pub get_project : String → Act Projects (Option (ProjectRow))
  get_project id = query select_project λ ps. (ok (find (at_project id) ps), ps)

  -- createProject, with the encrypted secret; the columns of the body over the defaults
  unfoldable pub create_project : String → Fields → String × String → Act Projects ProjectReply
  create_project id body (cipher, key) = query insert_project λ ps.
      let r : ProjectRow = record {
        id = id;
        columns = with_options body (patched insertable body defaults);
        secret_ciphertext = cipher;
        secret_key_id = key;
        isolation_mode = shared;
        db_schema = none;
        container_state = absent;
        is_deleted = false;
      } in
      (ok (created (to_view r)), r ∷ ps)

  -- updateProject: the body's columns, and the secret if there is a new one
  unfoldable pub update_project :
      String → Fields → Option (String × String) → Act Projects ProjectReply
  update_project id patch secret = query update_row λ ps.
      let next = updated id (edited patch secret) ps in
      (ok (shown (find (at_project id) next)), next)

  unfoldable pub soft_delete_project : String → Act Projects ProjectReply
  soft_delete_project id = query delete_row λ ps.
      let hit = any (at_project id) ps in
      let next = updated id closed ps in (ok (if hit then no_content else not_found), next)

  -- provisionProjectSchema: the DDL, then the schema's name on the project's row
  unfoldable pub provision_schema : String → String → Act Projects (Unit {0})
  provision_schema schema id =
      query provision_ddl (pure tt)
      >> query record_schema (modify (update_where (λ r. str_eq r.id id) (homed schema)))

  unfoldable pub set_project_isolation : String → IsolationMode → Act Projects ProjectReply
  set_project_isolation id mode = query set_mode λ ps.
      let next = updated id (as_mode mode) ps in (ok (shown (find (at_project id) next)), next)

  -- What follows once the project is found; `meanwhile` is what others do to the table before the mode
  -- is set.
  unfoldable pub dedicate :
      (Projects → Projects) → String → Result String → Act Projects ProjectReply
  unfolding provision_schema set_project_isolation
  dedicate meanwhile id (err e) = throw e
  dedicate meanwhile id (ok schema) =
      provision_schema schema id >> (modify meanwhile >> set_project_isolation id dedicated)

  unfoldable pub change_tier :
      (String → Result String)
      → (Projects → Projects)
      → String
      → IsolationMode
      → Act Projects ProjectReply
  unfolding dedicate
  change_tier schema_for meanwhile id shared = modify meanwhile >> set_project_isolation id shared
  change_tier schema_for meanwhile id dedicated = dedicate meanwhile id (schema_for id)

  -- POST /projects/:id/isolation
  unfoldable pub set_isolation :
      (String → Result String)
      → (Projects → Projects)
      → String
      → IsolationMode
      → Act Projects ProjectReply
  unfolding change_tier
  set_isolation schema_for meanwhile id mode = do
    existing ← get_project id
    elim existing [ none ↦ pure not_found | some _ ↦ change_tier schema_for meanwhile id mode ]

-- ===== src/Worker/Own.antt =====
-- Whose connection and entity a handler gets.
use task_schedular.Prelude.{
  String, Bool, true, false, Option, none, some, List, [], ◌∷◌, eq_iff, find, In, ◌≡◌, ◌⊎◌, inl,
  inr, refl, sym, ap, ◌∙◌, subst, arith, Bool-cases, Option-cases,
}
use task_schedular.Prelude.Act.{Result, ok, err}
use task_schedular.Contracts.Json.{Json}
use task_schedular.Contracts.Envelope.{JobEnvelope}
use task_schedular.Store.{Home, Job, Db, job_at}
use task_schedular.Worker.{
  Connection, EntityRow, Catalog, JobContext, EntityConfig, config_of, entity_stub, is_connection,
  is_entity, is_entityless, with_rules, with_connection, resolve_context, rules_of,
}

pub find_sound {ℓ} :
    {A : Type ℓ} (p : A → Bool) (xs : List A) {a : A} → find p xs ≡ some a → p a ≡ true
find_sound p [] h = cc
find_sound p (x ∷ xs) h = grind (arith, find_sound p xs)

some-injective : {A : Type 0} {a b : A} → some a ≡ some b → a ≡ b
some-injective h = cc

find-In : {A : Type 0} (p : A → Bool) (xs : List A) {a : A} → find p xs ≡ some a → In a xs
find-In p [] h = cc
find-In p (x ∷ xs) h = elim (Bool-cases (p x)) [
  | inl yes_here ↦ inl (some-injective (rw yes_here at h))
  | inr not_here ↦ inr (find-In p xs (rw not_here at h))
]

-- The entity of a job: a stub for a type without entities, and else a stored row, of the job's project
-- and under the job's name.
abbrev pub EntityOf : Catalog → Job → EntityConfig → Type 0
EntityOf cat j config =
    (is_entityless j.type ≡ true) × (config ≡ entity_stub j.entity)
    ⊎ ((e : EntityRow) × In e cat.entities
        × (e.project_id ≡ j.project_id)
        × (e.name ≡ j.entity)
        × (config ≡ config_of e))

-- The context of a job is made of its own row, of its project's row, and of its entity there.
pub record IsOwn {RuleSet : Type 0} (home : Home) (id : String) (db : Db) (cat : Catalog)
    (c : JobContext RuleSet) : Type 0 where
  pub own_job : job_at home id db ≡ some c.job
  pub stored_project : In c.project cat.connections
  pub own_project : c.project.id ≡ c.job.project_id
  pub not_deleted : c.project.deleted ≡ false
  pub own_entity : EntityOf cat c.job c.entity

is_connection-parts :
    (id : String) (p : Connection) → is_connection id p ≡ true → (p.id ≡ id) × (p.deleted ≡ false)
is_connection-parts id p h = ground (arith, eq_iff p.id id)

pub is_entity-parts :
    (project name : String) (e : EntityRow)
    → is_entity project name e ≡ true
    → (e.project_id ≡ project) × (e.name ≡ name)
is_entity-parts project name e h = ground (arith, eq_iff e.project_id project, eq_iff e.name name)

module _ {RuleSet : Type 0} (no_rules : RuleSet) (parse_rules : String → Json → Result RuleSet)
    (env : JobEnvelope) (cat : Catalog) where
  pub with_rules-parts :
      (j : Job) (p : Connection) (e : EntityConfig) (r : Result RuleSet) (c : JobContext RuleSet)
      → with_rules no_rules parse_rules env cat j p e r ≡ ok c
      → (c.job ≡ j) × (c.project ≡ p) × (c.entity ≡ e)
  with_rules-parts j p e (err x) c h = cc
  with_rules-parts j p e (ok rules) c h = ground arith

  parts-IsOwn :
      (home : Home) (db : Db) (j : Job) (p : Connection) (c : JobContext RuleSet)
      → job_at home env.job_id db ≡ some j
      → c.job ≡ j
      → c.project ≡ p
      → In p cat.connections
      → is_connection j.project_id p ≡ true
      → EntityOf cat j c.entity
      → IsOwn home env.job_id db cat c
  parts-IsOwn home db j p c found ej ep there own entity =
      let (same_id, alive) = is_connection-parts j.project_id p own in
      record {
        own_job = found ∙ sym (ap some ej);
        stored_project = subst (λ q. In q cat.connections) (sym ep) there;
        own_project = ap (λ q. q.id) ep ∙ same_id ∙ sym (ap (λ k. k.project_id) ej);
        not_deleted = ap (λ q. q.deleted) ep ∙ alive;
        own_entity = subst (λ k. EntityOf cat k c.entity) (sym ej) entity;
      }

  with_connection-IsOwn :
      (home : Home) (db : Db) (j : Job) (o : Option Connection) (c : JobContext RuleSet)
      → job_at home env.job_id db ≡ some j
      → ((p : Connection)
          → o ≡ some p
          → In p cat.connections × (is_connection j.project_id p ≡ true))
      → with_connection no_rules parse_rules env cat j o ≡ ok c
      → IsOwn home env.job_id db cat c
  with_connection-IsOwn home db j none c found own h = cc
  with_connection-IsOwn home db j (some p) c found own h =
      elim (Bool-cases (is_entityless j.type)) [
        | inl stub ↦
            let (ej, ep, ee) =
              with_rules-parts j p (entity_stub j.entity) (ok no_rules) c
                (rw (stub, with_connection) at h) in
            parts-IsOwn home db j p c found ej ep (own p refl).0 (own p refl).1 (inl (stub, ee))
        | inr full ↦ elim (Option-cases (find (is_entity j.project_id j.entity) cat.entities)) [
          | inl missing ↦ cc (rw (full, missing) at h)
          | inr (e, at) ↦
              let (ej, ep, ee) =
                with_rules-parts j p (config_of e)
                  (rules_of no_rules parse_rules env cat e.rule_set_id) c (rw (full, at) at h) in
              let (own_row, named) =
                is_entity-parts j.project_id j.entity e
                  (find_sound (is_entity j.project_id j.entity) cat.entities at) in
              parts-IsOwn home db j p c found ej ep (own p refl).0 (own p refl).1 (
                inr (
                  e,
                  find-In (is_entity j.project_id j.entity) cat.entities at,
                  own_row,
                  named,
                  ee,
                ))
        ]
      ]

  -- A context that is resolved is made of the row of its job, a stored row of that job's project, which
  -- is not deleted, and a stored row of the job's entity in that project; a type without entities gets a
  -- stub.
  pub resolve_context-IsOwn :
      (home : Home) (db : Db) (c : JobContext RuleSet)
      → resolve_context no_rules parse_rules env cat home db ≡ ok c
      → IsOwn home env.job_id db cat c
  unfolding resolve_context
  resolve_context-IsOwn home db c h = elim (Option-cases (job_at home env.job_id db)) [
    | inl missing ↦ cc (rw (missing, resolve_context) at h)
    | inr (j, found) ↦
        with_connection-IsOwn home db j (find (is_connection j.project_id) cat.connections) c found
          (λ p e. (
            find-In (is_connection j.project_id) cat.connections e,
            find_sound (is_connection j.project_id) cat.connections e,
          ))
          (rw (found, resolve_context) at h)
  ]

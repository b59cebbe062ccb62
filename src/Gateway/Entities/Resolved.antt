-- ===== src/Gateway/Entities/Resolved.antt =====
-- An entity that was stored, as a worker sees it.
use task_schedular.Prelude.{
  String, Bool, true, false, Option, none, some, List, [], ◌∷◌, any, find, eq_refl, update_where,
  ◌≡◌, refl, sym, ap, arith, Bool-cases, Option-cases, inl, inr,
}
use task_schedular.Prelude.Act.{Result, ok}
use task_schedular.Contracts.Json.{Json}
use task_schedular.Contracts.Envelope.{JobEnvelope}
use task_schedular.Store.{Home, Job, Db, job_at}
use task_schedular.Worker.{
  Connection, EntityRow, EntityConfig, config_of, is_connection, is_entity, is_entityless,
  resolve_context, rules_of, with_rules,
}
use task_schedular.Worker.Own.{find_sound, is_entity-parts}
use task_schedular.Gateway.Entities.{
  EntityBody, EntityReply, EntityCall, Site, created, coalesce, merged, upsert_entity, upserted,
  store_entity, audit_upsert, post_entity,
}

find_updated :
    (project : String) (b : EntityBody) (es : List EntityRow)
    → find (is_entity project b.name) (update_where (is_entity project b.name) (merged b) es)
      ≡ elim (find (is_entity project b.name) es) [ none ↦ none | some e ↦ some (merged b e) ]
find_updated project b [] = refl
find_updated project b (e ∷ es) = elim (Bool-cases (is_entity project b.name e)) [
  | inl same_key ↦ rw (same_key, same_key)
  | inr other ↦ rw (other, other) (find_updated project b es)
]

find-none {ℓ} : {A : Type ℓ} (p : A → Bool) (xs : List A) → any p xs ≡ false → find p xs ≡ none
find-none p [] h = refl
find-none p (x ∷ xs) h = ground (arith, find-none p xs)

find-some {ℓ} :
    {A : Type ℓ} (p : A → Bool) (xs : List A) → any p xs ≡ true → (a : A) × (find p xs ≡ some a)
find-some p [] h = cc
find-some p (x ∷ xs) h = elim (Bool-cases (p x)) [
  | inl here ↦ (x, rw here)
  | inr later ↦ let (a, e) = find-some p xs (rw later at h) in (a, rw later e)
]

find-upsert_entity :
    (project : String) (b : EntityBody) (es : List EntityRow)
    → find (is_entity project b.name) (upsert_entity project b es) ≡ some (upserted project b es)
unfolding upsert_entity upserted
find-upsert_entity project b es = elim (Bool-cases (any (is_entity project b.name) es)) [
  | inl old ↦
      let (e, found) = find-some (is_entity project b.name) es old in
      rw (old, find_updated project b es, found, upserted)
  | inr new ↦
      rw (
        new,
        eq_refl project,
        eq_refl b.name,
        upserted,
        find-none (is_entity project b.name) es new,
      )
]

-- The configuration that the body asks for; the rule set is the previous one if the body names none.
abbrev pub config_for : EntityBody → Option EntityRow → EntityConfig
config_for b before = record {
  name = b.name;
  target_table = b.target_table;
  primary_key = b.primary_key;
  mapping = b.mapping;
  rule_set_id = coalesce b.rule_set_id (elim before [ none ↦ none | some e ↦ e.rule_set_id ]);
}

coalesce-none : (a : Option String) → coalesce a none ≡ a
coalesce-none none = refl
coalesce-none (some a) = refl

config_of-upserted :
    (project : String) (b : EntityBody) (es : List EntityRow)
    → config_of (upserted project b es) ≡ config_for b (find (is_entity project b.name) es)
unfolding upserted
config_of-upserted project b es = elim (Option-cases (find (is_entity project b.name) es)) [
  | inl new ↦
      rw (new, upserted)
        (ap (λ r. record (config_for b none) { rule_set_id = r })
          (sym (coalesce-none b.rule_set_id)))
  | inr (e, found) ↦
      let (_, named) =
        is_entity-parts project b.name e (find_sound (is_entity project b.name) es found) in
      rw (found, upserted) (ap (λ n. record (config_for b (some e)) { name = n }) named)
]

module _ (fails : EntityCall → Bool) (actor project : String) (b : EntityBody) (s : Site) where
  abbrev posted : Result EntityReply × Site
  posted = post_entity fails actor project (some b) s

  post_entity-catalog :
      (e : EntityRow)
      → posted.0 ≡ ok (created e)
      → posted.1.catalog
        ≡ record s.catalog { entities = upsert_entity project b s.catalog.entities }
  unfolding post_entity store_entity audit_upsert
  post_entity-catalog e h = ground (arith, h)

  -- A worker that resolves a job of a project gets, behind a request that stored the entity of the job
  -- there, the target table, the primary key and the mapping of the request, and the rule set that the
  -- request names or else the one that was attached before.
  pub post_entity-resolve_context :
      {RuleSet : Type 0} (no_rules : RuleSet) (parse_rules : String → Json → Result RuleSet)
      (env : JobEnvelope) (home : Home) (db : Db) (e : EntityRow) (j : Job) (p : Connection)
      → posted.0 ≡ ok (created e)
      → job_at home env.job_id db ≡ some j
      → is_entityless j.type ≡ false
      → j.project_id ≡ project
      → j.entity ≡ b.name
      → find (is_connection project) s.catalog.connections ≡ some p
      → let config = config_for b (find (is_entity project b.name) s.catalog.entities) in
        resolve_context no_rules parse_rules env posted.1.catalog home db
        ≡ with_rules no_rules parse_rules env posted.1.catalog j p config
            (rules_of no_rules parse_rules env posted.1.catalog config.rule_set_id)
  unfolding resolve_context
  post_entity-resolve_context no_rules parse_rules env home db e j p stored found full own named
        open_project =
      let es = s.catalog.entities in
      rw
        (
          found,
          own,
          named,
          post_entity-catalog e stored,
          open_project,
          full,
          find-upsert_entity project b es,
          config_of-upserted project b es,
        )
        (rw (ap (λ q. q.rule_set_id) (config_of-upserted project b es)))

-- ===== src/Gateway/Definitions/Accepted.antt =====
-- What is stored of an accepted job definition.
use task_schedular.Prelude.{
  ℕ, String, Option, none, some, ◌∷◌, ◌≡◌, refl, ap, sym, ◌∙◌, subst, Bool-cases, ◌⊎◌, inl, inr,
  arith,
}
use task_schedular.Prelude.Act.{Result, ok, err}
use task_schedular.Contracts.Common.{truthy_text}
use task_schedular.Store.{JobDefinition, ScheduleKind, cron, one_time, recurring}
use task_schedular.Gateway.Jobs.{Gateway, Around, insert_definition, insert_audit}
use task_schedular.Gateway.Definitions.{
  DefinitionBody, Resolved, DefinitionReply, created, resolve, from_cron, first_run, definition_of,
  store_definition, create_timed, create_resolved, create_definition,
}

-- The definition that a reply reports
abbrev reported : JobDefinition → Result DefinitionReply → JobDefinition
reported d (ok (created e)) = e
reported d _ = d

module _ (next : String → String → Result ℕ) (date_of : String → ℕ) where
  -- The definition runs once, or its next run is what the cron library gives for its cron text.
  abbrev pub Timed : JobDefinition → Type 0
  Timed d =
      (d.schedule_kind ≡ one_time)
      ⊎ (from_cron next date_of (truthy_text d.cron) d.timezone ≡ ok d.next_run_at)

  definition_of-Timed :
      (id : String) (b : DefinitionBody) (s : Resolved) (t : Option ℕ)
      → first_run next date_of s ≡ ok t
      → Timed (definition_of next date_of id b s t)
  unfolding first_run definition_of
  definition_of-Timed id b s t h = go s.schedule_kind refl
    where
      go : (k : ScheduleKind) → s.schedule_kind ≡ k → Timed (definition_of next date_of id b s t)
      go one_time e = inl e
      go cron e = inr (rw⁻¹ h (rw (first_run, e) refl))
      go recurring e = inr (rw⁻¹ h (rw (first_run, e) refl))

  module _ (a : Around) where
    store_definition-stored :
        (d e : JobDefinition) (g : Gateway)
        → (store_definition next date_of a d g).0 ≡ ok (created e)
        → (d ≡ e)
          × ((store_definition next date_of a d g).1.process.db.definitions
              ≡ d ∷ g.process.db.definitions)
    unfolding store_definition
    store_definition-stored d e g h = elim (Bool-cases (a.fails insert_definition)) [
      | inl x ↦ ground (arith, x)
      | inr x ↦ elim (Bool-cases (a.fails insert_audit)) [
        | inl y ↦ ground (arith, x, y)
        | inr y ↦
            let shown : (store_definition next date_of a d g).0 ≡ ok (created d) =
              rw (store_definition, x, y) refl in
            let same : d ≡ e = ap (reported d) (sym shown ∙ h) in
            (same, rw (store_definition, x, y) refl)
      ]
    ]

    create_timed-Timed :
        (id : String) (b : DefinitionBody) (s : Resolved) (o : Result (Option ℕ)) (g : Gateway)
        (d : JobDefinition)
        → first_run next date_of s ≡ o
        → (create_timed next date_of a id b s o g).0 ≡ ok (created d)
        → ((create_timed next date_of a id b s o g).1.process.db.definitions
            ≡ d ∷ g.process.db.definitions)
          × Timed d
    unfolding create_timed
    create_timed-Timed id b s (err e) g d f h = ground arith
    create_timed-Timed id b s (ok t) g d f h =
        let made = definition_of next date_of id b s t in
        let (same, stored) = store_definition-stored made d g h in
        (
          stored ∙ ap (λ x. x ∷ g.process.db.definitions) same,
          subst Timed same (definition_of-Timed id b s t f),
        )

    create_resolved-Timed :
        (id : String) (b : DefinitionBody) (o : Result Resolved) (g : Gateway) (d : JobDefinition)
        → (create_resolved next date_of a id b o g).0 ≡ ok (created d)
        → ((create_resolved next date_of a id b o g).1.process.db.definitions
            ≡ d ∷ g.process.db.definitions)
          × Timed d
    unfolding create_resolved
    create_resolved-Timed id b (err e) g d h = ground arith
    create_resolved-Timed id b (ok s) g d h =
        create_timed-Timed id b s (first_run next date_of s) g d refl h

    -- A definition that is reported as created is stored before the others, and it runs once or its
    -- next run is the occurrence that the cron library gives: a bad cron text is never stored.
    pub create_definition-Timed :
        (id : String) (body : Option DefinitionBody) (g : Gateway) (d : JobDefinition)
        → (create_definition next date_of a id body g).0 ≡ ok (created d)
        → ((create_definition next date_of a id body g).1.process.db.definitions
            ≡ d ∷ g.process.db.definitions)
          × Timed d
    unfolding create_definition
    create_definition-Timed id none g d h = ground arith
    create_definition-Timed id (some b) g d h = create_resolved-Timed id b (resolve b) g d h

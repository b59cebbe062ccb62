-- ===== src/Gateway/Projects/Tiers.antt =====
-- A dedicated project has a schema of its own.
use task_schedular.Prelude.{
  String, Bool, true, false, Option, none, some, [], ◌∷◌, find, update_where, str_eq, ◌≡◌, refl,
  ◌⊎◌, inl, inr, arith, All, Bool-cases, Option-cases, not, ◌||◌, if◌then◌else◌,
}
use task_schedular.Prelude.Act.{Result, ok, err, modify, and_then, ◌>>◌}
use task_schedular.Contracts.Common.{IsolationMode, shared, dedicated}
use task_schedular.Contracts.Json.{Fields}
use task_schedular.Gateway.Projects.{
  ProjectRow, Projects, Statement, select_project, insert_project, update_row, delete_row,
  provision_ddl, record_schema, set_mode, at_project, updated, edited, closed, homed, as_mode,
  create_project, update_project, soft_delete_project, provision_schema, set_project_isolation,
  dedicate, change_tier, set_isolation,
}

abbrev has_schema : ProjectRow → Bool
has_schema r = elim r.db_schema [ none ↦ false | some s ↦ true ]

abbrev is_tiered : ProjectRow → Bool
is_tiered r = elim r.isolation_mode [ shared ↦ true | dedicated ↦ has_schema r ]

-- Every dedicated project has a schema.
abbrev pub IsTiered : Projects → Type 0
IsTiered ps = All (λ r. is_tiered r ≡ true) ps

-- The project of that id, if it is there, has a schema.
abbrev pub IsHomed : String → Projects → Type 0
IsHomed id ps = All (λ r. not (str_eq r.id id) || has_schema r ≡ true) ps

updated-IsTiered :
    (id : String) (f : ProjectRow → ProjectRow) (ps : Projects)
    → ((r : ProjectRow) → is_tiered r ≡ true → is_tiered (f r) ≡ true)
    → IsTiered ps
    → IsTiered (updated id f ps)
updated-IsTiered id f [] k h = tt
updated-IsTiered id f (r ∷ ps) k h = (ground (arith, k r h.0, h.0), updated-IsTiered id f ps k h.1)

edited-tiered :
    (patch : Fields) (secret : Option (String × String)) (r : ProjectRow)
    → is_tiered r ≡ true
    → is_tiered (edited patch secret r) ≡ true
edited-tiered patch none r h = h
edited-tiered patch (some s) r h = h

homed-IsTiered :
    (schema id : String) (ps : Projects)
    → IsTiered ps
    → IsTiered (update_where (λ r. str_eq r.id id) (homed schema) ps)
homed-IsTiered schema id [] h = tt
homed-IsTiered schema id (r ∷ ps) h = (homed_row r h.0, homed-IsTiered schema id ps h.1)
  where
    homed_row :
        (r : ProjectRow)
        → is_tiered r ≡ true
        → is_tiered (if str_eq r.id id then homed schema r else r) ≡ true
    homed_row r h = ground arith

homed-IsHomed :
    (schema id : String) (ps : Projects)
    → IsHomed id (update_where (λ r. str_eq r.id id) (homed schema) ps)
homed-IsHomed schema id [] = tt
homed-IsHomed schema id (r ∷ ps) = (ground arith, homed-IsHomed schema id ps)

dedicated-IsTiered :
    (id : String) (ps : Projects)
    → IsHomed id ps
    → IsTiered ps
    → IsTiered (updated id (as_mode dedicated) ps)
dedicated-IsTiered id [] k h = tt
dedicated-IsTiered id (r ∷ ps) k h = (ground (arith, k.0, h.0), dedicated-IsTiered id ps k.1 h.1)

module _ (fails : Statement → Bool) where
  pub create_project-IsTiered :
      (id : String) (body : Fields) (secret : String × String) (ps : Projects)
      → IsTiered ps
      → IsTiered (create_project fails id body secret ps).1
  unfolding create_project
  create_project-IsTiered id body secret ps h = elim (Bool-cases (fails insert_project)) [
    | inl e ↦ rw e h
    | inr e ↦ rw e (refl, h)
  ]

  pub update_project-IsTiered :
      (id : String) (patch : Fields) (secret : Option (String × String)) (ps : Projects)
      → IsTiered ps
      → IsTiered (update_project fails id patch secret ps).1
  unfolding update_project
  update_project-IsTiered id patch secret ps h = elim (Bool-cases (fails update_row)) [
    | inl e ↦ rw e h
    | inr e ↦ rw e (updated-IsTiered id (edited patch secret) ps (edited-tiered patch secret) h)
  ]

  pub soft_delete_project-IsTiered :
      (id : String) (ps : Projects) → IsTiered ps → IsTiered (soft_delete_project fails id ps).1
  unfolding soft_delete_project
  soft_delete_project-IsTiered id ps h = elim (Bool-cases (fails delete_row)) [
    | inl e ↦ rw e h
    | inr e ↦ rw e (updated-IsTiered id closed ps (λ r k. k) h)
  ]

  set_mode-IsTiered :
      (id : String) (mode : IsolationMode) (ps : Projects)
      → IsHomed id ps ⊎ (mode ≡ shared)
      → IsTiered ps
      → IsTiered (set_project_isolation fails id mode ps).1
  unfolding set_project_isolation
  set_mode-IsTiered id shared ps k h = elim (Bool-cases (fails set_mode)) [
    | inl e ↦ rw e h
    | inr e ↦ rw e (updated-IsTiered id (as_mode shared) ps (λ r q. refl) h)
  ]
  set_mode-IsTiered id dedicated ps (inl k) h = elim (Bool-cases (fails set_mode)) [
    | inl e ↦ rw e h
    | inr e ↦ rw e (dedicated-IsTiered id ps k h)
  ]
  set_mode-IsTiered id dedicated ps (inr e) h = ground arith

  provision_schema-IsTiered :
      (schema id : String) (ps : Projects)
      → IsTiered ps
      → IsTiered (provision_schema fails schema id ps).1
  unfolding provision_schema
  provision_schema-IsTiered schema id ps h = elim (Bool-cases (fails provision_ddl)) [
    | inl e ↦ rw e h
    | inr e ↦ rw e (elim (Bool-cases (fails record_schema)) [
      | inl f ↦ rw f h
      | inr f ↦ rw f (homed-IsTiered schema id ps h)
    ])
  ]

  provision_schema-IsHomed :
      (schema id : String) (ps : Projects)
      → (provision_schema fails schema id ps).0 ≡ ok tt
      → IsHomed id (provision_schema fails schema id ps).1
  unfolding provision_schema
  provision_schema-IsHomed schema id ps h = elim (Bool-cases (fails provision_ddl)) [
    | inl e ↦ ground (arith, e)
    | inr e ↦ elim (Bool-cases (fails record_schema)) [
      | inl f ↦ ground (arith, e, f)
      | inr f ↦ rw (e, f) (homed-IsHomed schema id ps)
    ]
  ]

  module _ (schema_for : String → Result String) (meanwhile : Projects → Projects)
      (keeps : (id : String) (ps : Projects)
        → IsHomed id ps
        → IsTiered ps
        → IsHomed id (meanwhile ps) × IsTiered (meanwhile ps))
      (keeps_tiers : (ps : Projects) → IsTiered ps → IsTiered (meanwhile ps)) where
    dedicate-IsTiered :
        (id : String) (schema : Result String) (ps : Projects)
        → IsTiered ps
        → IsTiered (dedicate fails meanwhile id schema ps).1
    unfolding dedicate
    dedicate-IsTiered id (err e) ps h = h
    dedicate-IsTiered id (ok schema) ps h =
        after (provision_schema fails schema id ps).0 (provision_schema fails schema id ps).1
          (provision_schema-IsHomed schema id ps) (provision_schema-IsTiered schema id ps h)
      where
        after :
            (r : Result (Unit {0})) (qs : Projects)
            → (r ≡ ok tt → IsHomed id qs)
            → IsTiered qs
            → IsTiered
                (and_then r
                  (λ _. modify meanwhile >> set_project_isolation fails id dedicated)
                  qs).1
        after (err e) qs k t = t
        after (ok a) qs k t =
            let (home, tiers) = keeps id qs (k refl) t in
            set_mode-IsTiered id dedicated (meanwhile qs) (inl home) tiers

    change_tier-IsTiered :
        (id : String) (mode : IsolationMode) (ps : Projects)
        → IsTiered ps
        → IsTiered (change_tier fails schema_for meanwhile id mode ps).1
    unfolding change_tier
    change_tier-IsTiered id shared ps h =
        set_mode-IsTiered id shared (meanwhile ps) (inr refl) (keeps_tiers ps h)
    change_tier-IsTiered id dedicated ps h = dedicate-IsTiered id (schema_for id) ps h

    -- A promotion or demotion leaves every dedicated project with a schema, whichever statements fail,
    -- if what others do to the table in between keeps that and takes no schema away.
    pub set_isolation-IsTiered :
        (id : String) (mode : IsolationMode) (ps : Projects)
        → IsTiered ps
        → IsTiered (set_isolation fails schema_for meanwhile id mode ps).1
    unfolding set_isolation
    set_isolation-IsTiered id mode ps h = elim (Bool-cases (fails select_project)) [
      | inl e ↦ rw e h
      | inr e ↦ elim (Option-cases (find (at_project id) ps)) [
        | inl f ↦ rw (e, f) h
        | inr (r, f) ↦ rw (e, f) (change_tier-IsTiered id mode ps h)
      ]
    ]

-- ===== src/Provisioner/Results.antt =====
-- What one pass reports, project by project, whatever fails for the others.
use task_schedular.Prelude.{
  String, Bool, true, false, Option, none, some, List, [], ◌∷◌, ◌++◌, append_assoc, append-nil,
  keep, any, str_eq, not, if◌then◌else◌, ◌||◌, ◌≡◌, refl, sym, ◌∙◌, ap, arith, map, subst,
  Bool-cases, inl, inr, ◌⊎◌,
}
use task_schedular.Prelude.Act.{Result, ok, err, error, Act, and_then}
use task_schedular.Provisioner.{
  ManagedContainer, provisioning, running, stopping, stopped, set_state_call, ready_call,
  create_call, remove_call, Deps, ReconcileResult, Fleet, distinct_ids, of_project, healthy, failed,
  provision, ensure, ensure_all, tear_down, retire, retire_all, reconcile_once, both_loops,
  desired_call, list_call, no_result,
}

-- After an action that does not throw, the next one runs on its state.
runs_on :
    (r : Result (Unit {0}) × Fleet) (n : Act Fleet (Unit {0}))
    → r.0 ≡ ok tt
    → and_then r.0 (λ _. n) r.1 ≡ n r.1
runs_on (ok a, s) n e = refl
runs_on (err e', s) n e = ground arith

module _ (deps : Deps) where
  abbrev stale_fails : Option ManagedContainer → Bool
  stale_fails none = false
  stale_fails (some c) = deps.fails (remove_call c.id)

  -- Some call that provisioning the project makes fails.
  abbrev pub provision_fails : List ManagedContainer → String → Bool
  provision_fails actual p =
      stale_fails (of_project p actual)
      || (deps.fails (set_state_call p provisioning)
          || (deps.fails (ready_call p)
              || (deps.fails (create_call p) || deps.fails (set_state_call p running))))

  abbrev pub tear_down_fails : ManagedContainer → Bool
  tear_down_fails c =
      deps.fails (set_state_call c.project_id stopping)
      || (deps.fails (remove_call c.id) || deps.fails (set_state_call c.project_id stopped))

  -- The projects that a pass must act on, and the containers that it must remove.
  abbrev pub wanting : List ManagedContainer → List String → List String
  wanting actual = keep (λ p. not (healthy deps (of_project p actual)))

  abbrev pub surplus : List String → List ManagedContainer → List ManagedContainer
  surplus desired = keep (λ c. not (any (str_eq c.project_id) desired))

  abbrev with_created : List String → List String → ReconcileResult → ReconcileResult
  with_created done bad r = record r { created = r.created ++ done; errors = r.errors ++ bad }

  abbrev with_removed : List String → List String → ReconcileResult → ReconcileResult
  with_removed done bad r = record r { removed = r.removed ++ done; errors = r.errors ++ bad }

  ensure-result :
      (actual : List ManagedContainer) (p : String) (s : Fleet)
      → ((ensure deps actual p s).0 ≡ ok tt)
        × ((ensure deps actual p s).1.result ≡ (
            if healthy deps (of_project p actual)
            then s.result
            else if provision_fails actual p
            then with_created [] (p ∷ []) s.result
            else with_created (p ∷ []) [] s.result))
  unfolding ensure provision failed
  ensure-result actual p s = ground (arith, append-nil s.result.created, append-nil s.result.errors)

  retire-result :
      (desired : List String) (c : ManagedContainer) (s : Fleet)
      → ((retire deps desired c s).0 ≡ ok tt)
        × ((retire deps desired c s).1.result ≡ (
            if any (str_eq c.project_id) desired
            then s.result
            else if tear_down_fails c
            then with_removed [] (c.project_id ∷ []) s.result
            else with_removed (c.project_id ∷ []) [] s.result))
  unfolding retire tear_down failed
  retire-result desired c s =
      ground (arith, append-nil s.result.removed, append-nil s.result.errors)

  -- One project's entry before those of the projects behind it, for either loop.
  created_step :
      (h : Bool) (bad : String → Bool) (p : String) (w : List String) (r : ReconcileResult)
      → with_created (keep (λ q. not (bad q)) w) (keep bad w) (
          if h then r else if bad p then with_created [] (p ∷ []) r else with_created (p ∷ []) [] r)
        ≡ with_created
            (keep (λ q. not (bad q)) (if not h then p ∷ w else w))
            (keep bad (if not h then p ∷ w else w))
            r
  created_step true bad p w r = refl
  created_step false bad p w r = elim (Bool-cases (bad p)) [
    | inl e ↦
        rw e (ground (arith, append_assoc r.errors (p ∷ []) (keep bad w), append-nil r.created))
    | inr e ↦ rw e (
        ground
          (arith, append_assoc r.created (p ∷ []) (keep (λ q. not (bad q)) w), append-nil r.errors))
  ]

  -- The report of the first loop over these projects, behind what was reported before.
  abbrev ensured : List ManagedContainer → List String → ReconcileResult → ReconcileResult
  ensured actual ps =
      with_created (keep (λ p. not (provision_fails actual p)) (wanting actual ps))
        (keep (provision_fails actual) (wanting actual ps))

  ensure_all-result :
      (actual : List ManagedContainer) (ps : List String) (s : Fleet)
      → ((ensure_all deps actual ps s).0 ≡ ok tt)
        × ((ensure_all deps actual ps s).1.result ≡ ensured actual ps s.result)
  unfolding ensure_all
  ensure_all-result actual [] s =
      ground (arith, append-nil s.result.created, append-nil s.result.errors)
  ensure_all-result actual (p ∷ ps) s =
      let (done, now) = ensure-result actual p s in
      let (done', rest) = ensure_all-result actual ps (ensure deps actual p s).1 in
      subst (λ t. (t.0 ≡ ok tt) × (t.1.result ≡ ensured actual (p ∷ ps) s.result))
        (sym (runs_on (ensure deps actual p s) (ensure_all deps actual ps) done))
        (
          done',
          rest
              ∙ (ap (ensured actual ps) now
                  ∙ created_step (healthy deps (of_project p actual)) (provision_fails actual) p
                      (wanting actual ps) s.result),
        )

  removed_step :
      (h : Bool) (c : ManagedContainer) (w : List ManagedContainer) (r : ReconcileResult)
      → with_removed
          (map (λ d. d.project_id) (keep (λ d. not (tear_down_fails d)) w))
          (map (λ d. d.project_id) (keep tear_down_fails w))
          (if h
            then r
            else if tear_down_fails c
            then with_removed [] (c.project_id ∷ []) r
            else with_removed (c.project_id ∷ []) [] r)
        ≡ with_removed
            (map
              (λ d. d.project_id)
              (keep (λ d. not (tear_down_fails d)) (if not h then c ∷ w else w)))
            (map (λ d. d.project_id) (keep tear_down_fails (if not h then c ∷ w else w)))
            r
  removed_step true c w r = refl
  removed_step false c w r = elim (Bool-cases (tear_down_fails c)) [
    | inl e ↦ rw e (
        ground (
          arith,
          append-nil r.removed,
          append_assoc r.errors (c.project_id ∷ [])
              (map (λ d. d.project_id) (keep tear_down_fails w)),
        ))
    | inr e ↦ rw e (
        ground (
          arith,
          append-nil r.errors,
          append_assoc r.removed (c.project_id ∷ [])
              (map (λ d. d.project_id) (keep (λ d. not (tear_down_fails d)) w)),
        ))
  ]

  abbrev retired : List String → List ManagedContainer → ReconcileResult → ReconcileResult
  retired desired cs =
      with_removed
        (map (λ c. c.project_id) (keep (λ c. not (tear_down_fails c)) (surplus desired cs)))
        (map (λ c. c.project_id) (keep tear_down_fails (surplus desired cs)))

  retire_all-result :
      (desired : List String) (cs : List ManagedContainer) (s : Fleet)
      → ((retire_all deps desired cs s).0 ≡ ok tt)
        × ((retire_all deps desired cs s).1.result ≡ retired desired cs s.result)
  unfolding retire_all
  retire_all-result desired [] s =
      ground (arith, append-nil s.result.removed, append-nil s.result.errors)
  retire_all-result desired (c ∷ cs) s =
      let (done, now) = retire-result desired c s in
      let (done', rest) = retire_all-result desired cs (retire deps desired c s).1 in
      subst (λ t. (t.0 ≡ ok tt) × (t.1.result ≡ retired desired (c ∷ cs) s.result))
        (sym (runs_on (retire deps desired c s) (retire_all deps desired cs) done))
        (
          done',
          rest
              ∙ (ap (retired desired cs) now
                  ∙ removed_step (any (str_eq c.project_id) desired) c (surplus desired cs)
                      s.result),
        )

both_loops-result :
    (deps : Deps) (ids : List String) (s : Fleet)
    → let desired = distinct_ids [] ids in
      let wanted = wanting deps s.containers desired in
      let extra = surplus deps desired s.containers in
      let after = both_loops deps desired s.containers (record s { result = no_result }) in
      (after.0 ≡ ok tt)
      × (after.1.result.created ≡ keep (λ p. not (provision_fails deps s.containers p)) wanted)
      × (after.1.result.removed
          ≡ map (λ c. c.project_id) (keep (λ c. not (tear_down_fails deps c)) extra))
      × (after.1.result.errors
          ≡ keep (provision_fails deps s.containers) wanted
            ++ map (λ c. c.project_id) (keep (tear_down_fails deps) extra))
both_loops-result deps ids s =
    let desired = distinct_ids [] ids in
    let reset = record s { result = no_result } in
    let first = ensure_all deps s.containers desired reset in
    let (done, now) = ensure_all-result deps s.containers desired reset in
    let (done', rest) = retire_all-result deps desired s.containers first.1 in
    let e = rest ∙ ap (retired deps desired s.containers) now in
    let (ends, r) =
      subst
        (λ t.
          (t.0 ≡ ok tt)
          × (t.1.result
              ≡ retired deps desired s.containers (ensured deps s.containers desired reset.result)))
        (sym (runs_on first (retire_all deps desired s.containers) done)) (done', e) in
    (ends, ap (λ q. q.created) r, ap (λ q. q.removed) r, ap (λ q. q.errors) r)

unreadable :
    (deps : Deps) (ids : List String) (s : Fleet)
    → (deps.fails desired_call || deps.fails list_call) ≡ true
    → reconcile_once deps ids s ≡ (err (error "call failed"), record s { result = no_result })
unfolding reconcile_once
unreadable deps ids s h = ground (arith, h)

-- A pass in which both lists are read does not throw, whatever other calls fail, and it reports each
-- project by its own calls alone: as created those without a running container none of whose calls
-- fails, as removed those of the surplus containers none of whose calls fails, and as errors the others
-- of both. A pass in which a list cannot be read throws and leaves the containers, the schemas and the
-- states of the projects as they were.
pub reconcile_once-result :
    (deps : Deps) (ids : List String) (s : Fleet)
    → let desired = distinct_ids [] ids in
      let wanted = wanting deps s.containers desired in
      let extra = surplus deps desired s.containers in
      let after = reconcile_once deps ids s in
      ((deps.fails desired_call || deps.fails list_call) ≡ false)
        × (after.0 ≡ ok tt)
        × (after.1.result.created ≡ keep (λ p. not (provision_fails deps s.containers p)) wanted)
        × (after.1.result.removed
            ≡ map (λ c. c.project_id) (keep (λ c. not (tear_down_fails deps c)) extra))
        × (after.1.result.errors
            ≡ keep (provision_fails deps s.containers) wanted
              ++ map (λ c. c.project_id) (keep (tear_down_fails deps) extra))
      ⊎ ((deps.fails desired_call || deps.fails list_call) ≡ true)
        × (after ≡ (err (error "call failed"), record s { result = no_result }))
unfolding reconcile_once
reconcile_once-result deps ids s =
    elim (Bool-cases (deps.fails desired_call || deps.fails list_call)) [
      | inr readable ↦
          let no_ids_fail : deps.fails desired_call ≡ false = ground (arith, readable) in
          let no_list_fails : deps.fails list_call ≡ false = ground (arith, readable) in
          let same : reconcile_once deps ids s
              ≡ both_loops deps (distinct_ids [] ids) s.containers
                  (record s { result = no_result }) =
            rw (no_ids_fail, no_list_fails) refl in
          let (ends, created, removed, errors) = both_loops-result deps ids s in
          inl (
            readable,
            ap (λ t. t.0) same ∙ ends,
            ap (λ t. t.1.result.created) same ∙ created,
            ap (λ t. t.1.result.removed) same ∙ removed,
            ap (λ t. t.1.result.errors) same ∙ errors,
          )
      | inl blocked ↦ inr (blocked, unreadable deps ids s blocked)
    ]

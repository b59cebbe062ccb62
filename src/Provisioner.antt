-- ===== src/Provisioner.antt =====
-- services/provisioner/src/reconcile.ts: one pass that drives the managed containers toward the set
-- of dedicated projects. The container backend of orchestrator.ts is a list of containers; which of
-- its calls, and of the database's, fail is given from outside.
pub mod Results
use task_schedular.Prelude.{
  String, Bool, true, false, Option, none, some, List, [], ◌∷◌, ◌++◌, keep, any, str_eq, not,
  if◌then◌else◌, or_else,
}
use task_schedular.Prelude.Act.{Act, Thrown, error, pure, throw, try_catch, modify, ◌>>=◌, ◌>>◌}

pub record ManagedContainer : Type 0 where
  pub id : String
  pub project_id : String
  pub state : String

pub data ContainerState : Type 0 where
  provisioning running stopping stopped errored : ContainerState

-- The calls of a pass that may fail: the two reads in front of its loops, and those in them.
pub data Call : Type 0 where
  desired_call list_call : Call
  set_state_call : String → ContainerState → Call
  ready_call : String → Call
  create_call : String → Call
  remove_call : String → Call

-- What the calls return and which of them fail: the id of a new container, the schema of a project.
pub record Deps : Type 0 where
  pub fails : Call → Bool
  pub schema : String → String
  pub new_id : String → String

pub record ReconcileResult : Type 0 where
  pub created : List String
  pub removed : List String
  pub errors : List String

-- The containers, `container_state` of each project, and the result so far.
pub record Fleet : Type 0 where
  pub containers : List ManagedContainer
  pub schemas : String → Option String
  pub states : String → Option ContainerState
  pub result : ReconcileResult

-- `new Set(ids)`, in the order of first occurrence
abbrev pub distinct_ids : List String → List String → List String
distinct_ids seen [] = []
distinct_ids seen (p ∷ ps) =
    let rest = distinct_ids (p ∷ seen) ps in if any (str_eq p) seen then rest else p ∷ rest

-- `byProject.get(p)`: the last container of the project
abbrev pub of_project : String → List ManagedContainer → Option ManagedContainer
of_project p [] = none
of_project p (c ∷ cs) = elim (of_project p cs) [
  | some d ↦ some d
  | none ↦ if str_eq c.project_id p then some c else none
]

abbrev pub no_result : ReconcileResult
no_result = record { created = []; removed = []; errors = [] }

abbrev pub push_created : String → ReconcileResult → ReconcileResult
push_created p r = record r { created = r.created ++ p ∷ [] }

abbrev pub push_removed : String → ReconcileResult → ReconcileResult
push_removed p r = record r { removed = r.removed ++ p ∷ [] }

abbrev pub push_error : String → ReconcileResult → ReconcileResult
push_error p r = record r { errors = r.errors ++ p ∷ [] }

module _ (deps : Deps) where
  abbrev pub call : Call → (Fleet → Fleet) → Act Fleet (Unit {0})
  call c f s = if deps.fails c then throw (error "call failed") s else modify f s

  abbrev pub set_state : String → ContainerState → Act Fleet (Unit {0})
  set_state p st =
      call (set_state_call p st)
        λ s. record s { states = λ q. if str_eq q p then some st else s.states q }

  -- `ensureProjectReady`, which provisions the schema and returns its name
  abbrev pub ensure_project_ready : String → Act Fleet String
  ensure_project_ready p =
      call (ready_call p)
        (λ s. record s { schemas = λ q. if str_eq q p then some (deps.schema p) else s.schemas q })
      >> pure (deps.schema p)

  abbrev pub remove : String → Act Fleet (Unit {0})
  remove id =
      call (remove_call id)
        λ s. record s { containers = keep (λ c. not (str_eq c.id id)) s.containers }

  abbrev pub create : String → String → Act Fleet (Unit {0})
  create p schema = call (create_call p) λ s. record s {
    containers =
        s.containers ++ record { id = deps.new_id p; project_id = p; state = "running" } ∷ [];
  }

  abbrev pub on_result : (ReconcileResult → ReconcileResult) → Act Fleet (Unit {0})
  on_result f = modify λ s. record s { result = f s.result }

  -- The catch branch of both loops: the failure of its own `setState` is ignored.
  unfoldable pub failed : String → Act Fleet (Unit {0})
  failed p = on_result (push_error p) >> try_catch (set_state p errored) (λ e. pure tt)

  -- `if (existing) await orchestrator.remove(existing.id)`
  abbrev pub clear_stale : Option ManagedContainer → Act Fleet (Unit {0})
  clear_stale none = pure tt
  clear_stale (some c) = remove c.id

  -- The body of `try` in the first loop.
  unfoldable pub provision : String → Option ManagedContainer → Act Fleet (Unit {0})
  provision p existing = do
    clear_stale existing
    set_state p provisioning
    schema ← ensure_project_ready p
    create p schema
    set_state p running
    on_result (push_created p)

  -- `existing && existing.state === 'running'`
  abbrev pub healthy : Option ManagedContainer → Bool
  healthy none = false
  healthy (some c) = str_eq c.state "running"

  unfoldable pub ensure : List ManagedContainer → String → Act Fleet (Unit {0})
  unfolding provision failed
  ensure actual p =
      let existing = of_project p actual in
      if healthy existing then pure tt else try_catch (provision p existing) (λ e. failed p)

  unfoldable pub ensure_all : List ManagedContainer → List String → Act Fleet (Unit {0})
  unfolding ensure
  ensure_all actual [] = pure tt
  ensure_all actual (p ∷ ps) = ensure actual p >> ensure_all actual ps

  -- The body of `try` in the second loop.
  unfoldable pub tear_down : ManagedContainer → Act Fleet (Unit {0})
  tear_down c = do
    set_state c.project_id stopping
    remove c.id
    set_state c.project_id stopped
    on_result (push_removed c.project_id)

  unfoldable pub retire : List String → ManagedContainer → Act Fleet (Unit {0})
  unfolding tear_down failed
  retire desired c =
      if any (str_eq c.project_id) desired
      then pure tt
      else try_catch (tear_down c) (λ e. failed c.project_id)

  unfoldable pub retire_all : List String → List ManagedContainer → Act Fleet (Unit {0})
  unfolding retire
  retire_all desired [] = pure tt
  retire_all desired (c ∷ cs) = retire desired c >> retire_all desired cs

  -- `desiredProjectIds` and `orchestrator.list`, outside every `try`
  abbrev pub read_call : Call → Act Fleet (Unit {0})
  read_call c = call c (λ s. s)

  -- Both loops, over the containers listed at the start of the pass
  abbrev pub both_loops : List String → List ManagedContainer → Act Fleet (Unit {0})
  both_loops desired actual = ensure_all actual desired >> retire_all desired actual

  unfoldable pub reconcile_once : List String → Act Fleet (Unit {0})
  unfolding ensure_all retire_all
  reconcile_once ids = do
    on_result (λ r. no_result)
    read_call desired_call
    read_call list_call
    λ s. both_loops (distinct_ids [] ids) s.containers s

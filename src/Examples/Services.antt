-- ===== src/Examples/Services.antt =====
-- The theorems on the provisioner, the egress check and the gateway's routes at concrete inputs.
use task_schedular.Prelude.{
  String, false, none, some, List, [], ◌∷◌, In, ◌≡◌, refl, str_eq, ◌||◌, ◌⊎◌, true,
}
use task_schedular.Prelude.Act.{ok, err, error}
use task_schedular.Contracts.Common.{running, completed}
use task_schedular.Contracts.Json.{end}
use task_schedular.Store.{Job}
use task_schedular.Reporter.{claim_job}
use task_schedular.Enqueue.{job_row}
use task_schedular.Provisioner.{
  desired_call, list_call, Deps, Fleet, create_call, reconcile_once, no_result,
}
use task_schedular.Provisioner.Results.{reconcile_once-result}
use task_schedular.Security.{Addresses}
use task_schedular.Contracts.Common.{operator}
use task_schedular.Gateway.Auth.{ApiKey, Credentials}
use task_schedular.Gateway.Jobs.{
  Gateway, Around, cancel_job, cancel_found, cancel_waiting_job, cancel_claimed_job, retry_input,
}
use task_schedular.Gateway.Jobs.Cancels.{cancel_job-stops}
use task_schedular.Gateway.Jobs.Retries.{retry_input-job_row}
use task_schedular.Examples.Data.{job, db_with, one_job-IsKeyed, input_one, fresh_one}

-- The creation of p2's container fails, and p3 is no longer dedicated.
abbrev deps_one : Deps
deps_one = record {
  fails = λ c. elim c [ create_call p ↦ str_eq p "p2" | _ ↦ false ];
  schema = λ p. "proj";
  new_id = λ p. "c2";
}

abbrev fleet_one : Fleet
fleet_one = record {
  containers = record { id = "c3"; project_id = "p3"; state = "running" } ∷ [];
  schemas = λ p. none;
  states = λ p. none;
  result = no_result;
}

reconcile_once-result_example :
    let after = reconcile_once deps_one ("p1" ∷ "p2" ∷ "p1" ∷ []) fleet_one in
    ((deps_one.fails desired_call || deps_one.fails list_call) ≡ false)
      × (after.0 ≡ ok tt)
      × (after.1.result.created ≡ "p1" ∷ [])
      × (after.1.result.removed ≡ "p3" ∷ [])
      × (after.1.result.errors ≡ "p2" ∷ [])
    ⊎ ((deps_one.fails desired_call || deps_one.fails list_call) ≡ true)
      × (after ≡ (err (error "call failed"), record fleet_one { result = no_result }))
reconcile_once-result_example = reconcile_once-result deps_one ("p1" ∷ "p2" ∷ "p1" ∷ []) fleet_one

abbrev resolved : List String
resolved = "10.0.0.1" ∷ []

abbrev addresses_one : Addresses
addresses_one = record {
  lookup = λ h. some ("10.0.0.1" ∷ []);
  range = λ ip. some "private";
  is_block = λ e. false;
  in_block = λ e ip. none;
}

abbrev gateway_with : Job → Gateway
gateway_with j = record {
  process = record { cache = []; db = db_with (j ∷ []) };
  flags = [];
  audits = [];
}

abbrev quiet : Around
quiet = record {
  fails = λ c. false;
  before_waiting = λ db. db;
  before_running = λ db. db;
  now = 5000;
  actor = none;
}

abbrev done_job : Job
done_job = record job { status = completed }

abbrev running_job : Job
running_job = record job { status = running; worker_id = some "w1" }

cancel_job-stops_example :
    let after = (cancel_job quiet "j1" (gateway_with job)).1 in
    In "j1" after.flags × ((claim_job none "j1" "w1" 9000 after.process.db).0 ≡ false)
unfolding cancel_job cancel_found cancel_waiting_job cancel_claimed_job
cancel_job-stops_example =
    cancel_job-stops quiet "j1" "w1" 9000 (gateway_with job) (λ db v. v) (λ db v. v)
      (one_job-IsKeyed job) refl

retry_input-job_row_example :
    let again = retry_input quiet "j2" (job_row input_one fresh_one none) in
    (again.project_id ≡ "p1")
    × (again.entity ≡ "orders")
    × (again.type ≡ input_one.type)
    × (again.source ≡ some end)
    × (again.destination ≡ some end)
    × (again.rule_set_id ≡ none)
    × (again.priority ≡ some 5)
    × (again.mapping ≡ some (("a", "b") ∷ []))
    × (again.options ≡ some end)
unfolding retry_input
retry_input-job_row_example = retry_input-job_row quiet "j2" input_one fresh_one none

abbrev reader_key : ApiKey
reader_key = record {
  id = "a1";
  name = "ci";
  role = operator;
  key_hash = "h";
  revoked = false;
  last_used_at = none;
}

abbrev key_only : Credentials
key_only = record { api_key = some "secret"; token = none }

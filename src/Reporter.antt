-- ===== src/Reporter.antt =====
-- packages/worker-runtime/src/reporter.ts: the status changes of a job. Each function is the UPDATE
-- that it runs, on the tables that the connection's search_path resolves to (`home`).
pub mod Batches
pub mod Claims
pub mod Keeps
use task_schedular.Prelude.{
  ℕ, ◌+◌, String, Bool, true, false, ◌&&◌, not, Option, none, some, List, ◌∷◌, str_eq, any, find,
  update_where, same, sql_eq, ltb, if◌then◌else◌,
}
use mathlib.Core.Option
use task_schedular.Contracts.Common.{
  JobStatus, queued, running, completed, failed, cancelled, cancelling, retrying,
}
use task_schedular.Store.{Home, Job, JobEvent, WorkerNode, Db, at_id, job_at}

-- UPDATE jobs SET f WHERE id=$1 AND guard
abbrev pub update_job : Home → String → (Job → Bool) → (Job → Job) → Db → Db
update_job h id guard f db = record db {
  jobs = update_where (λ j. at_id h id j && guard j) f db.jobs;
}

-- Whether that UPDATE has a row count above 0.
abbrev pub some_job : Home → String → (Job → Bool) → Db → Bool
some_job h id guard db = any (λ j. at_id h id j && guard j) db.jobs

abbrev pub all_rows : Job → Bool
all_rows j = true

abbrev heartbeat_window : ℕ
heartbeat_window = 45000

-- EXISTS (SELECT 1 FROM worker_nodes w WHERE w.id = jobs.worker_id AND w.last_heartbeat_at > …)
unfoldable pub owner_alive : List WorkerNode → ℕ → Option String → Bool
owner_alive workers now owner =
    any (λ w. sql_eq owner w.id && ltb now (w.last_heartbeat_at + heartbeat_window)) workers

-- The WHERE clause of claimJob behind the id.
unfoldable pub claimable : List WorkerNode → ℕ → String → Job → Bool
unfolding owner_alive
claimable workers now worker j = elim j.status [
  | queued ↦ true
  | retrying ↦ true
  | running ↦ not (same j.worker_id (some worker)) && not (owner_alive workers now j.worker_id)
  | _ ↦ false
]

abbrev pub claimed_by : ℕ → String → Job → Job
claimed_by now worker j = record j {
  status = running;
  started_at = some now;
  worker_id = some worker;
}

unfoldable pub claim_job : Home → String → String → ℕ → Db → Bool × Db
unfolding claimable
claim_job h id worker now db = (
  some_job h id (claimable db.workers now worker) db,
  update_job h id (claimable db.workers now worker) (claimed_by now worker) db,
)

unfoldable pub job_status : Home → String → Db → Option JobStatus
job_status h id db = Option.map (λ j. j.status) (job_at h id db)

unfoldable pub complete_job : Home → String → Option String → ℕ → Db → Db
complete_job h id summary now =
    update_job h id all_rows
      (λ j. record j { status = completed; finished_at = some now; error_summary = summary })

unfoldable pub fail_job : Home → String → String → ℕ → Db → Db
fail_job h id summary now =
    update_job h id all_rows
      (λ j. record j { status = failed; finished_at = some now; error_summary = some summary })

unfoldable pub retrying_job : Home → String → ℕ → Db → Db
retrying_job h id attempt =
    update_job h id all_rows (λ j. record j { status = retrying; attempt = attempt })

-- The UPDATE of the runner's cancellation branch (packages/worker-runtime/src/runner.ts).
unfoldable pub cancel_running_job : Home → String → ℕ → Db → Db
cancel_running_job h id now =
    update_job h id all_rows (λ j. record j { status = cancelled; finished_at = some now })

-- The row that `event` inserts; its live publications are best effort and not modelled.
unfoldable pub record_event : Home → String → String → Option String → Option String → Db → Db
record_event h type message job project db = record db {
  events =
      record {
        home = h;
        job_id = job;
        project_id = project;
        type = type;
        actor = "worker";
        message = message;
      }
      ∷ db.events;
}

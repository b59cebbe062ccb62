-- ===== src/Edge/Webhook.antt =====
-- services/worker-edge/src/handlers/webhook.ts: a request that starts a job of the project itself.
pub mod Ended
use Prim.Native.String.{◌++◌ as append}
use task_schedular.Prelude.{String, Option, none, some}
use task_schedular.Prelude.Act.{
  Result, ok, err, Thrown, error, job_cancelled, Act, pure, throw, and_then, ◌>>=◌, ◌>>◌,
}
use task_schedular.Contracts.Common.{truthy_text}
use task_schedular.Contracts.Json.{
  Json, null, num, str, obj, Fields, end, field, get_field, or_default,
}
use task_schedular.Worker.{JobContext}
use task_schedular.Edge.Http.{post_json}
use task_schedular.Edge.{World, Outside, as_fields, text_field, on_wire, start, complete, fail}

abbrev pub message_of : Thrown → String
message_of job_cancelled = "cancelled"
message_of (error m) = m

-- The options of a destination
abbrev pub hook_options : Fields → Fields
hook_options destination = as_fields (get_field "options" destination)

-- `number` is Number(…).
module _ {RuleSet : Type 0} (o : Outside) (number : Json → Json) (c : JobContext RuleSet) where
  -- maxParallel is left out where it is null or absent.
  abbrev pub parallel_field : Option Json → Fields
  parallel_field none = end
  parallel_field (some null) = end
  parallel_field (some v) = field "maxParallel" (number v) end

  abbrev pub default_body : Fields → Option String → Json
  default_body options none = obj end
  default_body options (some type) = obj (
      field "type" (str type)
        (field "correlationId" (str c.job.id) (parallel_field (get_field "maxParallel" options))))

  -- The body of the options, if any, goes first.
  unfoldable pub hook_body : Fields → Json
  hook_body options =
      or_default (get_field "body" options)
        (default_body options (truthy_text (text_field "jobType" options)))

  abbrev pub type_suffix : Option String → String
  type_suffix none = ""
  type_suffix (some type) = append " (type=" (append type ")")

  abbrev pub type_or_job : Option String → String
  type_or_job none = "job"
  type_or_job (some type) = type

  abbrev pub failed_text : String → Thrown → String
  failed_text url e = append "webhook POST " (append url (append " failed: " (message_of e)))

  abbrev pub triggered_text : String → Fields → String
  triggered_text url options =
      append "triggered " (append (type_or_job (text_field "jobType" options)) (append " on " url))

  abbrev pub started_text : String → Fields → String
  started_text url options =
      append "webhook → " (append url (type_suffix (truthy_text (text_field "jobType" options))))

  -- What follows the request: its failure is reported and thrown on.
  abbrev pub after_post : String → Fields → Result (Unit {0}) → Act World (Unit {0})
  after_post url options (err e) = fail o c (failed_text url e) >> throw e
  after_post url options (ok _) = complete o c (triggered_text url options)

  unfoldable pub post_hook : String → Fields → Act World (Unit {0})
  unfolding hook_body
  post_hook url options w =
      let (r, w') =
        on_wire o
          (post_json o.net url (hook_body options) (text_field "token" options)
            c.project.allowlist_hosts)
          w in
      after_post url options r w'

  abbrev pub hook_to : Option String → Act World (Unit {0})
  hook_to none = throw (error "webhook: no destination.location (target endpoint URL)")
  hook_to (some url) = do
    start o c (started_text url (hook_options c.envelope.destination))
    post_hook url (hook_options c.envelope.destination)

  unfoldable pub webhook : Act World (Unit {0})
  unfolding post_hook
  webhook = hook_to (truthy_text (text_field "location" c.envelope.destination))

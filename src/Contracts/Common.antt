-- ===== src/Contracts/Common.antt =====
-- packages/contracts/src/common.ts and the job types of envelope.ts: enumerations, names of
-- exchanges and queues, routing keys.
use Prim.Native.String.{◌++◌}
use task_schedular.Prelude.{String, Option, none, some, List, [], ◌∷◌}

pub data Role : Type 0 where
  admin operator viewer : Role

pub data JobStatus : Type 0 where
  queued running completed failed cancelled cancelling retrying : JobStatus

pub data IsolationMode : Type 0 where
  shared dedicated : IsolationMode

pub data JobType : Type 0 where
  bulk_import bulk_insert bulk_update bulk_delete : JobType
  file_inbound file_outbound xml_integration rest_pull rest_push webhook : JobType

abbrev pub type_name : JobType → String
type_name bulk_import = "bulk_import"
type_name bulk_insert = "bulk_insert"
type_name bulk_update = "bulk_update"
type_name bulk_delete = "bulk_delete"
type_name file_inbound = "file_inbound"
type_name file_outbound = "file_outbound"
type_name xml_integration = "xml_integration"
type_name rest_pull = "rest_pull"
type_name rest_push = "rest_push"
type_name webhook = "webhook"

abbrev pub job_types : List JobType
job_types =
    bulk_import ∷ bulk_insert ∷ bulk_update ∷ bulk_delete ∷ file_inbound ∷ file_outbound
    ∷ xml_integration ∷ rest_pull ∷ rest_push ∷ webhook ∷ []

abbrev pub jobs_exchange : String
jobs_exchange = "conductor.jobs"

abbrev pub delayed_exchange : String
delayed_exchange = "conductor.delayed"

abbrev pub dlx_exchange : String
dlx_exchange = "conductor.dlx"

abbrev pub dlq_name : String
dlq_name = "conductor.dlq"

-- `s ? … : …` on a text that may be absent: the empty text counts as absent.
abbrev pub truthy_text : Option String → Option String
truthy_text none = none
truthy_text (some String.[]) = none
truthy_text (some s) = some s

abbrev with_project : String → Option String → String
with_project base none = base
with_project base (some p) = base ++ (".p." ++ p)

unfoldable pub routing_key_for_type : JobType → Option String → String
routing_key_for_type t p = with_project ("conductor.job." ++ type_name t) (truthy_text p)

unfoldable pub queue_for_type : JobType → Option String → String
queue_for_type t p = with_project ("conductor.q." ++ type_name t) (truthy_text p)

-- ===== src/Examples/Tenants.antt =====
-- The theorems on projects, their secrets and their job definitions at concrete inputs.
use task_schedular.Prelude.{
  ℕ, String, true, false, none, some, [], ◌∷◌, ◌≡◌, refl, inr, str_eq, ne_of_str_eq, if◌then◌else◌,
}
use task_schedular.Prelude.Act.{Result, ok, err, error}
use task_schedular.Contracts.Common.{shared, dedicated, webhook}
use task_schedular.Contracts.Json.{field, end, null}
use task_schedular.Contracts.Schedule.{ScheduleSpec, weekly}
use task_schedular.Store.{JobDefinition, recurring, cron}
use task_schedular.Gateway.Jobs.{Gateway, Around}
use task_schedular.Gateway.Definitions.{DefinitionBody}
use task_schedular.Gateway.Projects.{ProjectRow, absent, set_isolation}
use task_schedular.Gateway.Projects.Tiers.{IsTiered, set_isolation-IsTiered}
use task_schedular.Security.Secrets.{
  Crypto, Env, EnvelopeCiphertext, decode, keyring, encrypt_secret, decrypt_secret,
}
use task_schedular.Security.Secrets.Rotation.{decrypt_secret-encrypt_secret}
use task_schedular.Examples.Data.{db_with}

-- A cipher that keeps the key beside the text, in place of AES
abbrev Sealed : Type 0
Sealed = String × String

abbrev open_with : String → Sealed → Result String
open_with key (k, text) = ok text

abbrev toy : Crypto String Sealed
toy = record {
  gcm_encrypt = λ key iv text. (key, text);
  gcm_decrypt = open_with;
  from_base64 = λ s. s;
  has_32_bytes = λ k. true;
  utf8 = λ s. s;
  to_text = λ s. s;
}

abbrev before : Env
before = record {
  master_key = some "key-1";
  master_key_id = some "v1";
  previous_key = none;
  previous_key_id = none;
}

abbrev after : Env
after = record {
  master_key = some "key-2";
  master_key_id = some "v2";
  previous_key = some "key-1";
  previous_key_id = some "v1";
}

abbrev blob : EnvelopeCiphertext Sealed
blob = record { key_id = "v1"; wrapped_dek = ("key-1", "dek"); sealed = ("dek", "password") }

decrypt_secret-encrypt_secret_example : decrypt_secret toy after blob ≡ ok "password"
unfolding encrypt_secret keyring decode
decrypt_secret-encrypt_secret_example =
    decrypt_secret-encrypt_secret toy (λ key iv text. refl) (λ s. refl) before after "dek" "iv"
      "iv2" "password" blob (inr (refl, refl, refl, ne_of_str_eq "v1" "v2" refl)) refl refl

abbrev row : String → ProjectRow
row id = record {
  id = id;
  columns = end;
  secret_ciphertext = "{}";
  secret_key_id = "v1";
  isolation_mode = shared;
  db_schema = none;
  container_state = absent;
  is_deleted = false;
}

set_isolation-IsTiered_example :
    IsTiered
      (set_isolation (λ s. false) (λ id. ok "proj_p1") (λ ps. ps) "p1" dedicated (row "p1" ∷ [])).1
set_isolation-IsTiered_example =
    set_isolation-IsTiered (λ s. false) (λ id. ok "proj_p1") (λ ps. ps) (λ id ps h t. (h, t))
      (λ ps t. t) "p1" dedicated (row "p1" ∷ []) (refl, tt)

abbrev weekly_spec : ScheduleSpec
weekly_spec = record {
  kind = weekly;
  time = some (9, 5);
  minute = none;
  every_minutes = none;
  days_of_week = some (5 ∷ 1 ∷ []);
  day_of_month = none;
  cron = none;
  run_at = none;
  timezone = "UTC";
}

abbrev body : DefinitionBody
body = record {
  project_id = "p1";
  entity = "customer";
  type = webhook;
  schedule = some (weekly_spec, null);
  schedule_kind = recurring;
  cron = none;
  timezone = "UTC";
  run_at = none;
  source = none;
  destination = none;
  options = none;
  enabled = true;
}

abbrev next : String → String → Result ℕ
next text timezone = if str_eq text "5 9 * * 1,5" then ok 7000 else err (error "bad cron")

abbrev quiet : Around
quiet = record {
  fails = λ c. false;
  before_waiting = λ db. db;
  before_running = λ db. db;
  now = 5000;
  actor = none;
}

abbrev gateway : Gateway
gateway = record { process = record { cache = []; db = db_with [] }; flags = []; audits = [] }

abbrev stored : JobDefinition
stored = record {
  id = "d1";
  project_id = "p1";
  entity = "customer";
  type = webhook;
  schedule_kind = cron;
  cron = some "5 9 * * 1,5";
  timezone = "UTC";
  source = end;
  destination = end;
  options = field "schedule" null end;
  enabled = true;
  next_run_at = some 7000;
  last_run_at = none;
}

-- ===== src/Contracts/Schedule.antt =====
-- packages/contracts/src/schedule.ts, and dashboard/src/schedule.ts, which mirrors it for the preview:
-- schedule presets lowered to cron expressions. A time that TIME_RE accepts stands as its hour and
-- minute.
pub mod Preview
pub mod Summary
use Prim.Native.String.{◌++◌}
use task_schedular.Prelude.{
  ℕ, ◌%◌, ◌-◌, String, Bool, true, false, Option, none, some, List, [], ◌∷◌, ltb, leb, ◌==◌, ◌||◌,
  if◌then◌else◌, get_elem?, any, map, or_else,
}
use task_schedular.Prelude.Show.{show, pad2}
use task_schedular.Contracts.Common.{truthy_text}
use task_schedular.Prelude.Act.{Result, ok, err, Thrown, error}

pub data Preset : Type 0 where
  once minutely hourly daily weekly monthly raw : Preset

pub record ScheduleSpec : Type 0 where
  pub kind : Preset
  pub time : Option (ℕ × ℕ)
  pub minute : Option ℕ
  pub every_minutes : Option ℕ
  pub days_of_week : Option (List ℕ)
  pub day_of_month : Option ℕ
  pub cron : Option String
  pub run_at : Option String
  pub timezone : String

pub data BuiltKind : Type 0 where
  cron_kind one_time_kind recurring_kind : BuiltKind

pub record BuiltSchedule : Type 0 where
  pub schedule_kind : BuiltKind
  pub cron : Option String
  pub run_at : Option String
  pub timezone : String

-- `new Set(days)`: each element at its first occurrence
abbrev pub distinct_after : List ℕ → List ℕ → List ℕ
distinct_after seen [] = []
distinct_after seen (d ∷ ds) =
    let rest = distinct_after (d ∷ seen) ds in if any (λ s. s == d) seen then rest else d ∷ rest

-- `.sort((a, b) => a - b)`
abbrev pub insert_day : ℕ → List ℕ → List ℕ
insert_day d [] = d ∷ []
insert_day d (e ∷ es) = if leb d e then d ∷ e ∷ es else e ∷ insert_day d es

abbrev pub sort_days : List ℕ → List ℕ
sort_days [] = []
sort_days (d ∷ ds) = insert_day d (sort_days ds)

abbrev pub join_days : List ℕ → String
join_days [] = ""
join_days (d ∷ []) = show d
join_days (d ∷ e ∷ es) = show d ++ ("," ++ join_days (e ∷ es))

-- `daysOfWeek`, or Monday if it is absent or empty
abbrev pub days_of : Option (List ℕ) → List ℕ
days_of none = 1 ∷ []
days_of (some []) = 1 ∷ []
days_of (some (d ∷ ds)) = d ∷ ds

abbrev pub hhmm : Option (ℕ × ℕ) → ℕ × ℕ
hhmm none = (0, 0)
hhmm (some t) = t

-- The cron texts of the presets
abbrev pub minutely_cron : ℕ → String
minutely_cron n = "*/" ++ (show n ++ " * * * *")

abbrev pub hourly_cron : ℕ → String
hourly_cron m = show m ++ " * * * *"

abbrev pub clock : ℕ × ℕ → String
clock (h, m) = show m ++ (" " ++ show h)

abbrev pub weekly_cron : ℕ × ℕ → List ℕ → String
weekly_cron t days = clock t ++ (" * * " ++ join_days days)

abbrev pub monthly_cron : ℕ × ℕ → ℕ → String
monthly_cron t day = clock t ++ (" " ++ (show day ++ " * *"))

unfoldable pub weekdays : Option (List ℕ) → List ℕ
weekdays days = sort_days (distinct_after [] (days_of days))

unfoldable pub build_cron : ScheduleSpec → Result BuiltSchedule
unfolding weekdays
build_cron spec =
    let built : BuiltKind → String → Result BuiltSchedule = λ kind text. ok (record {
      schedule_kind = kind;
      cron = some text;
      run_at = none;
      timezone = spec.timezone;
    }) in
    elim spec.kind [
      | once ↦ elim (truthy_text spec.run_at) [
        | none ↦ err (error "one-time schedule requires runAt")
        | some at ↦ ok (record {
          schedule_kind = one_time_kind;
          cron = none;
          run_at = some at;
          timezone = spec.timezone;
        })
      ]
      | minutely ↦
          let n = or_else spec.every_minutes 1 in
          if ltb n 1 || ltb 59 n
          then err (error "everyMinutes must be 1..59 for a minutely schedule")
          else built recurring_kind (minutely_cron n)
      | hourly ↦ built recurring_kind (hourly_cron (or_else spec.minute 0))
      | daily ↦ built cron_kind (clock (hhmm spec.time) ++ " * * *")
      | weekly ↦ built cron_kind (weekly_cron (hhmm spec.time) (weekdays spec.days_of_week))
      | monthly ↦ built cron_kind (monthly_cron (hhmm spec.time) (or_else spec.day_of_month 1))
      | raw ↦ elim (truthy_text spec.cron) [
        | none ↦ err (error "cron schedule requires a cron expression")
        | some text ↦ built cron_kind text
      ]
    ]

-- `previewCron` of the dashboard, which sorts the days but keeps repeated ones
unfoldable pub preview_cron : ScheduleSpec → String
preview_cron s = elim s.kind [
  | once ↦ elim (truthy_text s.run_at) [ none ↦ "pick a date/time" | some at ↦ "once @ " ++ at ]
  | minutely ↦ minutely_cron (or_else s.every_minutes 1)
  | hourly ↦ hourly_cron (or_else s.minute 0)
  | daily ↦ clock (hhmm s.time) ++ " * * *"
  | weekly ↦ weekly_cron (hhmm s.time) (sort_days (days_of s.days_of_week))
  | monthly ↦ monthly_cron (hhmm s.time) (or_else s.day_of_month 1)
  | raw ↦ or_else (truthy_text s.cron) "(enter cron)"
]

-- ===== src/Contracts/Schedule/Summary.antt =====
-- packages/contracts/src/schedule.ts and dashboard/src/schedule.ts: summaries of a schedule for people.
use Prim.Native.String.{◌++◌}
use task_schedular.Prelude.{
  ℕ, ◌%◌, ◌-◌, ◌<◌, String, ◌&&◌, not, Option, none, some, List, [], ◌∷◌, ltb, ◌==◌, get_elem?,
  or_else, map, if◌then◌else◌, ◌≡◌, arith,
}
use task_schedular.Prelude.Show.{show, pad2}
use task_schedular.Contracts.Common.{truthy_text}
use task_schedular.Contracts.Schedule.{
  once, minutely, hourly, daily, weekly, monthly, raw, ScheduleSpec, days_of,
}

abbrev day_names : List String
day_names = "Sun" ∷ "Mon" ∷ "Tue" ∷ "Wed" ∷ "Thu" ∷ "Fri" ∷ "Sat" ∷ []

abbrev suffixes : List String
suffixes = "th" ∷ "st" ∷ "nd" ∷ "rd" ∷ []

-- s[(v - 20) % 10]: below 20 the index is negative, so undefined, or zero at 0 and 10.
abbrev by_last_digit : ℕ → Option String
by_last_digit v =
    if ltb v 20
    then (if v % 10 == 0 then some "th" else none)
    else get_elem? suffixes ((v - 20) % 10)

-- s[(v - 20) % 10] ?? s[v] ?? 'th'
unfoldable pub suffix : ℕ → String
suffix v = or_else (by_last_digit v) (or_else (get_elem? suffixes v) "th")

abbrev pub ordinal : ℕ → String
ordinal n = show n ++ suffix (n % 100)

-- `.join(', ')`
abbrev join_names : List String → String
join_names [] = ""
join_names (d ∷ []) = d
join_names (d ∷ e ∷ es) = d ++ (", " ++ join_names (e ∷ es))

-- A time of the specification, as its text.
abbrev time_text : Option (ℕ × ℕ) → String
time_text none = "00:00"
time_text (some (h, m)) = pad2 h ++ (":" ++ pad2 m)

abbrev in_zone : String → String
in_zone zone = " (" ++ (zone ++ ")")

unfoldable pub humanize_schedule : ScheduleSpec → String
unfolding suffix
humanize_schedule s = elim s.kind [
  | once ↦ "Once at " ++ or_else s.run_at "—"
  | minutely ↦ "Every " ++ (show (or_else s.every_minutes 1) ++ " minute(s)")
  | hourly ↦ "Hourly at :" ++ (pad2 (or_else s.minute 0) ++ in_zone s.timezone)
  | daily ↦ "Daily at " ++ (time_text s.time ++ in_zone s.timezone)
  | weekly ↦
      "Weekly on "
      ++ (join_names (map (λ d. or_else (get_elem? day_names d) "?") (days_of s.days_of_week))
          ++ (" at " ++ (time_text s.time ++ in_zone s.timezone)))
  | monthly ↦
      "Monthly on the "
      ++ (ordinal (or_else s.day_of_month 1)
          ++ (" at " ++ (time_text s.time ++ in_zone s.timezone)))
  | raw ↦ "Cron `" ++ (or_else s.cron "undefined" ++ ("`" ++ in_zone s.timezone))
]

-- How English numbers end: 11 to 13 with th, the others by their last digit.
abbrev pub english : ℕ → String
english v =
    if not (ltb v 11) && ltb v 14
    then "th"
    else if v % 10 == 1
    then "st"
    else if v % 10 == 2
    then "nd"
    else if v % 10 == 3
    then "rd"
    else "th"

-- Below 100 the suffix of a number is the English one.
pub suffix-english : (v : ℕ) → v < 100 → suffix v ≡ english v
unfolding suffix
suffix-english v h = ground arith

-- `humanize` of the dashboard
unfoldable pub humanize : ScheduleSpec → String
humanize s = elim s.kind [
  | once ↦ "Once at " ++ or_else s.run_at "—"
  | hourly ↦ "Hourly at :" ++ pad2 (or_else s.minute 0)
  | minutely ↦ "Every " ++ (show (or_else s.every_minutes 1) ++ " minute(s)")
  | daily ↦ "Daily at " ++ time_text s.time
  | weekly ↦
      "Weekly on "
      ++ (join_names (map (λ d. or_else (get_elem? day_names d) "") (days_of s.days_of_week))
          ++ (" at " ++ time_text s.time))
  | monthly ↦ "Monthly on day " ++ (show (or_else s.day_of_month 1) ++ (" at " ++ time_text s.time))
  | raw ↦ "Cron: " ++ or_else (truthy_text s.cron) "—"
]

-- ===== src/Contracts/Schedule/Preview.antt =====
-- The days of a weekly schedule in the stored cron text, and the dashboard's preview against it.
use task_schedular.Prelude.{
  ℕ, String, true, Option, some, List, [], ◌∷◌, leb, ◌==◌, any, In, All, ◌≡◌, ◌≢◌, ◌↔◌, ◌⊎◌, ◌<◌,
  refl, ap, arith, inl, inr, Bool-cases, subst,
}
use task_schedular.Prelude.Act.{ok}
use task_schedular.Contracts.Schedule.{
  ScheduleSpec, BuiltSchedule, distinct_after, insert_day, sort_days, days_of, weekdays, build_cron,
  preview_cron,
}

-- Each element is above all that come before it.
abbrev pub Ascending : List ℕ → Type 0
Ascending [] = Unit
Ascending (d ∷ ds) = All (λ e. d < e) ds × Ascending ds

abbrev pub Distinct : List ℕ → Type 0
Distinct [] = Unit
Distinct (d ∷ ds) = All (λ e. d ≢ e) ds × Distinct ds

module _ (P : ℕ → Type 0) where
  All-In : (ds : List ℕ) → ((e : ℕ) → In e ds → P e) → All P ds
  All-In [] f = tt
  All-In (d ∷ ds) f = (f d (inl refl), All-In ds λ e i. f e (inr i))

  In-All : (ds : List ℕ) (e : ℕ) → All P ds → In e ds → P e
  In-All [] e p i = elim i [ ]
  In-All (d ∷ ds) e (p, ps) (inl q) = subst P q p
  In-All (d ∷ ds) e (p, ps) (inr i) = In-All ds e ps i

In-insert : (d e : ℕ) (es : List ℕ) → In d (insert_day e es) ↔ ((e ≡ d) ⊎ In d es)
In-insert d e [] = ground arith
In-insert d e (f ∷ fs) = ground (arith, In-insert d e fs)

In-sort : (d : ℕ) (ds : List ℕ) → In d (sort_days ds) ↔ In d ds
In-sort d [] = ground arith
In-sort d (e ∷ es) = ground (arith, In-insert d e (sort_days es), In-sort d es)

any-In : (d : ℕ) (ds : List ℕ) → (any (λ s. s == d) ds ≡ true) ↔ In d ds
any-In d [] = ground arith
any-In d (e ∷ es) = ground (arith, any-In d es)

-- Inserting a new day keeps the order.
insert-Ascending : (d : ℕ) (ds : List ℕ) → ¬ In d ds → Ascending ds → Ascending (insert_day d ds)
insert-Ascending d [] n a = (tt, tt)
insert-Ascending d (e ∷ es) n (b, a) = elim (Bool-cases (leb d e)) [
  | inl h ↦ rw h ((ground arith, All-In _ es λ f i. ground (arith, In-All _ es f b i)), (b, a))
  | inr h ↦ rw h (
    All-In _ (insert_day d es) (λ f i. ground (arith, In-insert f d es, In-All _ es f b)),
    insert-Ascending d es (λ i. n (inr i)) a,
  )
]

sort-Ascending : (ds : List ℕ) → Distinct ds → Ascending (sort_days ds)
sort-Ascending [] u = tt
sort-Ascending (d ∷ ds) (n, u) =
    insert-Ascending d (sort_days ds) (λ i. In-All _ ds d n ((In-sort d ds).0 i) refl)
      (sort-Ascending ds u)

-- What `distinct_after` keeps: what stands in the list and was not seen.
In-distinct : (d : ℕ) (seen ds : List ℕ) → In d (distinct_after seen ds) ↔ (In d ds × ¬ In d seen)
In-distinct d seen [] = ground arith
In-distinct d seen (e ∷ es) = ground (arith, In-distinct d (e ∷ seen) es, any-In e seen)

distinct_after-Distinct : (seen ds : List ℕ) → Distinct (distinct_after seen ds)
distinct_after-Distinct seen [] = tt
distinct_after-Distinct seen (d ∷ ds) = elim (Bool-cases (any (λ s. s == d) seen)) [
  | inl h ↦ rw h (distinct_after-Distinct (d ∷ seen) ds)
  | inr h ↦ rw h (
    All-In _ (distinct_after (d ∷ seen) ds)
        (λ f i e. ((In-distinct f (d ∷ seen) ds).0 i).1 (inl e)),
    distinct_after-Distinct (d ∷ seen) ds,
  )
]

-- The days of a weekly schedule stand in the cron text in strictly ascending order, so no day
-- twice, and they are the chosen days (Monday if none is chosen).
pub weekdays-exact :
    (days : Option (List ℕ)) (d : ℕ)
    → Ascending (weekdays days) × (In d (weekdays days) ↔ In d (days_of days))
unfolding weekdays
weekdays-exact days d = (
  sort-Ascending _ (distinct_after-Distinct [] (days_of days)),
  ground (arith, In-sort d (distinct_after [] (days_of days)), In-distinct d [] (days_of days)),
)

distinct_after_eq :
    (seen ds : List ℕ) → All (λ d. ¬ In d seen) ds → Distinct ds → distinct_after seen ds ≡ ds
distinct_after_eq seen [] n u = refl
distinct_after_eq seen (d ∷ ds) (n, ns) (m, u) = elim (Bool-cases (any (λ s. s == d) seen)) [
  | inl h ↦ ground (arith, any-In d seen)
  | inr h ↦ rw h (
      ap (λ r. d ∷ r)
        (distinct_after_eq (d ∷ seen) ds
          (All-In _ ds λ e i. ground (arith, In-All _ ds e ns i, In-All _ ds e m i)) u))
]

weekdays_eq :
    (days : Option (List ℕ)) → Distinct (days_of days) → weekdays days ≡ sort_days (days_of days)
unfolding weekdays
weekdays_eq days u =
    ap sort_days
      (distinct_after_eq [] (days_of days) (All-In _ (days_of days) λ e i. ground arith) u)

-- Whenever a recurring preset is accepted and no day is chosen twice, the dashboard previews the
-- cron text that is stored.
pub preview_cron-build_cron :
    (s : ScheduleSpec) (b : BuiltSchedule) (text : String)
    → Distinct (days_of s.days_of_week)
    → build_cron s ≡ ok b
    → b.cron ≡ some text
    → preview_cron s ≡ text
unfolding build_cron preview_cron
preview_cron-build_cron s b text u e f = ground (arith, weekdays_eq s.days_of_week u)

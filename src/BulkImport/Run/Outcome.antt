-- ===== src/BulkImport/Run/Outcome.antt =====
-- What an import leaves of the target database.
use task_schedular.Prelude.{
  ℕ, true, false, List, [], ◌∷◌, length, ◌≡◌, refl, ◌∙◌, inl, inr, ◌⊎◌, Bool-cases, ap,
  if◌then◌else◌,
}
use task_schedular.Prelude.Act.{Act, Result, ok, err, Thrown, is_ok, and_then, ◌>>◌}
use task_schedular.Contracts.Json.{Fields}
use task_schedular.BulkImport.{Staged}
use task_schedular.RowPipeline.{RowError}
use task_schedular.BulkImport.Run.{
  Import, ImportReport, promotion_log, batch_end, error_count, rejects_log, rejects_warning,
  completion, progress_end, completed_event, summary_log, Summary, dry, imported, Site, report,
  unchanged, report_rejects, completed, empty_work, stage_records, promotable, close, finish,
  with_staged, staged_site, with_staging, attempt, bulk_import,
}

Result-cases : {A : Type 0} (o : Result A) → ((a : A) × (o ≡ ok a)) ⊎ ((e : Thrown) × (o ≡ err e))
Result-cases (ok a) = inl (a, refl)
Result-cases (err e) = inr (e, refl)

-- An action that leaves the target table as it was
abbrev Keeps : Act Site (Unit {0}) → Type 0
Keeps m = (site : Site) → (m site).1.table ≡ site.table

and_then-Keeps :
    (r : Result (Unit {0})) (n : Act Site (Unit {0})) (site : Site)
    → Keeps n
    → (and_then r (λ u. n) site).1.table ≡ site.table
and_then-Keeps (ok u) n site h = h site
and_then-Keeps (err e) n site h = refl

seq-Keeps : (m n : Act Site (Unit {0})) → Keeps m → Keeps n → Keeps (m >> n)
seq-Keeps m n h k site = and_then-Keeps (m site).0 n (m site).1 k ∙ h site

module _ (i : Import) where
  report-Keeps :
      (q : ImportReport) (run : Site → Site)
      → ((site : Site) → (run site).table ≡ site.table)
      → Keeps (report i q run)
  report-Keeps q run h site = elim (Bool-cases (i.report_fails q)) [
    | inl failing ↦ rw failing refl
    | inr fine ↦ rw fine (h site)
  ]

  silent-Keeps : (q : ImportReport) → Keeps (report i q (unchanged i))
  silent-Keeps q = report-Keeps q (unchanged i) (λ site. refl)

  report_rejects-Keeps : (es : List RowError) → Keeps (report_rejects i es)
  report_rejects-Keeps [] site = refl
  report_rejects-Keeps (e ∷ es) site = elim (Bool-cases (i.report_fails rejects_log)) [
    | inl failing ↦ rw failing (silent-Keeps rejects_warning site)
    | inr fine ↦ rw fine refl
  ]

  close-Keeps : (summary : ℕ → Summary) → Keeps (close i summary)
  unfolding close
  close-Keeps summary =
      let n₁ : Act Site (Unit {0}) = report i summary_log (unchanged i) in
      let n₂ : Act Site (Unit {0}) = report i completed_event (unchanged i) >> n₁ in
      let n₃ : Act Site (Unit {0}) = report i progress_end (unchanged i) >> n₂ in
      let n₄ : Act Site (Unit {0}) = report i completion (completed i summary) >> n₃ in
      let n₅ : Act Site (Unit {0}) = (λ site. report_rejects i site.job_errors site) >> n₄ in
      let n₆ : Act Site (Unit {0}) = report i error_count (unchanged i) >> n₅ in
      let n₇ : Act Site (Unit {0}) = report i batch_end (unchanged i) >> n₆ in
      let k₂ =
        seq-Keeps (report i completed_event (unchanged i)) n₁ (silent-Keeps completed_event)
          (silent-Keeps summary_log) in
      let k₃ = seq-Keeps (report i progress_end (unchanged i)) n₂ (silent-Keeps progress_end) k₂ in
      let k₄ =
        seq-Keeps (report i completion (completed i summary)) n₃
          (report-Keeps completion (completed i summary) (λ site. refl)) k₃ in
      let k₅ =
        seq-Keeps (λ site. report_rejects i site.job_errors site) n₄
          (λ site. report_rejects-Keeps site.job_errors site) k₄ in
      let k₆ = seq-Keeps (report i error_count (unchanged i)) n₅ (silent-Keeps error_count) k₅ in
      let k₇ = seq-Keeps (report i batch_end (unchanged i)) n₆ (silent-Keeps batch_end) k₆ in
      seq-Keeps (report i promotion_log (unchanged i)) n₇ (silent-Keeps promotion_log) k₇

  module _ (sound : (q : ImportReport) → i.report_fails q ≡ false) where
    report_rejects-ok :
        (es : List RowError) (site : Site) → report_rejects i es site ≡ (ok tt, site)
    report_rejects-ok [] site = refl
    report_rejects-ok (e ∷ es) site = rw (sound rejects_log) refl

    close-ok : (summary : ℕ → Summary) (site : Site) → (close i summary site).0 ≡ ok tt
    unfolding close
    close-ok summary site =
        rw
          (
            sound promotion_log,
            sound batch_end,
            sound error_count,
            report_rejects-ok site.job_errors site,
            sound completion,
            sound progress_end,
            sound completed_event,
            sound summary_log,
          )
          refl

  finish-untouched :
      (rows : ℕ) (staged : List Staged) (site : Site)
      → (i.dry_run ≡ true)
        ⊎ ((q : ImportReport) → i.report_fails q ≡ false)
          × (is_ok (finish i rows staged site).0 ≡ false)
      → (finish i rows staged site).1.table ≡ site.table
  unfolding finish
  finish-untouched rows staged site (inl rehearsal) = rw rehearsal (close-Keeps (dry rows) site)
  finish-untouched rows staged site (inr (sound, thrown)) = elim (Bool-cases i.dry_run) [
    | inl rehearsal ↦ rw rehearsal (close-Keeps (dry rows) site)
    | inr real ↦ elim (Result-cases (i.promote (promotable i staged) site.table)) [
      | inr (x, e) ↦ rw (real, e) refl
      | inl ((n, table), e) ↦
          let bad : is_ok (close i (imported n rows) (record site { table = table })).0 ≡ false =
            rw (real, e) at thrown in
          cc (rw (close-ok sound (imported n rows) (record site { table = table })) at bad)
    ]
  ]

  with_staged_untouched :
      (rows : ℕ) (staged : List Staged) (r : Result (Unit {0})) (site : Site)
      → (i.dry_run ≡ true)
        ⊎ (is_ok r ≡ false)
        ⊎ ((q : ImportReport) → i.report_fails q ≡ false)
          × (is_ok (with_staged i rows staged r site).0 ≡ false)
      → (with_staged i rows staged r site).1.table ≡ site.table
  unfolding with_staged
  with_staged_untouched rows staged (err e) site h = refl
  with_staged_untouched rows staged (ok u) site (inl rehearsal) =
      finish-untouched rows staged site (inl rehearsal)
  with_staged_untouched rows staged (ok u) site (inr (inl bad)) = cc bad
  with_staged_untouched rows staged (ok u) site (inr (inr thrown)) =
      finish-untouched rows staged site (inr thrown)

  with_staging_untouched :
      (records : List Fields) (r : Result (Unit {0})) (site : Site)
      → (i.dry_run ≡ true)
        ⊎ (is_ok (stage_records i site.table records empty_work).0 ≡ false)
        ⊎ ((q : ImportReport) → i.report_fails q ≡ false)
          × (is_ok (with_staging i records r site).0 ≡ false)
      → (with_staging i records r site).1.table ≡ site.table
  unfolding with_staging
  with_staging_untouched records (err e) site h = refl
  with_staging_untouched records (ok u) site h =
      let o = stage_records i site.table records empty_work in
      with_staged_untouched (length records) o.1.target o.0 (staged_site i o.1 site) h

  table-bulk_import :
      (records : List Fields) (site : Site)
      → (bulk_import i records site).1.table ≡ (attempt i records site).1.table
  unfolding bulk_import
  table-bulk_import records site = elim (Bool-cases i.drop_fails) [
    | inl stays ↦
        ap
          (λ b.
            (if b
              then (attempt i records site).1
              else record (attempt i records site).1 { staging = false }).table)
          stays
    | inr goes ↦
        ap
          (λ b.
            (if b
              then (attempt i records site).1
              else record (attempt i records site).1 { staging = false }).table)
          goes
  ]

  -- An import that only rehearses, that is cancelled, meets a fatal error or a lookup that cannot be
  -- enforced, or that throws although no report behind the promotion fails, leaves the target table as it
  -- was; and it leaves no staging table, unless the DROP fails.
  pub bulk_import-untouched :
      (records : List Fields) (site : Site)
      → (i.dry_run ≡ true)
        ⊎ (is_ok (stage_records i site.table records empty_work).0 ≡ false)
        ⊎ ((q : ImportReport) → i.report_fails q ≡ false)
          × (is_ok (bulk_import i records site).0 ≡ false)
      → ((bulk_import i records site).1.table ≡ site.table)
        × ((i.drop_fails ≡ true) ⊎ ((bulk_import i records site).1.staging ≡ false))
  unfolding bulk_import attempt
  bulk_import-untouched records site h = (
    table-bulk_import records site ∙ with_staging_untouched records i.create_staging site h,
    elim (Bool-cases i.drop_fails) [ inl stays ↦ inl stays | inr goes ↦ inr (dropped goes) ],
  )
    where
      dropped : i.drop_fails ≡ false → (bulk_import i records site).1.staging ≡ false
      dropped goes =
          ap
            (λ b.
              (if b
                then (attempt i records site).1
                else record (attempt i records site).1 { staging = false }).staging)
            goes

-- ===== src/Runner/Settles.antt =====
-- Every delivery is settled once, and leaves the worker's counters as they were.
use task_schedular.Prelude.{
  String, ◌≡◌, ◌⊎◌, refl, ◌∙◌, true, false, ◌∷◌, arith, inl, inr, Bool-cases,
}
use task_schedular.Prelude.Act.{
  Thrown, job_cancelled, error, Result, ok, err, is_ok, Act, try_catch,
}
use task_schedular.Contracts.Envelope.{JobEnvelope}
use task_schedular.Store.{Db}
use task_schedular.Runner.{
  ack, requeue, dead_letter, World, Config, Delivery, cancel_update, cancel_event, handle_failure,
  cancel, recover, on_db, attempt_job, run_claimed,
}

-- One settlement was added.
abbrev pub SettledOnce : World → World → Type 0
SettledOnce w w' =
    (w'.settled ≡ ack ∷ w.settled)
    ⊎ (w'.settled ≡ requeue ∷ w.settled)
    ⊎ (w'.settled ≡ dead_letter ∷ w.settled)

-- What does not throw has settled the message, what throws has not.
abbrev pub Settles : World → Result (Unit {0}) × World → Type 0
Settles w (r, w') =
    (is_ok r ≡ true) × SettledOnce w w' ⊎ (is_ok r ≡ false) × (w'.settled ≡ w.settled)

abbrev pub SameCounters : World → World → Type 0
SameCounters w w' = (w'.in_flight ≡ w.in_flight) × (w'.slots ≡ w.slots) × (w'.draining ≡ w.draining)

-- Both of these, for an outcome.
abbrev pub Good : World → Result (Unit {0}) × World → Type 0
Good w p = Settles w p × SameCounters w p.1

Good-after :
    (w w' : World) (p : Result (Unit {0}) × World)
    → w'.settled ≡ w.settled
    → SameCounters w w'
    → Good w' p
    → Good w p
Good-after w w' p e (ef, es, ed) (settles, (gf, gs, gd)) =
    (rw e at settles, (gf ∙ ef, gs ∙ es, gd ∙ ed))

try_catch-Good :
    (m : Act World (Unit {0})) (h : Thrown → Act World (Unit {0})) (w : World)
    → Good w (m w)
    → ((e : Thrown) (w' : World) → Good w' (h e w'))
    → Good w (try_catch m h w)
try_catch-Good m h w g k = go (m w) g
  where
    go :
        (p : Result (Unit {0}) × World)
        → Good w p
        → Good w (elim p.0 [ ok a ↦ (ok a, p.1) | err e ↦ h e p.1 ])
    go (ok a, w') good = good
    go (err e, w') (inl (fine, _), _) = absurd (cc fine)
    go (err e, w') (inr (_, same), counters) = Good-after w w' (h e w') same counters (k e w')

module _ (cfg : Config) (d : Delivery) where
  handle_failure-Settles :
      (env : JobEnvelope) (message : String) (w : World)
      → Good w (handle_failure cfg d env message w)
  unfolding handle_failure
  handle_failure-Settles env message w = ground arith

  cancel-Settles : (env : JobEnvelope) (w : World) → Good w (cancel cfg d env w)
  unfolding cancel
  cancel-Settles env w = elim (Bool-cases (d.fails cancel_update)) [
    | inl e ↦ rw e (inr (refl, refl), (refl, refl, refl))
    | inr e ↦ elim (Bool-cases (d.fails cancel_event)) [
      | inl e' ↦ rw (e, e') (inr (refl, refl), (refl, refl, refl))
      | inr e' ↦ rw (e, e') (inl (refl, inl refl), (refl, refl, refl))
    ]
  ]

  recover-Settles : (env : JobEnvelope) (e : Thrown) (w : World) → Good w (recover cfg d env e w)
  unfolding recover
  recover-Settles env job_cancelled w = cancel-Settles env w
  recover-Settles env (error message) w = handle_failure-Settles env message w

  module _ (execute : JobEnvelope → Act Db (Unit {0})) (env : JobEnvelope) (w : World) where
    attempt_job-Settles : Good w (attempt_job cfg d execute env w)
    unfolding attempt_job on_db
    attempt_job-Settles = ground arith

    pub run_claimed-Settles : Good w (run_claimed cfg d execute env w)
    unfolding run_claimed
    run_claimed-Settles =
        try_catch-Good (attempt_job cfg d execute env) (recover cfg d env) w attempt_job-Settles
          (recover-Settles env)

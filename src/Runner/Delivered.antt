-- ===== src/Runner/Delivered.antt =====
-- The whole handling of a delivery, from the gate to the wrapper of `start`.
use task_schedular.Prelude.{
  ℕ, ◌+◌, ◌-◌, String, ◌≡◌, ◌⊎◌, refl, ap, ◌∙◌, Bool, true, false, ◌&&◌, Option, none, some, arith,
  inl, inr, str_eq, eq_iff, if◌then◌else◌,
}
use task_schedular.Prelude.Act.{Result, ok, err, is_ok, Act, try_catch, pure, and_then, ◌>>=◌, ◌>>◌}
use task_schedular.Contracts.Envelope.{JobEnvelope}
use task_schedular.Store.{Db}
use task_schedular.Semaphore.{acquire_project_slot, release_project_slot}
use task_schedular.Runner.{
  requeue, settle, World, Mode, pooled, project_mode, Config, Delivery, run_claimed,
  read_project_limit, project_limit, acquire, release, defer, try_slot, gate, wind_up, admitted,
  drop_message, with_handler, handle, enter, on_message, consume,
}
use task_schedular.Runner.Settles.{SettledOnce, Settles, Good, run_claimed-Settles}

module _ (cfg : Config) (d : Delivery) (q : String) where
  -- The parts of the world that a step of the gate leaves alone.
  abbrev Quiet : World → World → Type 0
  Quiet w w' = (w'.settled ≡ w.settled) × (w'.in_flight ≡ w.in_flight) × (w'.draining ≡ w.draining)

  project_limit-Quiet :
      (p : String) (w : World)
      → Quiet w (project_limit cfg d p w).1 × ((project_limit cfg d p w).1.slots q ≡ w.slots q)
  unfolding project_limit read_project_limit
  project_limit-Quiet p w = ground arith

  acquire-Quiet :
      (p : String) (limit : ℕ) (w : World)
      → let (r, w') = acquire cfg d p limit w in
        Quiet w w'
        × ((r ≡ ok true) × (w'.slots q ≡ (if str_eq p q then w.slots q + 1 else w.slots q))
            ⊎ (r ≡ ok false) × (w'.slots q ≡ w.slots q)
            ⊎ (is_ok r ≡ false) × (w'.slots q ≡ w.slots q))
  unfolding acquire acquire_project_slot
  acquire-Quiet p limit w = ground (arith, eq_iff p q)

  defer-settles :
      (env : JobEnvelope) (w : World)
      → let (r, w') = defer cfg d env w in
        (r ≡ ok tt)
        × SettledOnce w w'
        × (w'.in_flight ≡ w.in_flight - 1)
        × (w'.draining ≡ w.draining)
        × (w'.slots q ≡ w.slots q)
  unfolding defer
  defer-settles env w = ground arith

  -- What the gate hands on: a settled message, or an untouched one with a slot or without.
  abbrev Passed : String → World → Result (Option Bool) × World → Type 0
  Passed p w (ok none, w') =
      SettledOnce w w'
      × (w'.in_flight ≡ w.in_flight - 1)
      × (w'.draining ≡ w.draining)
      × (w'.slots q ≡ w.slots q)
  Passed p w (ok (some a), w') =
      Quiet w w' × (w'.slots q ≡ (if a && str_eq p q then w.slots q + 1 else w.slots q))
  Passed p w (err e, w') = Quiet w w' × (w'.slots q ≡ w.slots q)

  -- The gate's steps, read backwards: behind the answer of Redis, behind the limit.
  slot_got :
      (env : JobEnvelope) (w : World) (a : Result Bool × World)
      → Quiet w a.1
      → (a.0 ≡ ok true)
          × (a.1.slots q ≡ (if str_eq env.project_id q then w.slots q + 1 else w.slots q))
        ⊎ (a.0 ≡ ok false) × (a.1.slots q ≡ w.slots q)
        ⊎ (is_ok a.0 ≡ false) × (a.1.slots q ≡ w.slots q)
      → Passed env.project_id w (
          and_then a.0
            (λ got. if got then pure (some true) else (do defer cfg d env; pure none))
            a.1)
  slot_got env w (ok true, w') quiet h = (quiet, ground arith)
  slot_got env w (ok false, w') quiet h =
      let deferred = defer-settles env w' in
      let slots : w'.slots q ≡ w.slots q = ground arith in rw deferred.0 (ground (arith, deferred))
  slot_got env w (err e, w') quiet h = (quiet, ground arith)

  slot_limit :
      (env : JobEnvelope) (w : World) (l : Result ℕ × World)
      → Quiet w l.1 × (l.1.slots q ≡ w.slots q)
      → Passed env.project_id w (
          and_then l.0
            (λ limit. acquire cfg d env.project_id limit >>= λ got.
              if got then pure (some true) else (do defer cfg d env; pure none))
            l.1)
  slot_limit env w (ok limit, w') (quiet, slots) =
      let a = acquire-Quiet env.project_id limit w' in
      slot_got env w (acquire cfg d env.project_id limit w') (ground (arith, a)) (ground (arith, a))
  slot_limit env w (err e, w') h = h

  try_slot-Passed : (env : JobEnvelope) (w : World) → Passed env.project_id w (try_slot cfg d env w)
  unfolding try_slot
  try_slot-Passed env w =
      slot_limit env w (project_limit cfg d env.project_id w) (project_limit-Quiet env.project_id w)

  -- The gate as a whole never throws.
  abbrev Gated : String → World → Result (Option Bool) × World → Type 0
  Gated p w (ok g, w') = Passed p w (ok g, w')
  Gated p w (err e, w') = ⊥

  caught :
      (p : String) (w : World) (r : Result (Option Bool) × World)
      → Passed p w r
      → Gated p w (elim r.0 [ ok g ↦ (ok g, r.1) | err e ↦ (ok (some false), r.1) ])
  caught p w (ok g, w') h = h
  caught p w (err e, w') h = h

  gate-Gated :
      (m : Mode) (env : JobEnvelope) (w : World) → Gated env.project_id w (gate cfg d m env w)
  unfolding gate
  gate-Gated pooled env w = caught env.project_id w (try_slot cfg d env w) (try_slot-Passed env w)
  gate-Gated (project_mode p) env w = ((refl, refl, refl), refl)

  -- What is true of a handled message, taken into account that it was counted on entry.
  abbrev Handled : World → Result (Unit {0}) × World → Type 0
  Handled w (r, w') =
      Settles w (r, w')
      × (w'.in_flight ≡ w.in_flight - 1)
      × (w'.draining ≡ w.draining)
      × (d.release_fails ≡ false → w'.slots q ≡ w.slots q)

  wind_up-settled :
      (env : JobEnvelope) (a : Bool) (w : World) → (wind_up cfg d env a w).settled ≡ w.settled
  unfolding wind_up release
  wind_up-settled env a w = ground arith

  wound_up :
      (env : JobEnvelope) (a : Bool) (w w' : World) (r : Result (Unit {0}) × World)
      → Passed env.project_id w (ok (some a), w')
      → Good w' r
      → Handled w (r.0, wind_up cfg d env a r.1)
  unfolding wind_up release release_project_slot
  wound_up env true w w' r ((es, ef, ed), slots) (settles, (gf, gs, gd)) =
      let at_q = ap (λ (f : String → ℕ). f q) gs in
      (
        rw (wind_up-settled env true r.1) (rw es at settles),
        ground arith,
        ground arith,
        λ h. ground (arith, at_q, eq_iff env.project_id q),
      )
  wound_up env false w w' r ((es, ef, ed), slots) (settles, (gf, gs, gd)) =
      let at_q = ap (λ (f : String → ℕ). f q) gs in
      (rw es at settles, ground arith, ground arith, λ h. ground (arith, at_q))

  admitted-Handled :
      (execute : JobEnvelope → Act Db (Unit {0})) (env : JobEnvelope) (w : World)
      (g : Result (Option Bool) × World)
      → Gated env.project_id w g
      → Handled w (and_then g.0 (λ x. admitted cfg d execute env x) g.1)
  unfolding admitted
  admitted-Handled execute env w (ok none, w') (once, f, dr, sl) =
      (inl (refl, once), f, dr, λ h. sl)
  admitted-Handled execute env w (ok (some a), w') passed =
      wound_up env a w w' (run_claimed cfg d execute env w') passed
        (run_claimed-Settles cfg d execute env w')
  admitted-Handled execute env w (err e, w') h = elim h [ ]

  dropped : (w : World) → Handled w (drop_message cfg d w)
  unfolding drop_message
  dropped w = (inl (refl, inr (inr refl)), refl, refl, λ h. refl)

  with_handler-Handled :
      (env : JobEnvelope) (o : Option (JobEnvelope → Act Db (Unit {0}))) (w : World)
      → Handled w (with_handler cfg d env o w)
  unfolding with_handler
  with_handler-Handled env none w = dropped w
  with_handler-Handled env (some execute) w =
      admitted-Handled execute env w (gate cfg d cfg.mode env w) (gate-Gated cfg.mode env w)

  handle-Handled : (m : Option JobEnvelope) (w : World) → Handled w (handle cfg d m w)
  unfolding handle
  handle-Handled none w = dropped w
  handle-Handled (some env) w = with_handler-Handled env (cfg.handlers env.type) w

  -- The wrapper settles what the handling left unsettled.
  wrapped :
      (w : World) (r : Result (Unit {0}) × World)
      → Settles w r
      → let w' : World = (try_catch (λ w''. r) (λ e. settle requeue) w).1 in
        SettledOnce w w'
        × (w'.in_flight ≡ r.1.in_flight)
        × (w'.draining ≡ r.1.draining)
        × (w'.slots q ≡ r.1.slots q)
  wrapped w (ok a, w') h = ground arith
  wrapped w (err e, w') h = ground arith

  entered :
      (b : Bool) (w : World)
      → let w' : World = (try_catch (enter cfg d b) (λ e. settle requeue) w).1 in
        SettledOnce w w'
        × (w'.in_flight ≡ w.in_flight)
        × (w'.draining ≡ w.draining)
        × (d.release_fails ≡ false → w'.slots q ≡ w.slots q)
  unfolding enter
  entered true w = (inr (inl refl), refl, refl, λ h. refl)
  entered false w =
      let w₁ : World = record w { in_flight = w.in_flight + 1 } in
      let (settles, f, dr, sl) = handle-Handled d.message w₁ in
      let (once, wf, wd, ws) = wrapped w₁ (handle cfg d d.message w₁) settles in
      (once, omega (arith, wf, f), wd ∙ dr, λ h. ws ∙ sl h)

-- Whatever the queries, Redis, the broker and the handler do, a delivery is settled exactly once,
-- by one ack, one requeue or one dead-lettering, and afterwards the worker counts as many messages in
-- flight as before and is draining as before.
pub consume-settles_once :
    (cfg : Config) (d : Delivery) (w : World)
    → let w' = consume cfg d w in
      SettledOnce w w' × (w'.in_flight ≡ w.in_flight) × (w'.draining ≡ w.draining)
unfolding consume on_message
consume-settles_once cfg d w =
    let (once, flight, drains, _) = entered cfg d "" w.draining w in (once, flight, drains)

-- Where the release of a slot does not fail, a delivery leaves the worker with as many slots of every
-- project as before, whatever else fails.
pub consume-slots :
    (cfg : Config) (d : Delivery) (w : World) (q : String)
    → d.release_fails ≡ false
    → (consume cfg d w).slots q ≡ w.slots q
unfolding consume on_message
consume-slots cfg d w q h = let (_, _, _, slots) = entered cfg d q w.draining w in slots h

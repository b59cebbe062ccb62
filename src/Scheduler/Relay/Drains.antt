-- ===== src/Scheduler/Relay/Drains.antt =====
-- Invariants of the outbox under the relay.
use task_schedular.Prelude.{
  ℕ, ◌+◌, ◌<◌, String, ◌≡◌, inl, inr, Bool, true, false, List, [], ◌∷◌, arith, str_eq, eq_iff,
  eq_refl, any, update_where, All, Bool-cases, if◌then◌else◌,
}
use task_schedular.Prelude.Act.{Result, ok, err, and_then}
use task_schedular.Messaging.Publisher.{confirmed, accepted, accepted-confirmed}
use task_schedular.Store.{pending, sent, OutboxRow}
use task_schedular.Scheduler.Relay.{
  handed, Sending, Channel, Drain, message_of, marked_sent, marked_failed, relay_row, relay_rows,
  selected, tick,
}

abbrev pub was_published : String → List Sending → Bool
was_published id l = any (λ x. str_eq x.row id) l

-- A row that is `sent` has been accepted by the broker, and the attempts keep to the limit: a row
-- that is still pending has been tried less often.
pub record IsSound (max_attempts : ℕ) (c : Channel) : Type 0 where
  pub sent_rows : All (λ x. x.status ≡ sent → was_published x.id c.published ≡ true) c.outbox
  pub tries : All (λ x. x.status ≡ pending → x.attempts < max_attempts) c.outbox

All-update :
    (P Q : OutboxRow → Type 0) (p : OutboxRow → Bool) (f : OutboxRow → OutboxRow)
    (xs : List OutboxRow)
    → ((x : OutboxRow) → P x → p x ≡ false → Q x)
    → ((x : OutboxRow) → P x → p x ≡ true → Q (f x))
    → All P xs
    → All Q (update_where p f xs)
All-update P Q p f [] other own h = tt
All-update P Q p f (x ∷ xs) other own (hx, h) = elim (Bool-cases (p x)) [
  | inl e ↦ rw e (own x hx e, All-update P Q p f xs other own h)
  | inr e ↦ rw e (other x hx e, All-update P Q p f xs other own h)
]

All-mono :
    (P Q : OutboxRow → Type 0) (xs : List OutboxRow)
    → ((x : OutboxRow) → P x → Q x)
    → All P xs
    → All Q xs
All-mono P Q [] k h = tt
All-mono P Q (x ∷ xs) k (hx, h) = (k x hx, All-mono P Q xs k h)

abbrev Sent : List Sending → OutboxRow → Type 0
Sent l x = x.status ≡ sent → was_published x.id l ≡ true

abbrev Tried : ℕ → OutboxRow → Type 0
Tried m x = x.status ≡ pending → x.attempts < m

Sent-more : (s : Sending) (l : List Sending) (x : OutboxRow) → Sent l x → Sent (s ∷ l) x
Sent-more s l x h e = ground (arith, h e)

published-IsSound :
    (s : Sending) {m : ℕ} (c : Channel)
    → IsSound m c
    → IsSound m (record c { published = s ∷ c.published })
published-IsSound s c v = record {
  sent_rows =
      All-mono (Sent c.published) (Sent (s ∷ c.published)) c.outbox (Sent-more s c.published)
        v.sent_rows;
  tries = v.tries;
}

marked_sent-IsSound :
    (now : ℕ) (id : String) {m : ℕ} (c : Channel)
    → was_published id c.published ≡ true
    → IsSound m c
    → IsSound m
        (record c { outbox = update_where (λ x. str_eq x.id id) (marked_sent now) c.outbox })
marked_sent-IsSound now id {m} c there v = record {
  sent_rows =
      All-update (Sent c.published) (Sent c.published) _ (marked_sent now) c.outbox (λ x h e. h)
        (λ x h e s. let same : x.id ≡ id = (eq_iff x.id id).0 e in rw same there) v.sent_rows;
  tries =
      All-update (Tried m) (Tried m) _ (marked_sent now) c.outbox (λ x h e. h)
        (λ x h e p. absurd (cc p)) v.tries;
}

marked_failed-IsSound :
    (id : String) (m attempts : ℕ) (c : Channel)
    → IsSound m c
    → IsSound m (record c {
      outbox = update_where (λ x. str_eq x.id id) (marked_failed m attempts) c.outbox;
    })
marked_failed-IsSound id m attempts c v = record {
  sent_rows =
      All-update (Sent c.published) (Sent c.published) _ (marked_failed m attempts) c.outbox
        (λ x h e. h) (λ x h e s. ground arith) v.sent_rows;
  tries =
      All-update (Tried m) (Tried m) _ (marked_failed m attempts) c.outbox (λ x h e. h)
        (λ x h e p. ground arith) v.tries;
}

handed-IsSound :
    {m : ℕ} (row : OutboxRow) (taken : Bool) (c : Channel)
    → IsSound m c
    → IsSound m (handed row taken c)
handed-IsSound row true c v =
    published-IsSound (record { row = row.id; message = message_of row }) c v
handed-IsSound row false c v = v

module _ (d : Drain) where
  relay_row-IsSound :
      (row : OutboxRow) (c : Channel)
      → IsSound d.max_attempts c
      → IsSound d.max_attempts (relay_row d row c).1
  unfolding relay_row
  relay_row-IsSound row c v =
      let taken = accepted (d.confirm row.id) in
      let c' = handed row taken c in
      let v' = handed-IsSound row taken c v in
      elim (Bool-cases (confirmed (d.confirm row.id))) [
        | inl yes_sent ↦
            let there : was_published row.id c'.published ≡ true =
              rw (accepted-confirmed (d.confirm row.id) yes_sent, eq_refl row.id) in
            elim (Bool-cases (d.update_fails row.id)) [
              | inl e ↦ rw (yes_sent, e) v'
              | inr e ↦ rw (yes_sent, e) (marked_sent-IsSound d.now row.id c' there v')
            ]
        | inr not_sent ↦ elim (Bool-cases (d.update_fails row.id)) [
          | inl e ↦ rw (not_sent, e) v'
          | inr e ↦
              rw (not_sent, e)
                (marked_failed-IsSound row.id d.max_attempts (row.attempts + 1) c' v')
        ]
      ]

  relay_rows-IsSound :
      (count : ℕ) (rows : List OutboxRow) (c : Channel)
      → IsSound d.max_attempts c
      → IsSound d.max_attempts (relay_rows d count rows c).1
  unfolding relay_rows
  relay_rows-IsSound count [] c v = v
  relay_rows-IsSound count (row ∷ rows) c v =
      next (relay_row d row c) (λ n c'. relay_rows-IsSound n rows c') (relay_row-IsSound row c v)
    where
      next :
          (r : Result Bool × Channel)
          → ((n : ℕ) (c' : Channel)
              → IsSound d.max_attempts c'
              → IsSound d.max_attempts (relay_rows d n rows c').1)
          → IsSound d.max_attempts r.1
          → IsSound d.max_attempts
              (and_then r.0 (λ hit. relay_rows d (if hit then count + 1 else count) rows) r.1).1
      next (ok hit, c') ih h = ih _ c' h
      next (err e, c') ih h = h

  -- What is published stays published.
  relay_row-grows :
      (row : OutboxRow) (id : String) (c : Channel)
      → was_published id c.published ≡ true
      → was_published id (relay_row d row c).1.published ≡ true
  unfolding relay_row
  relay_row-grows row id c h = ground arith

  relay_rows-grows :
      (count : ℕ) (rows : List OutboxRow) (id : String) (c : Channel)
      → was_published id c.published ≡ true
      → was_published id (relay_rows d count rows c).1.published ≡ true
  unfolding relay_rows
  relay_rows-grows count [] id c h = h
  relay_rows-grows count (row ∷ rows) id c h =
      next (relay_row d row c) (λ n c'. relay_rows-grows n rows id c') (relay_row-grows row id c h)
    where
      next :
          (r : Result Bool × Channel)
          → ((n : ℕ) (c' : Channel)
              → was_published id c'.published ≡ true
              → was_published id (relay_rows d n rows c').1.published ≡ true)
          → was_published id r.1.published ≡ true
          → was_published id
              (and_then r.0
                (λ hit. relay_rows d (if hit then count + 1 else count) rows)
                r.1).1.published
            ≡ true
      next (ok hit, c') ih h' = ih _ c' h'
      next (err e, c') ih h' = h'

  rolled_back :
      (c : Channel) (r : Result ℕ × Channel)
      → IsSound d.max_attempts c
      → IsSound d.max_attempts r.1
      → ((id : String)
          → was_published id c.published ≡ true
          → was_published id r.1.published ≡ true)
      → IsSound d.max_attempts
          (elim r.0 as (λ x. Result ℕ × Channel) [
            | ok n ↦ (ok n, r.1)
            | err e ↦ (err e, record (r.1) { outbox = c.outbox })
          ]).1
  rolled_back c (ok n, c') v v' grows = v'
  rolled_back c (err e, c') v v' grows = record {
    sent_rows =
        All-mono (Sent c.published) (Sent c'.published) c.outbox (λ x h s. grows x.id (h s))
          v.sent_rows;
    tries = v.tries;
  }

-- Every drain keeps the outbox sound: a row is `sent` only if the broker has accepted its message,
-- and a row stays pending only below the limit of attempts. This holds also where the drain is rolled
-- back, so that a row whose message is already published is pending again.
pub tick-IsSound :
    (d : Drain) (c : Channel) → IsSound d.max_attempts c → IsSound d.max_attempts (tick d c).1
unfolding tick
tick-IsSound d c v =
    rolled_back d c (relay_rows d 0 (selected d c.outbox) c) v
      (relay_rows-IsSound d 0 (selected d c.outbox) c v)
      (λ id. relay_rows-grows d 0 (selected d c.outbox) id c)

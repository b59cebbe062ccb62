-- ===== src/Edge/Push/Counts.antt =====
-- What a push counts, and how its job ends.
use task_schedular.Prelude.{
  ℕ, zero, suc, ◌+◌, ◌<◌, String, Bool, true, false, Option, some, List, [], ◌∷◌, take, map, length,
  length-append, ◌≡◌, refl, sym, ap, ◌∙◌, arith,
}
use task_schedular.Prelude.Act.{Result, ok, err, is_ok}
use task_schedular.Contracts.Json.{Json, Fields, arr}
use task_schedular.Targets.Batches.{
  drop, take-drop, slices, slices_fuel, slices_fuel-slices, joined, joined-slices,
}
use task_schedular.Worker.{JobContext}
use task_schedular.Edge.Http.{Wire, post_json}
use task_schedular.Edge.{World, Outside, of_list, text_field}
use task_schedular.Edge.Push.{
  Pushed, BatchLogs, push_batch, push_batches, count_posted, source_row, push_options,
}

some_taken : (size : ℕ) (r : Fields) (rs : List Fields) → 0 < size → 0 < length (take size (r ∷ rs))
some_taken zero r rs h = absurd (omega arith)
some_taken (suc n) r rs h = omega arith

-- The rows of the posts that went through, and of those that did not
abbrev pub accepted_rows : List (ℕ × Bool) → ℕ
accepted_rows [] = 0
accepted_rows ((n, true) ∷ posts) = n + accepted_rows posts
accepted_rows ((n, false) ∷ posts) = accepted_rows posts

abbrev pub refused_rows : List (ℕ × Bool) → ℕ
refused_rows [] = 0
refused_rows ((n, true) ∷ posts) = refused_rows posts
refused_rows ((n, false) ∷ posts) = n + refused_rows posts

abbrev pub counted : ℕ → Bool → Pushed → Pushed
counted n true counts = record counts { pushed = counts.pushed + n }
counted n false counts = record counts { failed = counts.failed + n }

module _ {RuleSet : Type 0} (o : Outside) (logs : BatchLogs) (text : Json → String)
    (c : JobContext RuleSet) (url : String) (size : ℕ) where
  -- One post of some rows
  abbrev pub post : List Fields → Wire → Result (Unit {0}) × Wire
  post batch =
      post_json o.net url (arr (of_list (map (source_row o logs text c url size) batch)))
        (text_field "token" (push_options o logs text c url size)) c.project.allowlist_hosts

  -- The posts of some batches in order: the rows of each, and whether it went through
  abbrev pub posts : List (List Fields) → Wire → List (ℕ × Bool) × Wire
  posts [] wire = ([], wire)
  posts (batch ∷ batches) wire =
      let (r, wire') = post batch wire in
      let (later, last) = posts batches wire' in ((length batch, is_ok r) ∷ later, last)

  module _ (quiet : (k : ℕ) → (logs.pushed_fails k ≡ false) × (logs.failed_fails k ≡ false)) where
    count_posted-counted :
        (k n : ℕ) (counts : Pushed) (r : Result (Unit {0})) (w : World)
        → count_posted o logs text c url size k n counts r w ≡ (ok (counted n (is_ok r) counts), w)
    count_posted-counted k n counts (err e) w = rw (quiet k).1 refl
    count_posted-counted k n counts (ok u) w = rw (quiet k).0 refl

    pub push_batch-counted :
        (k : ℕ) (batch : List Fields) (counts : Pushed) (w : World)
        → let (r, wire) = post batch w.wire in
          push_batch o logs text c url size k batch counts w
          ≡ (ok (counted (length batch) (is_ok r) counts), record w { wire = wire })
    unfolding push_batch
    push_batch-counted k batch counts w =
        let (r, wire) = post batch w.wire in
        count_posted-counted k (length batch) counts r (record w { wire = wire })

    -- With a positive size the loop ends, if it may run once more than there are rows, and its counts are
    -- those of the posts of the slices.
    abbrev pub Finished : ℕ → List Fields → Pushed → World → Result (Option Pushed) × World → Type 0
    Finished fuel rows before w r =
        let (made, wire) = posts (slices_fuel fuel size rows) w.wire in
        (after : Pushed) × (r ≡ (ok (some after), record w { wire = wire }))
        × (after.pushed ≡ before.pushed + accepted_rows made)
        × (after.failed ≡ before.failed + refused_rows made)

    after_batch :
        (n : ℕ) (went : Bool) (made : List (ℕ × Bool)) (before after : Pushed)
        → after.pushed ≡ (counted n went before).pushed + accepted_rows made
        → after.failed ≡ (counted n went before).failed + refused_rows made
        → (after.pushed ≡ before.pushed + accepted_rows ((n, went) ∷ made))
          × (after.failed ≡ before.failed + refused_rows ((n, went) ∷ made))
    after_batch n true made before after h k = (omega (arith, h), omega (arith, k))
    after_batch n false made before after h k = (omega (arith, h), omega (arith, k))

    pub push_batches-Finished :
        0 < size
        → (fuel k : ℕ) (rows : List Fields) (counts : Pushed) (w : World) → length rows < fuel
        → Finished fuel rows counts w (push_batches o logs text c url size fuel k rows counts w)
    unfolding push_batches slices_fuel
    push_batches-Finished positive zero k rows counts w enough = absurd (omega arith)
    push_batches-Finished positive (suc fuel) k [] counts w enough =
        (counts, refl, omega arith, omega arith)
    push_batches-Finished positive (suc fuel) k (r ∷ rs) counts w enough =
        let batch = take size (r ∷ rs) in
        let rest = drop size (r ∷ rs) in
        let (res, wire) = post batch w.wire in
        let parts : length batch + length rest ≡ length (r ∷ rs) =
          sym (length-append batch rest) ∙ ap length (take-drop size (r ∷ rs)) in
        let (after, e, p, f) =
          push_batches-Finished positive fuel (suc k) rest
            (counted (length batch) (is_ok res) counts) (record w { wire = wire })
            (omega (arith, parts, enough, some_taken size r rs positive)) in
        let made = (posts (slices_fuel fuel size rest) wire).0 in
        let (p', f') = after_batch (length batch) (is_ok res) made counts after p f in
        (after, rw (push_batch-counted k batch counts w, e) refl, p', f')

    accepted-refused :
        (batches : List (List Fields)) (wire : Wire)
        → let made = (posts batches wire).0 in
          accepted_rows made + refused_rows made ≡ length (joined batches)
    accepted-refused [] wire = omega arith
    accepted-refused (batch ∷ batches) wire =
        let (r, wire') = post batch wire in
        either (length batch) (is_ok r) (posts batches wire').0 (length (joined batch_rest))
          (accepted-refused batches wire')
        ∙ sym (length-append batch (joined batch_rest))
      where
        batch_rest : List (List Fields)
        batch_rest = batches

        either :
            (n : ℕ) (went : Bool) (made : List (ℕ × Bool)) (m : ℕ)
            → accepted_rows made + refused_rows made ≡ m
            → accepted_rows ((n, went) ∷ made) + refused_rows ((n, went) ∷ made) ≡ n + m
        either n true made m h = omega (arith, h)
        either n false made m h = omega (arith, h)

    -- The same over the slices of the rows, which are all rows
    pub push_batches-slices :
        0 < size
        → (fuel k : ℕ) (rows : List Fields) (w : World) → length rows < fuel
        → let (made, wire) = posts (slices size rows) w.wire in
          (after : Pushed) × (push_batches o logs text c url size fuel k rows
              (record { pushed = 0; failed = 0 })
              w
            ≡ (ok (some after), record w { wire = wire }))
          × (after.pushed ≡ accepted_rows made)
          × (after.failed ≡ refused_rows made)
          × (after.pushed + after.failed ≡ length rows)
    unfolding slices
    push_batches-slices positive fuel k rows w enough =
        let same : slices_fuel fuel size rows ≡ slices_fuel (length rows) size rows =
          slices_fuel-slices fuel (length rows) size rows positive (omega (arith, enough))
            (omega arith) in
        let start : Pushed = record { pushed = 0; failed = 0 } in
        let ended : Finished (length rows) rows start w
            (push_batches o logs text c url size fuel k rows start w) =
          rw (sym same) (push_batches-Finished positive fuel k rows start w enough) in
        let (after, e, p, f) = ended in
        let all = accepted-refused (slices_fuel (length rows) size rows) w.wire in
        let whole = ap length (joined-slices size rows positive) in
        (after, e, omega (arith, p), omega (arith, f), omega (arith, p, f, all, whole))

-- ===== src/Edge/Http/Waits.antt =====
-- How long a call waits between its attempts.
use native.Mathlib.Nat.{two-pow-succ, zero-add}
use task_schedular.Prelude.{
  Option, ◌∷◌, List, ℕ, zero, suc, ◌+◌, ◌*◌, ◌^◌, ◌≤◌, String, length, ◌≡◌, arith,
}
use task_schedular.Contracts.Json.{Json}
use task_schedular.Edge.Http.{
  Request, Net, Wire, Attempt, send, give_up, pause, with_backoff, call, label, fetch_json,
  post_json, get_request, post_request, as_json, as_text,
}

-- The longest time that `left` pauses from the attempt `k` on take
abbrev pauses : ℕ → ℕ → ℕ → ℕ
pauses base zero k = 0
pauses base (suc left) k = base * 2 ^ k + base + pauses base left (suc k)

pauses_sum :
    (base left k : ℕ) → pauses base left k + base * 2 ^ k ≡ base * 2 ^ (k + left) + left * base
pauses_sum base zero k = grind arith
pauses_sum base (suc left) k =
    let e : 2 ^ suc k ≡ 2 ^ k + 2 ^ k = two-pow-succ k in
    let d : base * 2 ^ suc k ≡ base * 2 ^ k + base * 2 ^ k = rw e (grind arith) in
    let f : k + suc left ≡ suc k + left = omega arith in
    rw f (grind (arith, d, pauses_sum base left (suc k)))

module _ (net : Net) (small : (n : ℕ) → net.jitter n ≤ net.backoff_base_ms) where
  pause_waited :
      (k : ℕ) (w : Wire)
      → (pause net k w).waited ≤ w.waited + net.backoff_base_ms * 2 ^ k + net.backoff_base_ms
  unfolding pause
  pause_waited k w = omega (arith, small (length w.requests))

  with_backoff_waited {ℓ} :
      {A : Type ℓ} (read : Option Json → Attempt A) (r : Request) (left k : ℕ) (name : String)
      (w : Wire)
      → (with_backoff net left k name (send net r read) w).1.waited
        ≤ w.waited + pauses net.backoff_base_ms left k
  unfolding with_backoff send give_up
  with_backoff_waited read r zero k name w = ground (arith)
  with_backoff_waited read r (suc left) k name w = ground (
    arith,
    with_backoff_waited read r left (suc k) name
        (pause net k (record w { requests = r ∷ w.requests })),
    pause_waited k (record w { requests = r ∷ w.requests }),
  )

  call_waited {ℓ} :
      {A : Type ℓ} (read : Option Json → Attempt A) (r : Request) (allowlist : List String)
      (w : Wire)
      → (call net r allowlist read w).1.waited ≤ w.waited + pauses net.backoff_base_ms net.retries 0
  unfolding call
  call_waited read r allowlist w =
      ground (arith, with_backoff_waited read r net.retries 0 (label r) w)

  call_longest {ℓ} :
      {A : Type ℓ} (read : Option Json → Attempt A) (r : Request) (allowlist : List String)
      (w : Wire)
      → (call net r allowlist read w).1.waited + net.backoff_base_ms
        ≤ w.waited + (net.backoff_base_ms * 2 ^ net.retries + net.retries * net.backoff_base_ms)
  call_longest read r allowlist w =
      let none_before : 0 + net.retries ≡ net.retries = zero-add net.retries in
      let sum = pauses_sum net.backoff_base_ms net.retries 0 in
      omega (arith, rw none_before at sum, call_waited read r allowlist w)

  -- The pauses of a fetch or a post, with `r` retries and the base `b`, sum up to at most
  -- b * (2 ^ r - 1) + r * b, if the random part of a pause is at most `b`.
  pub fetch_json_waited :
      (url : String) (body : Json) (token : Option String) (allowlist : List String) (w : Wire)
      → let longest = net.backoff_base_ms * 2 ^ net.retries + net.retries * net.backoff_base_ms in
        ((fetch_json net url token allowlist w).1.waited + net.backoff_base_ms ≤ w.waited + longest)
        × ((post_json net url body token allowlist w).1.waited + net.backoff_base_ms
            ≤ w.waited + longest)
  unfolding fetch_json post_json
  fetch_json_waited url body token allowlist w = (
    call_longest as_json (get_request net url token) allowlist w,
    call_longest as_text (post_request net url body token) allowlist w,
  )

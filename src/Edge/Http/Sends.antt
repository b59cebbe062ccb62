-- ===== src/Edge/Http/Sends.antt =====
-- Which requests a call makes.
use task_schedular.Prelude.{
  ℕ, zero, suc, ◌≤◌, String, false, Option, some, List, [], ◌∷◌, ◌++◌, append_assoc, All, length,
  length-append, ◌≡◌, ◌≢◌, ◌⊎◌, inl, inr, refl, arith, Bool-cases, Option-cases, eq_iff, true, ap,
  sym, ◌∙◌,
}
use task_schedular.Prelude.Act.{Result, ok, err, Thrown}
use task_schedular.Contracts.Json.{Json}
use task_schedular.Security.{assert_host_allowed, blocked}
use task_schedular.Security.Egress.{assert_host_allowed_iff}
use task_schedular.Edge.Http.{
  Request, Url, Net, Wire, Failure, Attempt, done, broke, is_retryable, send, judge, give_up, pause,
  with_backoff, guard, call, is_web, fetch_json, post_json, get_request, post_request, as_json,
  as_text, settle_attempt, label,
}

-- Behind the first state, at most `n` requests were made, all of them `r`.
pub record Sends (r : Request) (n : ℕ) (w w' : Wire) : Type 0 where
  pub made : List Request
  pub after : w'.requests ≡ made ++ w.requests
  pub same_request : All (λ q. q ≡ r) made
  pub bounded : length made ≤ n

-- What the guard lets through
abbrev pub Accepted : Net → List String → String → Type 0
Accepted net allowlist url =
    (u : Url) × (ips : List String) × (net.parse_url url ≡ some u)
    × ((u.protocol ≡ "http:") ⊎ (u.protocol ≡ "https:"))
    × (net.addresses.lookup u.hostname ≡ some ips)
    × (ips ≢ [])
    × All (λ ip. blocked net.addresses u.hostname (net.env_allowlist ++ allowlist) ip ≡ false) ips

module _ (r : Request) where
  one_request-Sends :
      (w : Wire) (n : ℕ) → Sends r (suc n) w (record w { requests = r ∷ w.requests })
  one_request-Sends w n = record {
    made = r ∷ [];
    after = refl;
    same_request = (refl, tt);
    bounded = omega arith;
  }

  All-append :
      (xs ys : List Request)
      → All (λ q. q ≡ r) xs
      → All (λ q. q ≡ r) ys
      → All (λ q. q ≡ r) (xs ++ ys)
  All-append [] ys h k = k
  All-append (x ∷ xs) ys (e, h) k = (e, All-append xs ys h k)

  -- One more request in front of those
  one_more-Sends :
      (n : ℕ) (w w' w'' : Wire)
      → w'.requests ≡ r ∷ w.requests
      → Sends r n w' w''
      → Sends r (suc n) w w''
  one_more-Sends n w w' w'' e s = record {
    made = s.made ++ (r ∷ []);
    after = s.after ∙ ap (λ q. s.made ++ q) e ∙ sym (append_assoc s.made (r ∷ []) w.requests);
    same_request = All-append s.made (r ∷ []) s.same_request (refl, tt);
    bounded = omega (arith, s.bounded, length-append s.made (r ∷ []));
  }

  settle_attempt-Sends {ℓ} :
      {A : Type ℓ} (net : Net) (n : ℕ) (w w' : Wire) (next : Failure → Wire → Result A × Wire)
      (o : Attempt A)
      → Sends r n w w'
      → ((f : Failure) → Sends r n w (next f w').1)
      → Sends r n w (settle_attempt net next (o, w')).1
  settle_attempt-Sends net n w w' next (done a) s more = s
  settle_attempt-Sends net n w w' next (broke f) s more = more f

  module _ (net : Net) where
    with_backoff-Sends {ℓ} :
        {A : Type ℓ} (read : Option Json → Attempt A) (left k : ℕ) (name : String) (w : Wire)
        → Sends r (suc left) w (with_backoff net left k name (send net r read) w).1
    unfolding with_backoff send give_up pause
    with_backoff-Sends read zero k name w =
        settle_attempt-Sends net 1 w (record w { requests = r ∷ w.requests }) (give_up net name)
          (judge r read (net.answer (length w.requests) r)) (one_request-Sends w 0)
          (λ f. one_request-Sends w 0)
    with_backoff-Sends read (suc left) k name w =
        settle_attempt-Sends net (suc (suc left)) w (record w { requests = r ∷ w.requests }) _
          (judge r read (net.answer (length w.requests) r)) (one_request-Sends w (suc left))
          (λ f. elim (Bool-cases (is_retryable f)) [
            | inl again ↦ rw again (
                one_more-Sends (suc left) w (pause net k (record w { requests = r ∷ w.requests }))
                  (with_backoff net left (suc k) name (send net r read)
                    (pause net k (record w { requests = r ∷ w.requests }))).1
                  refl
                  (with_backoff-Sends read left (suc k) name
                    (pause net k (record w { requests = r ∷ w.requests }))))
            | inr permanent ↦ rw permanent (one_request-Sends w (suc left))
          ])

Result-cases {ℓ} :
    {A : Type ℓ} (o : Result A) → ((a : A) × (o ≡ ok a)) ⊎ ((e : Thrown) × (o ≡ err e))
Result-cases (ok a) = inl (a, refl)
Result-cases (err e) = inr (e, refl)

is_web_cases :
    (net : Net) (u : Url) → is_web net u ≡ true → (u.protocol ≡ "http:") ⊎ (u.protocol ≡ "https:")
is_web_cases net u h = ground (arith, eq_iff u.protocol "http:", eq_iff u.protocol "https:")

module _ (net : Net) (allowlist : List String) where
  guard-Accepted : (url : String) → guard net url allowlist ≡ ok tt → Accepted net allowlist url
  unfolding guard
  guard-Accepted url h = elim (Option-cases (net.parse_url url)) [
    | inl e ↦ cc (rw (e, guard) at h)
    | inr (u, e) ↦ elim (Bool-cases (is_web net u)) [
      | inr other ↦ cc (rw (e, guard, other) at h)
      | inl web ↦
          elim (Result-cases
            (assert_host_allowed net.addresses u.hostname (net.env_allowlist ++ allowlist))) [
              | inr (_, refused) ↦ cc (rw (e, guard, web, refused) at h)
              | inl (ips, allowed) ↦
                  let (found, some_ip, free) =
                    (assert_host_allowed_iff net.addresses u.hostname
                        (net.env_allowlist ++ allowlist) ips).0
                      allowed in
                  (u, ips, e, is_web_cases net u web, found, some_ip, free)
            ]
    ]
  ]

  -- A call makes only its own request, at most once more than there are retries, and none unless the
  -- guard lets its URL through.
  abbrev pub Guarded : Request → Wire → Wire → Type 0
  Guarded r w w' =
      Sends r (suc net.retries) w w' × ((w'.requests ≡ w.requests) ⊎ Accepted net allowlist r.url)

  call-Guarded {ℓ} :
      {A : Type ℓ} (r : Request) (read : Option Json → Attempt A) (w : Wire)
      → Guarded r w (call net r allowlist read w).1
  unfolding call
  call-Guarded r read w = elim (Result-cases (guard net r.url allowlist)) [
    | inr (e, refused) ↦
        rw refused
          (record { made = []; after = refl; same_request = tt; bounded = omega arith }, inl refl)
    | inl (tt, passed) ↦
        rw passed (
          with_backoff-Sends r net read net.retries 0 (label r) w,
          inr (guard-Accepted r.url passed),
        )
  ]

  -- A fetch and a post make only their own request, at most once more than there are retries, and none
  -- unless the URL is of http or https and its host is found, with addresses none of which is blocked.
  pub fetch_json-Guarded :
      (url : String) (body : Json) (token : Option String) (w : Wire)
      → Guarded (get_request net url token) w (fetch_json net url token allowlist w).1
        × Guarded (post_request net url body token) w (post_json net url body token allowlist w).1
  unfolding fetch_json post_json
  fetch_json-Guarded url body token w = (
    call-Guarded (get_request net url token) as_json w,
    call-Guarded (post_request net url body token) as_text w,
  )

-- ===== src/Edge/Http.antt =====
-- services/worker-edge/src/http.ts: HTTP calls behind the egress guard, repeated with backoff. What the
-- servers answer, the URL parser, DNS and the random parts of the pauses are arguments.
pub mod Sends
pub mod Waits
use Prim.Native.String.{◌++◌ as append}
use task_schedular.Prelude.{
  ℕ, zero, suc, ◌+◌, ◌*◌, ◌^◌, String, Bool, true, ◌&&◌, ◌||◌, not, Option, none, some, List, ◌∷◌,
  ◌++◌, length, str_eq, ltb, leb, ◌==◌, if◌then◌else◌,
}
use task_schedular.Prelude.Show.{show}
use task_schedular.Prelude.Act.{
  Result, ok, err, Thrown, error, Act, pure, throw, and_then, ◌>>=◌, ◌>>◌,
}
use task_schedular.Contracts.Common.{truthy_text}
use task_schedular.Contracts.Json.{Json}
use task_schedular.Security.{Addresses, assert_host_allowed}

pub data Method : Type 0 where
  fetching posting : Method

-- A request with its bearer token and its body
pub record Request : Type 0 where
  pub method : Method
  pub url : String
  pub token : Option String
  pub body : Option Json

-- The connection fails, or a response comes; its body is absent where it is no JSON.
pub data Answer : Type 0 where
  unreachable : (message : String) → Answer
  response : (status : ℕ) (body : Option Json) → Answer

pub record Url : Type 0 where
  pub protocol : String
  pub hostname : String

-- `answer n` is what the request number `n` of the process gets, `jitter n` the random part of a
-- pause behind it.
pub record Net : Type 0 where
  pub parse_url : String → Option Url
  pub addresses : Addresses
  pub env_allowlist : List String
  pub retries : ℕ
  pub backoff_base_ms : ℕ
  pub jitter : ℕ → ℕ
  pub answer : ℕ → Request → Answer

-- The requests that were made, the latest first, and the time spent in pauses
pub record Wire : Type 0 where
  pub requests : List Request
  pub waited : ℕ

-- An exception of an attempt, with the status where a response came
pub record Failure : Type 0 where
  pub message : String
  pub status : Option ℕ

pub data Attempt {ℓ} (A : Type ℓ) : Type ℓ where
  done : A → Attempt A
  broke : Failure → Attempt A

unfoldable pub is_retryable : Failure → Bool
is_retryable f = elim f.status [ none ↦ true | some s ↦ leb 500 s || s == 429 ]

abbrev pub is_redirect : ℕ → Bool
is_redirect s = leb 300 s && ltb s 400

-- `res.ok`
abbrev pub is_success : ℕ → Bool
is_success s = leb 200 s && ltb s 300

abbrev pub method_name : Method → String
method_name fetching = "GET "
method_name posting = "POST "

unfoldable pub label : Request → String
label r = append (method_name r.method) r.url

-- What an attempt makes of a response
unfoldable pub judge {ℓ} : {A : Type ℓ} → Request → (Option Json → Attempt A) → Answer → Attempt A
judge r read (unreachable message) = broke (record { message = message; status = none })
judge r read (response s body) =
    if is_redirect s
    then broke (record {
      message = append (label r) (append " redirected (" (append (show s) ") — not allowed"));
      status = some s;
    })
    else if is_success s
    then read body
    else broke (record { message = append (label r) (append " → HTTP " (show s)); status = some s })

-- `res.json()` and `res.text()`
abbrev pub as_json : Option Json → Attempt Json
as_json none = broke (record { message = "Unexpected token"; status = none })
as_json (some j) = done j

abbrev pub as_text : Option Json → Attempt (Unit {0})
as_text body = done tt

module _ (net : Net) where
  unfoldable pub send {ℓ} :
      {A : Type ℓ} → Request → (Option Json → Attempt A) → Wire → Attempt A × Wire
  send r read w =
      (judge r read (net.answer (length w.requests) r), record w { requests = r ∷ w.requests })

  unfoldable pub give_up {ℓ} : {A : Type ℓ} → String → Failure → Act Wire A
  give_up name f = throw (error (append name (append " failed: " f.message)))

  -- The pause behind the attempt `k`
  unfoldable pub pause : ℕ → Wire → Wire
  pause k w = record w {
    waited = w.waited + (net.backoff_base_ms * 2 ^ k + net.jitter (length w.requests));
  }

  abbrev pub settle_attempt {ℓ} :
      {A : Type ℓ} → (Failure → Act Wire A) → Attempt A × Wire → Result A × Wire
  settle_attempt next (done a, w) = (ok a, w)
  settle_attempt next (broke f, w) = next f w

  -- withBackoff from the attempt `k` on, with `left` more behind it
  unfoldable pub with_backoff {ℓ} :
      {A : Type ℓ} → ℕ → ℕ → String → (Wire → Attempt A × Wire) → Act Wire A
  with_backoff zero k name run w = settle_attempt (give_up name) (run w)
  with_backoff (suc left) k name run w =
      let again = with_backoff left (suc k) name run in
      settle_attempt (λ f w'. if is_retryable f then again (pause k w') else give_up name f w')
        (run w)

  abbrev pub is_web : Url → Bool
  is_web u = str_eq u.protocol "http:" || str_eq u.protocol "https:"

  unfoldable pub guard : String → List String → Result (Unit {0})
  guard url allowlist = elim (net.parse_url url) [
    | none ↦ err (error (append "invalid URL: " url))
    | some u ↦
        if is_web u
        then elim (assert_host_allowed net.addresses u.hostname (net.env_allowlist ++ allowlist)) [
          | ok ips ↦ ok tt
          | err e ↦ err e
        ]
        else err (error (append "scheme not allowed for REST handler: " u.protocol))
  ]

  -- The guard is asked once, in front of all attempts.
  unfoldable pub call {ℓ} :
      {A : Type ℓ} → Request → List String → (Option Json → Attempt A) → Act Wire A
  call r allowlist read =
      and_then (guard r.url allowlist) λ _. with_backoff net.retries 0 (label r) (send r read)

  -- An empty token counts as none.
  abbrev pub get_request : String → Option String → Request
  get_request url token = record {
    method = fetching;
    url = url;
    token = truthy_text token;
    body = none;
  }

  abbrev pub post_request : String → Json → Option String → Request
  post_request url body token = record {
    method = posting;
    url = url;
    token = truthy_text token;
    body = some body;
  }

  unfoldable pub fetch_json : String → Option String → List String → Act Wire Json
  unfolding call
  fetch_json url token allowlist = call (get_request url token) allowlist as_json

  unfoldable pub post_json : String → Json → Option String → List String → Act Wire (Unit {0})
  unfolding call
  post_json url body token allowlist = call (post_request url body token) allowlist as_text

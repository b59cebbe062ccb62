-- ===== src/Messaging/Publisher.antt =====
-- packages/messaging/src/publisher.ts: a message is handed to the broker, and the publish is done when the
-- broker confirms it in time. The broker may have the message without that.
use task_schedular.Prelude.{
  ℕ, String, Bool, true, false, Option, none, some, ◌≡◌, refl, ltb, if◌then◌else◌,
}
use task_schedular.Contracts.Common.{jobs_exchange, delayed_exchange}
use task_schedular.Contracts.Envelope.{JobEnvelope}

pub record PublishOptions : Type 0 where
  pub delay_ms : Option ℕ
  pub priority : Option ℕ
  pub message_id : Option String
  pub correlation_id : Option String

-- A persistent message as it is handed to the broker; `delay` is the `x-delay` header.
pub record Publication : Type 0 where
  pub exchange : String
  pub routing_key : String
  pub payload : JobEnvelope
  pub delay : Option ℕ
  pub options : PublishOptions

-- What the broker does: it acks or nacks after some milliseconds, or nothing comes back, whether or not
-- it has taken the message.
pub data Confirm : Type 0 where
  acked nacked : (after : ℕ) → Confirm
  lost : (taken : Bool) → Confirm

abbrev pub confirm_timeout_ms : ℕ
confirm_timeout_ms = 15000

abbrev positive : Option ℕ → Option ℕ
positive none = none
positive (some n) = if ltb 0 n then some n else none

unfoldable pub publication : String → JobEnvelope → PublishOptions → Publication
publication key payload o = record {
  exchange = elim (positive o.delay_ms) [ none ↦ jobs_exchange | some n ↦ delayed_exchange ];
  routing_key = key;
  payload = payload;
  delay = positive o.delay_ms;
  options = o;
}

-- The promise is settled once, by the confirm or by the timer, whichever comes first.
unfoldable pub confirmed : Confirm → Bool
confirmed (acked after) = ltb after confirm_timeout_ms
confirmed _ = false

-- Whether the broker has the message in the end; an ack that comes after the timer is no confirm.
unfoldable pub accepted : Confirm → Bool
accepted (acked after) = true
accepted (nacked after) = false
accepted (lost taken) = taken

pub accepted-confirmed : (a : Confirm) → confirmed a ≡ true → accepted a ≡ true
unfolding accepted confirmed
accepted-confirmed (acked after) h = refl
accepted-confirmed (nacked after) h = h
accepted-confirmed (lost taken) h = cc

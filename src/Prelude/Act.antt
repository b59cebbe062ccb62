-- ===== src/Prelude/Act.antt =====
-- Asynchronous code as a state transformer that may throw. The state outlives an exception.
use Prim.Native.String.{String}
use mathlib.Core.Bool.{Bool, true, false}

-- What is thrown: `JobCancelled` of the worker runtime, or any other error with its message.
pub data Thrown : Type 0 where
  job_cancelled : Thrown
  error : String → Thrown

pub data Result {ℓ} (A : Type ℓ) : Type ℓ where
  ok : A → Result A
  err : Thrown → Result A

abbrev pub is_ok {ℓ} : {A : Type ℓ} → Result A → Bool
is_ok (ok a) = true
is_ok (err e) = false

abbrev pub Act {ℓ κ} : Type ℓ → Type κ → Type (ℓ ⊔ κ)
Act S A = S → Result A × S

module _ {ℓ κ} {S : Type ℓ} {A : Type κ} where
  abbrev pub pure : A → Act S A
  pure a s = (ok a, s)

  abbrev pub throw : Thrown → Act S A
  throw e s = (err e, s)

  -- `try { body } catch (e) { handler }`
  abbrev pub try_catch : Act S A → (Thrown → Act S A) → Act S A
  try_catch body handler s =
      let (r, s') = body s in elim r [ ok a ↦ (ok a, s') | err e ↦ handler e s' ]

  -- `try { body } finally { cleanup }`, for a cleanup that does not throw
  abbrev pub try_finally : Act S A → (S → S) → Act S A
  try_finally body cleanup s = let (r, s') = body s in (r, cleanup s')

module _ {ℓ} {S : Type ℓ} where
  abbrev pub get : Act S S
  get s = (ok s, s)

  abbrev pub modify : (S → S) → Act S (Unit {0})
  modify f s = (ok tt, f s)

module _ {ℓ κ μ} {S : Type ℓ} {A : Type κ} {B : Type μ} where
  abbrev pub and_then : Result A → (A → Act S B) → Act S B
  and_then (ok a) f = f a
  and_then (err e) f = throw e

  infixl 5 ◌>>=◌ ◌>>◌
  abbrev pub ◌>>=◌ : Act S A → (A → Act S B) → Act S B
  m >>= f = λ s. let (r, s') = m s in and_then r f s'

  abbrev pub ◌>>◌ : Act S A → Act S B → Act S B
  m >> n = m >>= λ _. n

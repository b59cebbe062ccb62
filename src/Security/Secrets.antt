-- ===== src/Security/Secrets.antt =====
-- packages/security/src/envelope.ts: the envelope encryption of project secrets and its keyring. The
-- cipher, base64 and UTF-8 are arguments, and so are the random bytes.
pub mod Rotation
use task_schedular.Prelude.{
  String, Bool, true, false, Option, none, some, List, [], ◌∷◌, str_eq, or_else, if◌then◌else◌,
}
use task_schedular.Prelude.Act.{Result, ok, err, error}
use task_schedular.Contracts.Common.{truthy_text}

-- AES-256-GCM with its authentication tag in the blob, Buffer.from(…, 'base64') with the test that it
-- has 32 bytes, and UTF-8.
pub record Crypto (Bytes : Type 0) (Blob : Type 0) : Type 0 where
  pub gcm_encrypt : (key iv plaintext : Bytes) → Blob
  pub gcm_decrypt : (key : Bytes) → Blob → Result Bytes
  pub from_base64 : String → Bytes
  pub has_32_bytes : Bytes → Bool
  pub utf8 : String → Bytes
  pub to_text : Bytes → String

-- The variables of the process
pub record Env : Type 0 where
  pub master_key : Option String
  pub master_key_id : Option String
  pub previous_key : Option String
  pub previous_key_id : Option String

pub record EnvelopeCiphertext (Blob : Type 0) : Type 0 where
  pub key_id : String
  pub wrapped_dek : Blob
  pub sealed : Blob

module _ {Bytes Blob : Type 0} (crypto : Crypto Bytes Blob) where
  unfoldable pub decode : String → Result Bytes
  decode b64 =
      let k = crypto.from_base64 b64 in
      if crypto.has_32_bytes k
      then ok k
      else err (error "master key must decode to exactly 32 bytes (AES-256)")

  abbrev pub current_key_id : Env → String
  current_key_id env = or_else env.master_key_id "dev-local-v1"

  abbrev pub Keyring : Type 0
  Keyring = List (String × Bytes)

  abbrev pub get_key : String → Keyring → Option Bytes
  get_key id [] = none
  get_key id ((i, k) ∷ ring) = let rest = get_key id ring in if str_eq i id then some k else rest

  -- The current key, if it is set, before the keys of `ring`; ids in the ring differ from its own.
  unfoldable pub with_current : Env → Keyring → Result Keyring
  with_current env ring = elim (truthy_text env.master_key) [
    | none ↦ ok ring
    | some b64 ↦ elim (decode b64) [ ok k ↦ ok ((current_key_id env, k) ∷ ring) | err e ↦ err e ]
  ]

  -- The previous key, unless its id is the current one's
  unfoldable pub previous_ring : Env → Result Keyring
  previous_ring env = elim (truthy_text env.previous_key) [
    | none ↦ ok []
    | some b64 ↦ elim (truthy_text env.previous_key_id) [
      | none ↦ ok []
      | some id ↦
          if str_eq id (current_key_id env)
          then ok []
          else elim (decode b64) [ ok k ↦ ok ((id, k) ∷ []) | err e ↦ err e ]
    ]
  ]

  unfoldable pub keyring : Env → Result Keyring
  unfolding with_current previous_ring
  keyring env = elim (previous_ring env) [ ok ring ↦ with_current env ring | err e ↦ err e ]

  unfoldable pub key_for_id : Env → String → Result Bytes
  unfolding keyring
  key_for_id env id = elim (keyring env) [
    | err e ↦ err e
    | ok ring ↦ elim (get_key id ring) [
      | none ↦ err (error "no master key available for keyId")
      | some k ↦ ok k
    ]
  ]

  unfoldable pub current_key : Env → Result Bytes
  unfolding key_for_id
  current_key env = key_for_id env (current_key_id env)

  -- `dek` and the two nonces are random.
  unfoldable pub encrypt_secret :
      Env → (dek iv iv' : Bytes) → String → Result (EnvelopeCiphertext Blob)
  unfolding current_key
  encrypt_secret env dek iv iv' plaintext = elim (current_key env) [
    | err e ↦ err e
    | ok key ↦ ok (record {
      key_id = current_key_id env;
      wrapped_dek = crypto.gcm_encrypt key iv' dek;
      sealed = crypto.gcm_encrypt dek iv (crypto.utf8 plaintext);
    })
  ]

  unfoldable pub decrypt_secret : Env → EnvelopeCiphertext Blob → Result String
  unfolding key_for_id
  decrypt_secret env blob = elim (key_for_id env blob.key_id) [
    | err e ↦ err e
    | ok kek ↦ elim (crypto.gcm_decrypt kek blob.wrapped_dek) [
      | err e ↦ err e
      | ok dek ↦ elim (crypto.gcm_decrypt dek blob.sealed) [
        | err e ↦ err e
        | ok text ↦ ok (crypto.to_text text)
      ]
    ]
  ]

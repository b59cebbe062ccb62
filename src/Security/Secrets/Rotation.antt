-- ===== src/Security/Secrets/Rotation.antt =====
-- A secret written before the rotation of the master key is read after it.
use task_schedular.Prelude.{
  String, true, none, some, [], ◌∷◌, ◌≡◌, ◌≢◌, refl, ap, ◌∙◌, subst, arith, eq_refl, sym, str_eq_ne,
  ◌⊎◌, inl, inr, Option-cases,
}
use task_schedular.Prelude.Act.{Result, ok, err, Thrown, is_ok}
use task_schedular.Contracts.Common.{truthy_text}
use task_schedular.Security.Secrets.{
  Crypto, Env, EnvelopeCiphertext, decode, current_key_id, Keyring, get_key, with_current,
  previous_ring, keyring, key_for_id, current_key, encrypt_secret, decrypt_secret,
}

Result-cases : {A : Type 0} (o : Result A) → ((a : A) × (o ≡ ok a)) ⊎ ((e : Thrown) × (o ≡ err e))
Result-cases (ok a) = inl (a, refl)
Result-cases (err e) = inr (e, refl)

module _ {Bytes Blob : Type 0} (crypto : Crypto Bytes Blob) where
  -- The master key of `old` is the previous one of `new`, under its id.
  abbrev pub Follows : Env → Env → Type 0
  Follows old new =
      (new.previous_key ≡ old.master_key)
      × (new.previous_key_id ≡ some (current_key_id crypto old))
      × (truthy_text new.previous_key_id ≡ new.previous_key_id)
      × (current_key_id crypto old ≢ current_key_id crypto new)

  -- The previous key does not stand under the current id.
  previous_ring-other :
      (env : Env) (ring : Keyring crypto)
      → previous_ring crypto env ≡ ok ring
      → get_key crypto (current_key_id crypto env) ring ≡ none
  unfolding previous_ring
  previous_ring-other env ring h = ground arith

  current_key-set :
      (env : Env) (k : Bytes)
      → current_key crypto env ≡ ok k
      → (b64 : String) × ((truthy_text env.master_key ≡ some b64) × (decode crypto b64 ≡ ok k))
  unfolding current_key key_for_id keyring with_current
  current_key-set env k h = elim (Result-cases (previous_ring crypto env)) [
    | inr (e, r) ↦ ground (arith, r)
    | inl (ring, r) ↦ elim (Option-cases (truthy_text env.master_key)) [
      | inl n ↦ ground (arith, r, n, previous_ring-other env ring r)
      | inr (b64, t) ↦ elim (Result-cases (decode crypto b64)) [
        | inr (e, d) ↦ ground (arith, r, t, d)
        | inl (key, d) ↦ (b64, (t, ground (arith, r, t, d, eq_refl (current_key_id crypto env))))
      ]
    ]
  ]

  key_for_id-own :
      (env : Env) (k : Bytes)
      → current_key crypto env ≡ ok k
      → key_for_id crypto env (current_key_id crypto env) ≡ ok k
  unfolding current_key
  key_for_id-own env k h = h

  previous_ring-Follows :
      (old new : Env) (b64 : String) (k : Bytes)
      → Follows old new
      → truthy_text old.master_key ≡ some b64
      → decode crypto b64 ≡ ok k
      → previous_ring crypto new ≡ ok ((current_key_id crypto old, k) ∷ [])
  unfolding previous_ring
  previous_ring-Follows old new b64 k (a, b, c, d) t e =
      let key : truthy_text new.previous_key ≡ some b64 = ap truthy_text a ∙ t in
      let id : truthy_text new.previous_key_id ≡ some (current_key_id crypto old) = c ∙ b in
      let apart = str_eq_ne (current_key_id crypto old) (current_key_id crypto new) d in
      ground (arith, key, id, apart, e)

  key_for_id-previous :
      (old new : Env) (k : Bytes)
      → Follows old new
      → is_ok (keyring crypto new) ≡ true
      → current_key crypto old ≡ ok k
      → key_for_id crypto new (current_key_id crypto old) ≡ ok k
  unfolding key_for_id keyring with_current
  key_for_id-previous old new k f h e =
      let (b64, (set, dec)) = current_key-set old k e in
      let ring = previous_ring-Follows old new b64 k f set dec in
      let (_, _, _, other) = f in
      let apart =
        str_eq_ne (current_key_id crypto new) (current_key_id crypto old) (λ q. other (sym q)) in
      let here = eq_refl (current_key_id crypto old) in
      elim (Option-cases (truthy_text new.master_key)) [
        | inl n ↦ ground (arith, ring, n, here)
        | inr (b, n) ↦ elim (Result-cases (decode crypto b)) [
          | inr (x, d) ↦ ground (arith, ring, n, d, h)
          | inl (key, d) ↦ ground (arith, ring, n, d, here, apart)
        ]
      ]

  module _
      (decrypts : (key iv text : Bytes)
        → crypto.gcm_decrypt key (crypto.gcm_encrypt key iv text) ≡ ok text)
      (reads : (s : String) → crypto.to_text (crypto.utf8 s) ≡ s) where
    -- A secret that was encrypted in one environment is decrypted in the same one, and in one that
    -- follows it, if all its keys decode.
    pub decrypt_secret-encrypt_secret :
        (old new : Env) (dek iv iv' : Bytes) (plaintext : String) (blob : EnvelopeCiphertext Blob)
        → (old ≡ new) ⊎ Follows old new
        → is_ok (keyring crypto new) ≡ true
        → encrypt_secret crypto old dek iv iv' plaintext ≡ ok blob
        → decrypt_secret crypto new blob ≡ ok plaintext
    unfolding encrypt_secret decrypt_secret
    decrypt_secret-encrypt_secret old new dek iv iv' plaintext blob f h e =
        elim (Result-cases (current_key crypto old)) [
          | inr (x, c) ↦ ground (arith, c)
          | inl (k, c) ↦
              let kept : key_for_id crypto new (current_key_id crypto old) ≡ ok k = elim f [
                | inl same ↦
                    subst (λ env. key_for_id crypto env (current_key_id crypto old) ≡ ok k) same
                      (key_for_id-own old k c)
                | inr g ↦ key_for_id-previous old new k g h c
              ] in
              ground (
                arith,
                c,
                kept,
                decrypts k iv' dek,
                decrypts dek iv (crypto.utf8 plaintext),
                reads plaintext,
              )
        ]

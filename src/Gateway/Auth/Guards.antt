-- ===== src/Gateway/Auth/Guards.antt =====
-- What a passed guard means.
use task_schedular.Prelude.{
  ℕ, String, false, Option, none, some, List, [], ◌∷◌, find, In, ◌≤◌, ◌≡◌, ◌⊎◌, inl, inr, arith,
  Option-cases, eq_iff,
}
use task_schedular.Contracts.Common.{Role, truthy_text}
use task_schedular.Gateway.Auth.{
  Principal, ApiKey, Credentials, passed, role_rank, usable, principal_of_key, resolve_api_key,
  as_user, authenticate, require_role, guard,
}

-- A key that the SELECT may return for the hash.
abbrev pub Opens : String → List ApiKey → ApiKey → Type 0
Opens hash keys k = In k keys × (k.key_hash ≡ hash) × (k.revoked ≡ false)

find-usable :
    (hash : String) (keys : List ApiKey) (k : ApiKey)
    → find (usable hash) keys ≡ some k
    → Opens hash keys k
find-usable hash [] k e = ground arith
find-usable hash (x ∷ xs) k e = ground (arith, find-usable hash xs k, eq_iff x.key_hash hash)

-- The two ways of a request to its principal.
abbrev pub Identified : (String → String) → Credentials → List ApiKey → Principal → Type 0
Identified hash c keys p =
    (truthy_text c.api_key ≡ none) × ((q : Principal) × (c.token ≡ some q) × (p ≡ as_user q))
    ⊎ ((raw : String) × (k : ApiKey) × (truthy_text c.api_key ≡ some raw)
        × Opens (hash raw) keys k
        × (p ≡ principal_of_key k))

authenticate-Identified :
    (hash : String → String) (now : ℕ) (c : Credentials) (keys : List ApiKey) (p : Principal)
    → (authenticate hash now c keys).0 ≡ some p
    → Identified hash c keys p
unfolding authenticate resolve_api_key
authenticate-Identified hash now c keys p e = elim (Option-cases (truthy_text c.api_key)) [
  | inl no_key ↦ elim (Option-cases c.token) [
    | inl no_token ↦ ground arith
    | inr (q, token) ↦ inl (no_key, (q, token, ground arith))
  ]
  | inr (raw, given) ↦ elim (Option-cases (find (usable (hash raw)) keys)) [
    | inl missing ↦ ground arith
    | inr (k, found) ↦ inr (raw, k, given, find-usable (hash raw) keys k found, ground arith)
  ]
]

require_role-passed :
    (min : Role) (o : Option Principal) (p : Principal)
    → require_role min o ≡ passed p
    → (o ≡ some p) × (role_rank min ≤ role_rank p.role)
unfolding require_role
require_role-passed min none p e = ground arith
require_role-passed min (some q) p e = ground arith

-- A guard that passes has found a principal whose role ranks at least as high as the asked one: the
-- token's, as a user, where no API key is given, or that of a stored key with the hash of the given
-- one that is not revoked.
pub guard-passed :
    (hash : String → String) (now : ℕ) (min : Role) (c : Credentials) (keys : List ApiKey)
    (p : Principal)
    → (guard hash now min c keys).0 ≡ passed p
    → (role_rank min ≤ role_rank p.role) × Identified hash c keys p
unfolding guard
guard-passed hash now min c keys p e =
    let (found, rank) = require_role-passed min (authenticate hash now c keys).0 p e in
    (rank, authenticate-Identified hash now c keys p found)

-- A guard that passes also passes, with the same principal, where a lower role is asked for.
pub guard-monotone :
    (hash : String → String) (now : ℕ) (low high : Role) (c : Credentials) (keys : List ApiKey)
    (p : Principal)
    → role_rank low ≤ role_rank high
    → (guard hash now high c keys).0 ≡ passed p
    → (guard hash now low c keys).0 ≡ passed p
unfolding guard require_role
guard-monotone hash now low high c keys p l e = ground arith

-- ===== src/Gateway/Auth.antt =====
-- services/gateway-api/src/auth/plugin.ts: who makes a request, and whether the role suffices. The
-- hash function and the verified token are arguments.
pub mod Guards
use Prim.Native.String.{◌++◌}
use task_schedular.Prelude.{
  ℕ, String, Bool, true, false, not, ◌&&◌, Option, none, some, List, find, str_eq, ltb,
  update_where, if◌then◌else◌,
}
use task_schedular.Contracts.Common.{Role, admin, operator, viewer, truthy_text}

pub data PrincipalKind : Type 0 where
  user apikey : PrincipalKind

pub record Principal : Type 0 where
  pub sub : String
  pub email : String
  pub role : Role
  pub kind : PrincipalKind

pub record ApiKey : Type 0 where
  pub id : String
  pub name : String
  pub role : Role
  pub key_hash : String
  pub revoked : Bool
  pub last_used_at : Option ℕ

-- The two headers of a request: x-api-key, and the payload of a bearer token that verifies.
pub record Credentials : Type 0 where
  pub api_key : Option String
  pub token : Option Principal

pub data Verdict : Type 0 where
  passed : Principal → Verdict
  unauthorized forbidden : Verdict

unfoldable pub role_rank : Role → ℕ
role_rank viewer = 0
role_rank operator = 1
role_rank admin = 2

abbrev pub usable : String → ApiKey → Bool
usable hash k = str_eq k.key_hash hash && not k.revoked

abbrev pub principal_of_key : ApiKey → Principal
principal_of_key k = record {
  sub = k.id;
  email = "apikey:" ++ k.name;
  role = k.role;
  kind = apikey;
}

abbrev pub used : ℕ → String → List ApiKey → List ApiKey
used now id = update_where (λ k. str_eq k.id id) (λ k. record k { last_used_at = some now })

-- resolveApiKey
unfoldable pub resolve_api_key :
    (String → String) → ℕ → String → List ApiKey → Option Principal × List ApiKey
resolve_api_key hash now raw keys = elim (find (usable (hash raw)) keys) [
  | none ↦ (none, keys)
  | some k ↦ (some (principal_of_key k), used now k.id keys)
]

abbrev pub as_user : Principal → Principal
as_user p = record p { kind = user }

-- `authenticate`: an API key that is given decides alone.
unfoldable pub authenticate :
    (String → String) → ℕ → Credentials → List ApiKey → Option Principal × List ApiKey
authenticate hash now c keys = elim (truthy_text c.api_key) [
  | some raw ↦ resolve_api_key hash now raw keys
  | none ↦ elim c.token [ none ↦ (none, keys) | some p ↦ (some (as_user p), keys) ]
]

-- `requireRole`
unfoldable pub require_role : Role → Option Principal → Verdict
require_role min none = unauthorized
require_role min (some p) = if ltb (role_rank p.role) (role_rank min) then forbidden else passed p

-- The guards of a route: authenticate, then requireRole.
unfoldable pub guard :
    (String → String) → ℕ → Role → Credentials → List ApiKey → Verdict × List ApiKey
guard hash now min c keys =
    let (p, keys') = authenticate hash now c keys in (require_role min p, keys')

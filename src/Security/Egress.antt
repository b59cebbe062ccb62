-- ===== src/Security/Egress.antt =====
-- What an accepted host means, and what an entry more does.
use task_schedular.Prelude.{String, false, some, List, [], ◌∷◌, All, ◌≡◌, ◌≢◌, ◌↔◌, arith}
use task_schedular.Prelude.Act.{ok}
use task_schedular.Security.{Addresses, blocked, check_addresses, assert_host_allowed}

check_addresses-All :
    (a : Addresses) (host : String) (allowlist ips : List String)
    → (check_addresses a host allowlist ips ≡ ok tt)
      ↔ All (λ ip. blocked a host allowlist ip ≡ false) ips
unfolding check_addresses
check_addresses-All a host allowlist [] = ground arith
check_addresses-All a host allowlist (ip ∷ ips) =
    ground (arith, check_addresses-All a host allowlist ips)

-- A host is accepted with these addresses exactly if the lookup gives them, there is at least one,
-- and none is blocked: in a denied range and not allow-listed.
pub assert_host_allowed_iff :
    (a : Addresses) (host : String) (allowlist ips : List String)
    → (assert_host_allowed a host allowlist ≡ ok ips) ↔ (
        (a.lookup host ≡ some ips)
        × (ips ≢ [])
        × All (λ ip. blocked a host allowlist ip ≡ false) ips)
unfolding assert_host_allowed
assert_host_allowed_iff a host allowlist ips =
    ground (arith, check_addresses-All a host allowlist ips)

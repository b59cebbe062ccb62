-- ===== src/Security.antt =====
-- packages/security/src/ssrf.ts: which hosts a connection to a target database may use. The DNS
-- lookup and the address library are arguments: the resolved addresses, the range of an address
-- (`none` if it does not parse), and whether an address lies in a CIDR block (`none` if the block or
-- the address does not parse, or their kinds differ).
pub mod Egress
pub mod Secrets
use task_schedular.Prelude.{
  String, Bool, true, false, ◌&&◌, ◌||◌, not, Option, none, some, List, [], ◌∷◌, any, str_eq,
  if◌then◌else◌, or_else,
}
use task_schedular.Prelude.Act.{Result, ok, err, Thrown, error}

pub record Addresses : Type 0 where
  pub lookup : String → Option (List String)
  pub range : String → Option String
  pub is_block : String → Bool
  pub in_block : String → String → Option Bool

abbrev pub deny_ranges : List String
deny_ranges =
    "unspecified" ∷ "loopback" ∷ "private" ∷ "linkLocal" ∷ "uniqueLocal" ∷ "carrierGradeNat"
    ∷ "reserved" ∷ "broadcast" ∷ []

module _ (a : Addresses) where
  unfoldable pub ip_is_denied : String → Bool
  ip_is_denied ip = elim (a.range ip) [ none ↦ true | some r ↦ any (str_eq r) deny_ranges ]

  -- One entry of the list admits the host or the address.
  unfoldable pub entry_allows : String → String → String → Bool
  entry_allows host ip entry =
      (str_eq entry host || str_eq entry ip)
      || (a.is_block entry && or_else (a.in_block entry ip) false)

  unfoldable pub is_allowlisted : String → String → List String → Bool
  is_allowlisted host ip [] = false
  is_allowlisted host ip (entry ∷ entries) =
      let rest = is_allowlisted host ip entries in if entry_allows host ip entry then true else rest

  abbrev pub blocked : String → List String → String → Bool
  blocked host allowlist ip = ip_is_denied ip && not (is_allowlisted host ip allowlist)

  -- The loop over the resolved addresses.
  unfoldable pub check_addresses : String → List String → List String → Result (Unit {0})
  check_addresses host allowlist [] = ok tt
  check_addresses host allowlist (ip ∷ ips) =
      let rest = check_addresses host allowlist ips in
      if blocked host allowlist ip
      then err (error "address is in a denied range and not allow-listed")
      else rest

  -- The addresses that the connection may use.
  unfoldable pub assert_host_allowed : String → List String → Result (List String)
  assert_host_allowed host allowlist = elim (a.lookup host) [
    | none ↦ err (error "cannot resolve host")
    | some [] ↦ err (error "host resolved to no addresses")
    | some (ip ∷ ips) ↦ elim (check_addresses host allowlist (ip ∷ ips)) [
      | ok _ ↦ ok (ip ∷ ips)
      | err e ↦ err e
    ]
  ]

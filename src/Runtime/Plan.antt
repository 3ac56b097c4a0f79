-- ===== src/Runtime/Plan.antt =====
-- internal/runtime/routing.go: `PlanRouting` with `covered`, `containsAddr`, `HostOf`, `HEMHost` and
-- `resolveHost`, and `Peer` of runtime.go.
use encedo_wg_hsm.Common.{
  codes, ℕ, Bool, true, false, not, ◌&&◌, ◌||◌, Option, none, some, List, [], ◌∷◌, ◌++◌, Bytes,
  is_empty, contains, trim_brackets, if◌then◌else◌, Result, ok, ◌>>=◌, ◌>>◌, wrap, fail_if,
}
use encedo_wg_hsm.Netip.{Addr, Prefix, addr_eq, unmap, addr_from_slice, prefix_contains}

-- `Peer`
pub record RoutedPeer : Type 0 where
  pub endpoint : Bytes
  pub allowed_ips : List Prefix

-- `Plan`
pub record Plan : Type 0 where
  pub endpoints : List Addr
  pub hem_host : Bytes
  pub hem_inside : Bool

pub data PlanError : Type 0 where
  unresolved : Bytes → ℕ → PlanError
  empty_url : PlanError
  bad_url : Bytes → ℕ → PlanError
  no_host : Bytes → PlanError

-- Go's net.SplitHostPort (the host), netip.ParseAddr, net.LookupIP and url.Parse with Hostname.
pub record Names : Type 0 where
  pub split_host_port : Bytes → Option Bytes
  pub parse_addr : Bytes → Option Addr
  pub lookup_ip : Bytes → Result ℕ (List Bytes)
  pub url_hostname : Bytes → Result ℕ Bytes

abbrev pub covered_by : Addr → List Prefix → Bool
covered_by a [] = false
covered_by a (p ∷ ps) = prefix_contains p a || covered_by a ps

-- `covered`
abbrev pub covered : Addr → List RoutedPeer → Bool
covered a [] = false
covered a (p ∷ ps) = covered_by a p.allowed_ips || covered a ps

-- `containsAddr`
abbrev pub contains_addr : List Addr → Addr → Bool
contains_addr [] a = false
contains_addr (x ∷ xs) a = addr_eq x a || contains_addr xs a

-- The body of `resolveHost`'s loop.
abbrev onto_addrs : Option Addr → List Addr → List Addr
onto_addrs none out = out
onto_addrs (some a) out = unmap a ∷ out

unfoldable pub addrs_of : List Bytes → List Addr
addrs_of [] = []
addrs_of (ip ∷ ips) = onto_addrs (addr_from_slice ip) (addrs_of ips)

-- The loop over the addresses of one endpoint.
unfoldable pub add_endpoints : List RoutedPeer → List Addr → List Addr → List Addr
add_endpoints peers [] endpoints = endpoints
add_endpoints peers (a ∷ rest) endpoints = add_endpoints peers rest (
    if covered a peers && not (contains_addr endpoints a) then endpoints ++ (a ∷ []) else endpoints)

-- The loop that looks for a covered address of the HEM.
abbrev pub any_covered : List RoutedPeer → List Addr → Bool
any_covered peers [] = false
any_covered peers (a ∷ rest) = if covered a peers then true else any_covered peers rest

module _ (names : Names) where
  abbrev looked_up : Bytes → Option Addr → Result ℕ (List Addr)
  looked_up host (some a) = ok (a ∷ [])
  looked_up host none = names.lookup_ip host >>= λ ips. ok (addrs_of ips)

  -- `resolveHost`
  unfoldable pub resolve_host : Bytes → Result ℕ (List Addr)
  resolve_host host = looked_up host (names.parse_addr host)

  abbrev host_or : Bytes → Option Bytes → Bytes
  host_or endpoint (some host) = host
  host_or endpoint none = trim_brackets endpoint

  -- `HostOf`
  unfoldable pub host_of : Bytes → Bytes
  host_of endpoint = host_or endpoint (names.split_host_port endpoint)

  abbrev with_scheme : Bytes → Bytes
  with_scheme raw = if contains raw (codes "://") then raw else codes "https://" ++ raw

  -- `HEMHost`
  unfoldable pub hem_host_of : Bytes → Result PlanError Bytes
  hem_host_of raw = do
    fail_if (is_empty raw) empty_url
    host ← wrap (bad_url (with_scheme raw)) (names.url_hostname (with_scheme raw))
    fail_if (is_empty host) (no_host (with_scheme raw))
    ok host

  -- One round of the loop over the peers.
  unfoldable pub plan_peer : List RoutedPeer → RoutedPeer → List Addr → Result PlanError (List Addr)
  plan_peer peers p endpoints =
      if is_empty p.endpoint
      then ok endpoints
      else wrap (unresolved (host_of p.endpoint)) (resolve_host (host_of p.endpoint)) >>= λ addrs.
          ok (add_endpoints peers addrs endpoints)

  unfoldable pub plan_peers :
      List RoutedPeer → List RoutedPeer → List Addr → Result PlanError (List Addr)
  plan_peers peers [] endpoints = ok endpoints
  plan_peers peers (p ∷ ps) endpoints = plan_peer peers p endpoints >>= plan_peers peers ps

  -- `PlanRouting`
  unfoldable pub plan_routing : List RoutedPeer → Bytes → Result PlanError Plan
  plan_routing peers hem_url = do
    endpoints ← plan_peers peers peers []
    host ← hem_host_of hem_url
    hem_addrs ← wrap (unresolved host) (resolve_host host)
    ok (record { endpoints = endpoints; hem_host = host; hem_inside = any_covered peers hem_addrs })

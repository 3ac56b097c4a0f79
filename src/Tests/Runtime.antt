-- ===== src/Tests/Runtime.antt =====
-- A peer that takes all of IPv4, and a routing table that refuses the second route.
use encedo_wg_hsm.Common.{
  codes, ◌≡◌, refl, false, none, some, List, [], ◌∷◌, bytes_eq, is_empty, contains, has_prefix,
  if◌then◌else◌, ok, err,
}
use encedo_wg_hsm.Netip.{Addr, v4, addr_eq, addr_from_slice, prefix_contains, bits_agree}
use encedo_wg_hsm.Runtime.Plan.{
  RoutedPeer, Plan, Names, addrs_of, add_endpoints, resolve_host, host_of, hem_host_of, plan_peer,
  plan_peers, plan_routing,
}
use encedo_wg_hsm.Runtime.Planned.{IsComplete, plan_routing-IsComplete}
use encedo_wg_hsm.Runtime.Pins.{
  PinnedRoute, add_route, del_route, RoutingTable, pin_route, pin_addr, add_pins, delete_routes,
  unpin_route, restore, Pins,
}
use encedo_wg_hsm.Runtime.Restored.{IsRestored, restore-add_pins}

abbrev first_addr : Addr
first_addr = v4 (198 ∷ 51 ∷ 100 ∷ 9 ∷ [])

abbrev peers : List RoutedPeer
peers =
    record {
      endpoint = codes "vpn.example:51820";
      allowed_ips = record { addr = v4 (0 ∷ 0 ∷ 0 ∷ 0 ∷ []); bits = 0 } ∷ [];
    }
    ∷ record { endpoint = []; allowed_ips = [] }
    ∷ []

-- The peer's name has two addresses, one of them twice, and the HEM an IPv6 address.
abbrev pub names : Names
names = record {
  split_host_port = λ s. some (codes "vpn.example");
  parse_addr = λ s. none;
  lookup_ip = λ s.
      if bytes_eq s (codes "vpn.example")
      then ok
          ((198 ∷ 51 ∷ 100 ∷ 9 ∷ []) ∷ (198 ∷ 51 ∷ 100 ∷ 10 ∷ []) ∷ (198 ∷ 51 ∷ 100 ∷ 9 ∷ []) ∷ [])
      else ok ((32 ∷ 1 ∷ 0 ∷ 0 ∷ 0 ∷ 0 ∷ 0 ∷ 0 ∷ 0 ∷ 0 ∷ 0 ∷ 0 ∷ 0 ∷ 0 ∷ 0 ∷ 1 ∷ []) ∷ []);
  url_hostname = λ s. ok (codes "hem.example");
}

abbrev plan : Plan
plan = record {
  endpoints = first_addr ∷ v4 (198 ∷ 51 ∷ 100 ∷ 10 ∷ []) ∷ [];
  hem_host = codes "hem.example";
  hem_inside = false;
}

two_endpoints : plan_routing names peers (codes "https://hem.example") ≡ ok plan
unfolding plan_routing plan_peers plan_peer host_of resolve_host hem_host_of addrs_of add_endpoints
    addr_from_slice addr_eq prefix_contains bits_agree bytes_eq contains has_prefix
two_endpoints = refl

plan_routing-IsComplete_example : IsComplete peers names (codes "https://hem.example") plan
plan_routing-IsComplete_example =
    plan_routing-IsComplete peers names (codes "https://hem.example") plan two_endpoints

abbrev pub table : RoutingTable
table = record {
  default_gateway = λ log is_v6. ok (v4 (192 ∷ 0 ∷ 2 ∷ 1 ∷ []), codes "eth0");
  on_add = λ log r. if is_empty log then ok tt else err 1;
  on_del = λ log r. ok tt;
}

abbrev no_pins : Pins
no_pins = record { routes = []; left = []; calls = [] }

abbrev pinned : Addr → PinnedRoute
pinned a = record { addr = a; gw = v4 (192 ∷ 0 ∷ 2 ∷ 1 ∷ []); iface = codes "eth0" }

-- The second route fails, and the first one is taken back.
second_refused :
    (restore table (add_pins table plan.endpoints no_pins).1).calls
    ≡ del_route (pinned first_addr)
      ∷ add_route (pinned (v4 (198 ∷ 51 ∷ 100 ∷ 10 ∷ [])))
      ∷ add_route (pinned first_addr)
      ∷ []
unfolding restore add_pins pin_addr pin_route delete_routes unpin_route
second_refused = refl

-- Where the platform deletes nothing, a warning names the route that stays.
abbrev stuck : RoutingTable
stuck = record table { on_del = λ log r. err 2 }

one_stays : (restore stuck (add_pins stuck plan.endpoints no_pins).1).left ≡ pinned first_addr ∷ []
unfolding restore add_pins pin_addr pin_route delete_routes unpin_route
one_stays = refl

restore-add_pins_example :
    IsRestored stuck (restore stuck (add_pins stuck plan.endpoints no_pins).1)
restore-add_pins_example = restore-add_pins stuck plan.endpoints

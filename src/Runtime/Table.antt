-- ===== src/Runtime/Table.antt =====
-- internal/runtime: what the calls of the routing table, with their answers, say of the routes.
use encedo_wg_hsm.Common.{
  ℕ, ◌≡◌, refl, ◌⊎◌, inl, inr, Bool, true, false, ◌&&◌, ◌||◌, Bool-cases, List, [], ◌∷◌, ◌++◌,
  bytes_eq, if◌then◌else◌, Result, ok, err,
}
use encedo_wg_hsm.Netip.{addr_eq}
use encedo_wg_hsm.Runtime.Pins.{PinnedRoute, RouteCall, add_route, del_route, RoutingTable}

-- The routes whose deletion was asked for, in the order of the calls.
abbrev pub attempted : List RouteCall → List PinnedRoute
attempted [] = []
attempted (add_route r ∷ log) = attempted log
attempted (del_route r ∷ log) = attempted log ++ (r ∷ [])

abbrev pub route_eq : PinnedRoute → PinnedRoute → Bool
route_eq r r' = addr_eq r.addr r'.addr && addr_eq r.gw r'.gw && bytes_eq r.iface r'.iface

abbrev pub has_route : PinnedRoute → List PinnedRoute → Bool
has_route r [] = false
has_route r (x ∷ xs) = route_eq x r || has_route r xs

or_left : (b c : Bool) → b ≡ true → (b || c) ≡ true
or_left true c h = refl
or_left false c h = cc

or_right : (b c : Bool) → c ≡ true → (b || c) ≡ true
or_right true c h = refl
or_right false c h = h

pub has_route-last :
    (r x : PinnedRoute) (xs : List PinnedRoute)
    → route_eq x r ≡ true
    → has_route r (xs ++ (x ∷ [])) ≡ true
has_route-last r x [] h = or_left (route_eq x r) false h
has_route-last r x (y ∷ ys) h = or_right (route_eq y r) _ (has_route-last r x ys h)

pub has_route-front :
    (r : PinnedRoute) (xs ys : List PinnedRoute)
    → has_route r xs ≡ true
    → has_route r (xs ++ ys) ≡ true
has_route-front r [] ys h = cc
has_route-front r (x ∷ xs) ys h =
    either (route_eq x r) (has_route r xs) (has_route r (xs ++ ys)) h (has_route-front r xs ys)
  where
    either : (a b c : Bool) → (a || b) ≡ true → (b ≡ true → c ≡ true) → (a || c) ≡ true
    either true b c h f = refl
    either false b c h f = f h

module _ (table : RoutingTable) where
  -- The routes that the platform has installed, in the order of the calls.
  abbrev pub onto_installed :
      Result ℕ (Unit {0}) → PinnedRoute → List PinnedRoute → List PinnedRoute
  onto_installed (ok u) r rs = rs ++ (r ∷ [])
  onto_installed (err e) r rs = rs

  abbrev pub installed : List RouteCall → List PinnedRoute
  installed [] = []
  installed (add_route r ∷ log) = onto_installed (table.on_add log r) r (installed log)
  installed (del_route r ∷ log) = installed log

  -- The routes whose deletion the platform has refused, in the order of the calls.
  abbrev pub onto_refused : Result ℕ (Unit {0}) → PinnedRoute → List PinnedRoute → List PinnedRoute
  onto_refused (ok u) r rs = rs
  onto_refused (err e) r rs = rs ++ (r ∷ [])

  abbrev pub refused : List RouteCall → List PinnedRoute
  refused [] = []
  refused (add_route r ∷ log) = refused log
  refused (del_route r ∷ log) = onto_refused (table.on_del log r) r (refused log)

  -- Whether a route stands in the table: it was put there, and was not taken out later.
  abbrev pub settled : Result ℕ (Unit {0}) → Bool → Bool → Bool
  settled (ok u) now before = now
  settled (err e) now before = before

  abbrev pub is_present : List RouteCall → PinnedRoute → Bool
  is_present [] r = false
  is_present (add_route x ∷ log) r =
      if route_eq x r
      then settled (table.on_add log x) true (is_present log r)
      else is_present log r
  is_present (del_route x ∷ log) r =
      if route_eq x r
      then settled (table.on_del log x) false (is_present log r)
      else is_present log r

  -- What one call changes.
  pub added_present :
      (r x : PinnedRoute) (log : List RouteCall) (routes : List PinnedRoute)
      → (is_present log r ≡ false) ⊎ (has_route r routes ≡ true)
      → (is_present (add_route x ∷ log) r ≡ false) ⊎ (has_route r (routes ++ (x ∷ [])) ≡ true)
  added_present r x log routes h = elim (Bool-cases (route_eq x r)) [
    | inl e ↦ inr (has_route-last r x routes e)
    | inr e ↦ rw e (elim h [ inl k ↦ inl k | inr k ↦ inr (has_route-front r routes (x ∷ []) k) ])
  ]

  pub unadded_present :
      (r x : PinnedRoute) (log : List RouteCall) {e : ℕ}
      → table.on_add log x ≡ err e
      → is_present (add_route x ∷ log) r ≡ is_present log r
  unadded_present r x log h = elim (Bool-cases (route_eq x r)) [
    | inl k ↦ rw (k, h) refl
    | inr k ↦ rw k refl
  ]

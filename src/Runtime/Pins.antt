-- ===== src/Runtime/Pins.antt =====
-- internal/runtime/routing.go: `Pins` with `Add` and `Restore`. The routing table is the platform's:
-- what its calls answer may depend on every call before.
use encedo_wg_hsm.Common.{ℕ, Bool, true, false, List, [], ◌∷◌, ◌++◌, Bytes, Result, ok, err, wrap}
use encedo_wg_hsm.Netip.{Addr, v6}
use encedo_wg_hsm.Effect.{Action, pure, fail, lift, read, update, ◌>>=◌, ◌>>◌}

-- `pinnedRoute`
pub record PinnedRoute : Type 0 where
  pub addr : Addr
  pub gw : Addr
  pub iface : Bytes

pub data RouteCall : Type 0 where
  add_route : PinnedRoute → RouteCall
  del_route : PinnedRoute → RouteCall

-- `defaultGateway`, `addHostRoute` and `delHostRoute`, over the calls made, latest first.
pub record RoutingTable : Type 0 where
  pub default_gateway : List RouteCall → Bool → Result ℕ (Addr × Bytes)
  pub on_add : List RouteCall → PinnedRoute → Result ℕ (Unit {0})
  pub on_del : List RouteCall → PinnedRoute → Result ℕ (Unit {0})

pub data PinError : Type 0 where
  no_gateway : Addr → ℕ → PinError
  not_pinned : PinnedRoute → ℕ → PinError

-- `Pins`, the routes that a warning of `Restore` names, and the calls made.
pub record Pins : Type 0 where
  pub routes : List PinnedRoute
  pub left : List PinnedRoute
  pub calls : List RouteCall

abbrev pub is6 : Addr → Bool
is6 (v6 b zone) = true
is6 _ = false

abbrev pub after_call : RouteCall → Pins → Pins
after_call c w = record w { calls = c ∷ w.calls }

abbrev pub keep_route : PinnedRoute → Pins → Pins
keep_route r w = record w { routes = w.routes ++ (r ∷ []) }

module _ (table : RoutingTable) where
  -- `addHostRoute`, with the entry that is kept when it succeeds.
  abbrev pub kept : PinnedRoute → Result ℕ (Unit {0}) → Action Pins PinError (Unit {0})
  kept r (ok u) = update (keep_route r)
  kept r (err e) = fail (not_pinned r e)

  unfoldable pub pin_route : PinnedRoute → Action Pins PinError (Unit {0})
  pin_route r w = kept r (table.on_add w.calls r) (after_call (add_route r) w)

  -- One round of `Add`.
  unfoldable pub pin_addr : Addr → Action Pins PinError (Unit {0})
  pin_addr a = do
    calls ← read (λ w. w.calls)
    (gw, iface) ← lift (wrap (no_gateway a) (table.default_gateway calls (is6 a)))
    pin_route (record { addr = a; gw = gw; iface = iface })

  -- `Add`
  unfoldable pub add_pins : List Addr → Action Pins PinError (Unit {0})
  add_pins [] = pure tt
  add_pins (a ∷ rest) = pin_addr a >> add_pins rest

  -- `delHostRoute`, with the warning where it fails.
  abbrev pub warned : PinnedRoute → Result ℕ (Unit {0}) → Pins → Pins
  warned r (ok u) w = w
  warned r (err e) w = record w { left = w.left ++ (r ∷ []) }

  unfoldable pub unpin_route : PinnedRoute → Pins → Pins
  unpin_route r w = warned r (table.on_del w.calls r) (after_call (del_route r) w)

  -- The loop of `Restore`, which goes on behind a failure.
  unfoldable pub delete_routes : List PinnedRoute → Pins → Pins
  delete_routes [] w = w
  delete_routes (r ∷ rest) w = delete_routes rest (unpin_route r w)

  -- `Restore`
  unfoldable pub restore : Pins → Pins
  restore w = record (delete_routes w.routes w) { routes = [] }

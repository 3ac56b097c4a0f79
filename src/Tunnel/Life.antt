-- ===== src/Tunnel/Life.antt =====
-- internal/tunnel/tunnel.go: `Run` with `openDevice`, `usePeer`, `configureInterface`, `hold` and
-- `teardown`.
use encedo_wg_hsm.Common.{
  ℕ, zero, suc, Bool, true, false, Option, none, some, List, [], ◌∷◌, Bytes, is_empty, length,
  replicate, ◌++◌, if◌then◌else◌, Result, ok, err, wrap,
}
use encedo_wg_hsm.Config.Records.{ConfigPeer}
use encedo_wg_hsm.Config.Load.{unwrap_psk, mtu_of}
use encedo_wg_hsm.Runtime.Plan.{Plan, plan_routing}
use encedo_wg_hsm.Runtime.Pins.{Pins, PinError, add_pins, restore}
use encedo_wg_hsm.Effect.{pure, fail, lift, read, update, ◌>>=◌, ◌>>◌}
use encedo_wg_hsm.Tunnel.Failover.{Await, walk_peers}
use encedo_wg_hsm.Tunnel.System.{
  endpoint_text, Sys, create_tun, device_up, write_pub, ipc_set, link_up, set_mtu, add_routes,
  set_dns, probe_hem, save_state, uapi_listen, revert_dns, close_device, link_down, remove_pub,
  remove_state, Opts, Tunnel, TunnelError, no_pub_key, not_created, not_up, dns_refused, no_psk,
  no_plan, not_pinned, refused, no_peer_left, no_fuel, Step, note_call, SelectError, exhausted,
}

abbrev pub with_pins :
    Result PinError (Unit {0}) × Pins → Tunnel → Result TunnelError (Unit {0}) × Tunnel
with_pins (r, pins) w = (wrap not_pinned r, record w { pins = pins })

abbrev pub open_as : Bytes → Tunnel → Tunnel
open_as name w = record w { opened = true; name = if is_empty name then w.name else name }

abbrev pub is_set : Option ConfigPeer → Bool
is_set none = false
is_set (some p) = true

-- `New`
abbrev pub new_tunnel : Opts → Tunnel
new_tunnel o = record {
  calls = [];
  name = o.ifname;
  opened = false;
  pins = record { routes = []; left = []; calls = [] };
  dns_set = false;
  blind = false;
  peer = none;
  psk = none;
  buffers = [];
  warnings = [];
  hem_inside = false;
  hem_host = [];
}

-- `session.Zero` of the key that a pointer leads to.
unfoldable pub zero_at : ℕ → List Bytes → List Bytes
zero_at p [] = []
zero_at zero (b ∷ bs) = replicate (length b) 0 ∷ bs
zero_at (suc p) (b ∷ bs) = b ∷ zero_at p bs

abbrev pub zero_key : Option ℕ → List Bytes → List Bytes
zero_key none bs = bs
zero_key (some p) bs = zero_at p bs

-- The key that `UnwrapPSK` returns.
unfoldable pub alloc : Bytes → Step ℕ
alloc b w = (ok (length w.buffers), record w { buffers = w.buffers ++ (b ∷ []) })

abbrev pub zeroed_when :
    {A : Type 0} → ℕ → Result TunnelError A × Tunnel → Result TunnelError A × Tunnel
zeroed_when p (ok a, w) = (ok a, w)
zeroed_when p (err e, w) = (err e, record w { buffers = zero_at p w.buffers })

-- The function `fail` of `usePeer`: a failure zeroes the key that was unwrapped.
unfoldable pub on_fail : {A : Type 0} → ℕ → Step A → Step A
on_fail p m w = zeroed_when p (m w)

module _ (o : Opts) where
  -- A call and its answer, and the same where a failure is no more than reported.
  unfoldable pub ask : Sys → Step (Result ℕ (Unit {0}))
  ask c w = (ok (o.system.on_call w.calls c), note_call c w)

  unfoldable pub ask_create : Bytes → ℕ → Step (Result ℕ Bytes)
  ask_create name mtu w =
      (ok (o.system.on_create w.calls name mtu), note_call (create_tun name mtu) w)

  unfoldable pub demand : Sys → Step (Unit {0})
  demand c = do answer ← ask c; lift (wrap (refused c) answer)

  -- `t.pins.Add`
  unfoldable pub pin_endpoints : Plan → Step (Unit {0})
  pin_endpoints plan w = with_pins (add_pins o.table plan.endpoints w.pins) w

  -- `openDevice`
  unfoldable pub open_device : Step (Unit {0})
  open_device = do
    key ← lift (wrap no_pub_key (o.hem.get_pub_key o.use_tok o.tree.if_kid))
    name ← read (λ w. w.name)
    answer ← ask_create name (mtu_of o.tree)
    given ← lift (wrap not_created answer)
    update (open_as given)
    up ← ask device_up
    done ← lift (wrap not_up up)
    update (λ w. note_call (write_pub w.name) w)

  -- The half of `usePeer` that a later peer has more of: its routes are added.
  unfoldable pub replace_routes : Bool → ConfigPeer → Step (Unit {0})
  replace_routes false p = pure tt
  replace_routes true p = do name ← read (λ w. w.name); demand (add_routes name p.peer.allowed_ips)

  -- The end of `usePeer`: the key in use before is zeroed, and the fields are set.
  unfoldable pub point_at : ConfigPeer → ℕ → Plan → Step (Unit {0})
  point_at p key plan = update (λ w. record w {
    buffers = zero_key w.psk w.buffers;
    peer = some p;
    psk = some key;
    hem_inside = plan.hem_inside;
    hem_host = plan.hem_host;
  })

  -- The part of `usePeer` that leaves through `fail`.
  unfoldable pub give_peer : ConfigPeer → Bytes → Step Plan
  give_peer p psk = do
    plan ← lift (
        wrap no_plan (
          plan_routing o.names
            (record {
              endpoint = endpoint_text o.formats p.peer.endpoint;
              allowed_ips = p.peer.allowed_ips;
            }
              ∷ [])
            o.hem_url))
    pin_endpoints plan
    later ← read (λ w. is_set w.peer)
    replace_routes later p
    demand (ipc_set p psk later)
    pure plan

  -- `usePeer`
  unfoldable pub use_peer : ConfigPeer → Step (Unit {0})
  use_peer p = do
    psk ← lift (wrap no_psk (unwrap_psk o.hem o.use_tok o.tree p))
    key ← alloc psk
    plan ← on_fail key (give_peer p psk)
    point_at p key plan

  -- `t.dnsSet = true` behind an accepted `SetDNS`.
  abbrev pub mark_dns : Result ℕ (Unit {0}) → Step (Unit {0})
  mark_dns (ok u) = update (λ w. record w { dns_set = true })
  mark_dns (err e) = fail (dns_refused e)

  unfoldable pub configure_dns : Bool → Bytes → Step (Unit {0})
  configure_dns true name = pure tt
  configure_dns false name = do answer ← ask (set_dns name o.tree.iface.dns); mark_dns answer

  unfoldable pub probe_inside : Bool → Bytes → Step (Unit {0})
  probe_inside true host = demand (probe_hem host)
  probe_inside false host = pure tt

  -- `configureInterface`
  unfoldable pub configure_interface : ConfigPeer → Step (Unit {0})
  configure_interface p = do
    name ← read (λ w. w.name)
    demand (link_up name o.tree.iface.addrs)
    demand (set_mtu name (mtu_of o.tree))
    demand (add_routes name p.peer.allowed_ips)
    configure_dns (is_empty o.tree.iface.dns) name
    inside ← read (λ w. w.hem_inside)
    host ← read (λ w. w.hem_host)
    probe_inside inside host

  -- The listener: without it the tunnel is blind.
  abbrev sight : Result ℕ (Unit {0}) → Bool
  sight (ok u) = false
  sight (err e) = true

  unfoldable pub see : Result ℕ (Unit {0}) → Step (Unit {0})
  see answer = update (λ w. record w { blind = sight answer })

  unfoldable pub listen_uapi : Bytes → Step (Unit {0})
  listen_uapi name = do answer ← ask (uapi_listen name); see answer

  -- What `hold` does with the outcome of a wait, and how it goes on with another peer.
  unfoldable pub hold_next :
      (ConfigPeer → List ConfigPeer → Step (Unit {0}))
      → ConfigPeer
      → List ConfigPeer
      → Await
      → Step (Unit {0})
  hold_next more p failed Await.handshook = pure tt
  hold_next more p failed Await.ended = pure tt
  hold_next more p failed Await.silent = do
    choice ← read (λ w. o.select_next w.calls (p ∷ failed))
    next ← lift (wrap no_peer_left choice)
    use_peer next
    name ← read (λ w. w.name)
    saved ← ask (save_state name next)
    more next (p ∷ failed)

  -- The loop of `hold`, from the wait for the peer in use, with fuel for a number of peers.
  unfoldable pub hold_loop : ℕ → ConfigPeer → List ConfigPeer → Step (Unit {0})
  hold_loop zero p failed = fail no_fuel
  hold_loop (suc fuel) p failed = do
    outcome ← read (λ w. o.system.await w.calls)
    hold_next (λ q failed'. hold_loop fuel q failed') p failed outcome

  unfoldable pub hold_open : ℕ → Bool → ConfigPeer → Step (Unit {0})
  hold_open fuel true p = pure tt
  hold_open fuel false p = hold_loop fuel p []

  -- `Run` between the opening of the device and the teardown.
  unfoldable pub run_open : ℕ → ConfigPeer → Step (Unit {0})
  run_open fuel p = do
    use_peer p
    configure_interface p
    name ← read (λ w. w.name)
    demand (save_state name p)
    listen_uapi name
    blind ← read (λ w. w.blind)
    hold_open fuel blind p

  abbrev pub note_if : Bool → Sys → Tunnel → Tunnel
  note_if b c w = if b then note_call c w else w

  -- `rt.RevertDNS` of Linux, which warns where the command fails and the interface is still there: the
  -- answer is a failure then.
  abbrev pub reverted : Sys → Result ℕ (Unit {0}) → Tunnel → Tunnel
  reverted c (ok u) w = w
  reverted c (err e) w = record w { warnings = c ∷ w.warnings }

  unfoldable pub revert : Tunnel → Tunnel
  revert w =
      reverted (revert_dns w.name) (o.system.on_call w.calls (revert_dns w.name))
        (note_call (revert_dns w.name) w)

  -- `teardown`
  unfoldable pub teardown : Tunnel → Tunnel
  teardown w =
      let w1 = if w.dns_set then revert w else w in
      let w2 = note_if w.opened close_device w1 in
      let w3 = note_call (link_down w.name) w2 in
      let w4 = record w3 { pins = restore o.table w.pins; buffers = zero_key w.psk w.buffers } in
      note_call (remove_state w.name) (note_call (remove_pub w.name) w4)

  -- Every way out behind the opening goes through `teardown`.
  abbrev pub torn_down :
      Result TunnelError (Unit {0}) × Tunnel → Result TunnelError (Unit {0}) × Tunnel
  torn_down (r, w) = (r, teardown w)

  abbrev pub after_open :
      ℕ
      → ConfigPeer
      → Result TunnelError (Unit {0}) × Tunnel
      → Result TunnelError (Unit {0}) × Tunnel
  after_open fuel p (ok u, w) = torn_down (run_open fuel p w)
  after_open fuel p (err e, w) = (err e, w)

  -- `Run`
  unfoldable pub run_tunnel : ℕ → ConfigPeer → Result TunnelError (Unit {0}) × Tunnel
  run_tunnel fuel p = after_open fuel p (open_device (new_tunnel o))

-- The peers that `WalkPeers` was told of before, as the keys of its map.
abbrev pub kids : List ConfigPeer → List Bytes
kids [] = []
kids (p ∷ ps) = p.kid ∷ kids ps

-- `WalkPeers` as `SelectNext`.
abbrev pub walk_next : List ConfigPeer → List ConfigPeer → Result SelectError ConfigPeer
walk_next peers [] = wrap exhausted ((walk_peers peers none []).answer)
walk_next peers (p ∷ failed) = wrap exhausted ((walk_peers peers (some p) (kids failed)).answer)

abbrev pub walking : Opts → Opts
walking o = record o { select_next = λ log failed. walk_next o.tree.peers failed }

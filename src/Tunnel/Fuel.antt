-- ===== src/Tunnel/Fuel.antt =====
-- internal/tunnel: how often `hold` asks for another peer.
use encedo_wg_hsm.Common.{
  ℕ, zero, suc, ◌<◌, ◌≡◌, refl, sym, ap, Bool, true, false, Option, none, some, List, [], ◌∷◌,
  Bytes, length, Result, ok, err, wrap, wrap-eq-ok, ok-injective, arith,
}
use encedo_wg_hsm.Config.Records.{ConfigPeer}
use encedo_wg_hsm.Runtime.Plan.{Plan}
use encedo_wg_hsm.Runtime.Pins.{Pins, PinError, add_pins}
use encedo_wg_hsm.Effect.{pure, lift, read, update, ◌>>=◌, ◌>>◌, Ends, Ensures, Ensures-bind}
use encedo_wg_hsm.Tunnel.Failover.{FailoverError, Await, first_untried, answer_of, walk_peers}
use encedo_wg_hsm.Tunnel.FirstAnswer.{untried, untried-length, untried-first}
use encedo_wg_hsm.Tunnel.System.{
  Sys, set_dns, probe_hem, save_state, uapi_listen, Opts, Tunnel, TunnelError, SelectError,
  exhausted, no_pub_key, not_created, not_up, no_psk, no_plan, refused, no_peer_left, no_fuel, Step,
}
use encedo_wg_hsm.Tunnel.Life.{
  with_pins, new_tunnel, ask, ask_create, demand, pin_endpoints, open_device, replace_routes,
  point_at, use_peer, mark_dns, configure_dns, probe_inside, configure_interface, see, listen_uapi,
  hold_next, hold_loop, hold_open, run_open, torn_down, alloc, zeroed_when, on_fail, give_peer,
  kids, walking, after_open, run_tunnel,
}

abbrev is_out : TunnelError → Bool
is_out no_fuel = true
is_out _ = false

-- The step does not fail for want of fuel.
abbrev Fueled : {A : Type 0} → Step A → Type 0
Fueled m = Ensures (λ w. Unit) m (λ a w. Unit) (λ e w. is_out e ≡ false)

Fueled-bind :
    {A B : Type 0} (m : Step A) (f : A → Step B)
    → Fueled m
    → ((a : A) → Fueled (f a))
    → Fueled (m >>= f)
Fueled-bind m f = Ensures-bind (λ a w. Unit) m f

Fueled-wrap :
    {E A : Type 0} (outer : E → TunnelError) (r : Result E A)
    → ((e : E) → is_out (outer e) ≡ false)
    → Fueled (lift (wrap outer r))
Fueled-wrap outer (ok a) h = record { at = λ w u. tt }
Fueled-wrap outer (err e) h = record { at = λ w u. h e }

Fueled-read : {A : Type 0} (f : Tunnel → A) → Fueled (read f)
Fueled-read f = record { at = λ w u. tt }

Fueled-update : (f : Tunnel → Tunnel) → Fueled (update f)
Fueled-update f = record { at = λ w u. tt }

Fueled-pure : {A : Type 0} (a : A) → Fueled (pure a)
Fueled-pure a = record { at = λ w u. tt }

Fueled-alloc : (b : Bytes) → Fueled (alloc b)
unfolding alloc
Fueled-alloc b = record { at = λ w u. tt }

zeroed_fueled :
    {A : Type 0} (key : ℕ) (r : Result TunnelError A × Tunnel)
    → Ends (λ a w. Unit {0}) (λ e w. is_out e ≡ false) r
    → Ends (λ a w. Unit {0}) (λ e w. is_out e ≡ false) (zeroed_when key r)
zeroed_fueled key (ok a, w) h = tt
zeroed_fueled key (err e, w) h = h

Fueled-on_fail : {A : Type 0} (key : ℕ) (m : Step A) → Fueled m → Fueled (on_fail key m)
unfolding on_fail
Fueled-on_fail key m h = record { at = λ w u. zeroed_fueled key (m w) (h.at w u) }

module _ (o : Opts) where
  Fueled-ask : (c : Sys) → Fueled (ask o c)
  unfolding ask
  Fueled-ask c = record { at = λ w u. tt }

  Fueled-demand : (c : Sys) → Fueled (demand o c)
  unfolding demand
  Fueled-demand c =
      Fueled-bind (ask o c) _ (Fueled-ask c) (λ r. Fueled-wrap (refused c) r (λ e. refl))

  pinned_fueled :
      (w : Tunnel) (r : Result PinError (Unit {0}) × Pins)
      → Ends (λ u w. Unit {0}) (λ e w. is_out e ≡ false) (with_pins r w)
  pinned_fueled w (ok u, pins) = tt
  pinned_fueled w (err e, pins) = refl

  Fueled-pin_endpoints : (plan : Plan) → Fueled (pin_endpoints o plan)
  unfolding pin_endpoints
  Fueled-pin_endpoints plan = record {
    at = λ w u. pinned_fueled w (add_pins o.table plan.endpoints w.pins);
  }

  Fueled-replace_routes : (later : Bool) (p : ConfigPeer) → Fueled (replace_routes o later p)
  unfolding replace_routes
  Fueled-replace_routes false p = record { at = λ w u. tt }
  Fueled-replace_routes true p = search (Fueled-bind, Fueled-read, Fueled-demand)

  Fueled-give_peer : (p : ConfigPeer) (psk : Bytes) → Fueled (give_peer o p psk)
  unfolding give_peer
  Fueled-give_peer p psk =
      search
        (
          Fueled-bind,
          Fueled-read,
          Fueled-pure,
          Fueled-demand,
          Fueled-wrap no_plan _ (λ e. refl),
          Fueled-pin_endpoints,
          Fueled-replace_routes,
        )
        depth 14

  Fueled-use_peer : (p : ConfigPeer) → Fueled (use_peer o p)
  unfolding use_peer point_at
  Fueled-use_peer p =
      search
        (
          Fueled-bind,
          Fueled-update,
          Fueled-wrap no_psk _ (λ e. refl),
          Fueled-alloc,
          Fueled-on_fail,
          Fueled-give_peer,
        )
        depth 14

  Fueled-mark_dns : (r : Result ℕ (Unit {0})) → Fueled (mark_dns o r)
  Fueled-mark_dns (ok u) = record { at = λ w u. tt }
  Fueled-mark_dns (err e) = record { at = λ w u. refl }

  Fueled-configure_dns :
      (none_given : Bool) (name : Bytes) → Fueled (configure_dns o none_given name)
  unfolding configure_dns
  Fueled-configure_dns true name = record { at = λ w u. tt }
  Fueled-configure_dns false name =
      Fueled-bind (ask o (set_dns name o.tree.iface.dns)) _ (Fueled-ask _) Fueled-mark_dns

  Fueled-probe_inside : (inside : Bool) (host : Bytes) → Fueled (probe_inside o inside host)
  unfolding probe_inside
  Fueled-probe_inside true host = Fueled-demand (probe_hem host)
  Fueled-probe_inside false host = record { at = λ w u. tt }

  Fueled-configure_interface : (p : ConfigPeer) → Fueled (configure_interface o p)
  unfolding configure_interface
  Fueled-configure_interface p =
      search (Fueled-bind, Fueled-read, Fueled-demand, Fueled-configure_dns, Fueled-probe_inside)
        depth 18

  Fueled-listen_uapi : (name : Bytes) → Fueled (listen_uapi o name)
  unfolding listen_uapi see
  Fueled-listen_uapi name =
      Fueled-bind (ask o (uapi_listen name)) _ (Fueled-ask _) (λ r. Fueled-update _)

  Fueled-ask_create : (name : Bytes) (mtu : ℕ) → Fueled (ask_create o name mtu)
  unfolding ask_create
  Fueled-ask_create name mtu = record { at = λ w u. tt }

  Fueled-open_device : Fueled (open_device o)
  unfolding open_device
  Fueled-open_device =
      search
        (
          Fueled-bind,
          Fueled-read,
          Fueled-ask,
          Fueled-ask_create,
          Fueled-update,
          Fueled-wrap no_pub_key _ (λ e. refl),
          Fueled-wrap not_created _ (λ e. refl),
          Fueled-wrap not_up _ (λ e. refl),
        )
        depth 18

module _ (o : Opts) where
  -- What `WalkPeers` answers where `p` failed, and the others before.
  abbrev walked : ConfigPeer → List ConfigPeer → Result FailoverError ConfigPeer
  walked p failed = (walk_peers o.tree.peers (some p) (kids failed)).answer

  -- The peer that is asked for is one that was not tried.
  chosen :
      (choice : Result SelectError ConfigPeer) (r : Result FailoverError ConfigPeer)
      → Ensures {W = Tunnel}
          (λ w. choice ≡ wrap exhausted r)
          (lift (wrap no_peer_left choice))
          (λ next w. r ≡ ok next)
          (λ e w. is_out e ≡ false)
  chosen (ok next) r = record { at = λ w e. wrap-eq-ok exhausted r (sym e) }
  chosen (err x) r = record { at = λ w e. refl }

  answer-some :
      (peers : List ConfigPeer) (found : Option ConfigPeer) (next : ConfigPeer)
      → answer_of peers found ≡ ok next
      → found ≡ some next
  answer-some peers (some q) next h = ap some (ok-injective h)
  answer-some peers none next h = cc

  walked-untried :
      (p next : ConfigPeer) (failed : List ConfigPeer)
      → walked p failed ≡ ok next
      → untried o.tree.peers (kids (next ∷ p ∷ failed)) < untried o.tree.peers (kids (p ∷ failed))
  unfolding walk_peers
  walked-untried p next failed h =
      untried-first o.tree.peers (kids (p ∷ failed))
        (answer-some o.tree.peers (first_untried o.tree.peers (kids (p ∷ failed))) next h)

  -- What `hold` does with the peer that was chosen.
  abbrev moved :
      (ConfigPeer → List ConfigPeer → Step (Unit {0}))
      → List ConfigPeer
      → ConfigPeer
      → Step (Unit {0})
  moved more failed next = do
    use_peer (walking o) next
    name ← read (λ w. w.name)
    saved ← ask (walking o) (save_state name next)
    more next failed

  Fueled-moved :
      (more : ConfigPeer → List ConfigPeer → Step (Unit {0})) (failed : List ConfigPeer)
      (next : ConfigPeer)
      → Fueled (more next failed)
      → Fueled (moved more failed next)
  Fueled-moved more failed next h =
      Fueled-bind (use_peer (walking o) next) _ (Fueled-use_peer (walking o) next) (λ u.
        Fueled-bind (read (λ w. w.name))
          (λ name. ask (walking o) (save_state name next) >>= λ saved. more next failed)
          (Fueled-read _)
          (λ name.
            Fueled-bind (ask (walking o) (save_state name next)) (λ saved. more next failed)
              (Fueled-ask (walking o) _) (λ saved. h)))

  Fueled-hold_next :
      (more : ConfigPeer → List ConfigPeer → Step (Unit {0})) (p : ConfigPeer)
      (failed : List ConfigPeer) (outcome : Await)
      → ((next : ConfigPeer) → walked p failed ≡ ok next → Fueled (more next (p ∷ failed)))
      → Fueled (hold_next (walking o) more p failed outcome)
  unfolding hold_next
  Fueled-hold_next more p failed Await.handshook h = record { at = λ w u. tt }
  Fueled-hold_next more p failed Await.ended h = record { at = λ w u. tt }
  Fueled-hold_next more p failed Await.silent h =
      Ensures-bind (λ choice w. choice ≡ wrap exhausted (walked p failed))
        (read (λ w. (walking o).select_next w.calls (p ∷ failed)))
        (λ choice. lift (wrap no_peer_left choice) >>= moved more (p ∷ failed))
        (record { at = λ w u. refl })
        (λ choice.
          Ensures-bind (λ next w. walked p failed ≡ ok next) (lift (wrap no_peer_left choice))
            (moved more (p ∷ failed)) (chosen choice (walked p failed))
            (λ next. record {
              at = λ w e. (Fueled-moved more (p ∷ failed) next (h next e)).at w tt;
            }))

  Fueled-hold_loop :
      (fuel : ℕ) (p : ConfigPeer) (failed : List ConfigPeer)
      → untried o.tree.peers (kids (p ∷ failed)) < fuel
      → Fueled (hold_loop (walking o) fuel p failed)
  unfolding hold_loop
  Fueled-hold_loop zero p failed h = absurd (omega arith)
  Fueled-hold_loop (suc fuel) p failed h =
      Fueled-bind (read (λ w. o.system.await w.calls))
        (hold_next (walking o) (λ q f. hold_loop (walking o) fuel q f) p failed) (Fueled-read _)
        (λ outcome.
          Fueled-hold_next (λ q f. hold_loop (walking o) fuel q f) p failed outcome
            (λ next e.
              Fueled-hold_loop fuel next (p ∷ failed)
                (omega (arith, walked-untried p next failed e, h))))

  Fueled-hold_open :
      (blind : Bool) (p : ConfigPeer)
      → Fueled (hold_open (walking o) (suc (length o.tree.peers)) blind p)
  unfolding hold_open
  Fueled-hold_open true p = record { at = λ w u. tt }
  Fueled-hold_open false p =
      Fueled-hold_loop (suc (length o.tree.peers)) p []
        (omega (arith, untried-length o.tree.peers (p.kid ∷ [])))

  Fueled-run_open : (p : ConfigPeer) → Fueled (run_open (walking o) (suc (length o.tree.peers)) p)
  unfolding run_open
  Fueled-run_open p =
      search
        (
          Fueled-bind, Fueled-read, Fueled-use_peer, Fueled-configure_interface, Fueled-demand,
          Fueled-listen_uapi, Fueled-hold_open,
        )
        depth 18

  -- The outcome is not that the fuel was used up.
  abbrev pub IsFinished : Result TunnelError (Unit {0}) × Tunnel → Type 0
  IsFinished (ok u, w) = Unit
  IsFinished (err e, w) = is_out e ≡ false

  finished :
      (r : Result TunnelError (Unit {0}) × Tunnel)
      → Ends (λ u w. Unit {0}) (λ e w. is_out e ≡ false) r
      → IsFinished (torn_down (walking o) r)
  finished (ok u, w) h = tt
  finished (err e, w) h = h

  after_open-IsFinished :
      (p : ConfigPeer) (r : Result TunnelError (Unit {0}) × Tunnel)
      → Ends (λ u w. Unit {0}) (λ e w. is_out e ≡ false) r
      → IsFinished (after_open (walking o) (suc (length o.tree.peers)) p r)
  after_open-IsFinished p (ok u, w) h =
      finished (run_open (walking o) (suc (length o.tree.peers)) p w) ((Fueled-run_open p).at w tt)
  after_open-IsFinished p (err e, w) h = h

  -- With `WalkPeers` as `SelectNext` and fuel for one round more than the tree has peers, a run of the
  -- tunnel does not end for want of fuel, whatever the system answers and whichever peer it starts with:
  -- the loop of `hold` ends within that many rounds.
  pub run_tunnel-IsFinished :
      (p : ConfigPeer) → IsFinished (run_tunnel (walking o) (suc (length o.tree.peers)) p)
  unfolding run_tunnel
  run_tunnel-IsFinished p =
      after_open-IsFinished p (open_device (walking o) (new_tunnel (walking o)))
        ((Fueled-open_device (walking o)).at (new_tunnel (walking o)) tt)

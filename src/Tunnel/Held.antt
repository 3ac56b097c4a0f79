-- ===== src/Tunnel/Held.antt =====
-- internal/tunnel: the fields of `Tunnel` say what the system holds for it, all through a run.
use encedo_wg_hsm.Common.{
  ℕ, zero, suc, ◌≡◌, refl, sym, ap, ◌∙◌, subst, ◌⊎◌, Option, none, some, All, Bool, true, false,
  ◌||◌, List, [], ◌∷◌, Bytes, Result, ok, err, wrap,
}
use encedo_wg_hsm.Config.Records.{ConfigPeer}
use encedo_wg_hsm.Config.Load.{unwrap_psk}
use encedo_wg_hsm.Runtime.Plan.{Plan}
use encedo_wg_hsm.Runtime.Pins.{Pins, PinError, add_pins}
use encedo_wg_hsm.Runtime.Restored.{IsOwned, Keeps-add_pins}
use encedo_wg_hsm.Effect.{
  lift, read, Ends, Ensures, Ensures-bind, Keeps, Keeps-pure, Keeps-fail, Keeps-lift, Keeps-bind,
  keeps_rules,
}
use encedo_wg_hsm.Tunnel.Failover.{Await}
use encedo_wg_hsm.Tunnel.System.{
  Sys, create_tun, device_up, write_pub, ipc_set, link_up, set_mtu, add_routes, set_dns, probe_hem,
  save_state, uapi_listen, revert_dns, close_device, link_down, remove_pub, remove_state, Opts,
  Tunnel, TunnelError, no_fuel, refused, Step, note_call, no_psk,
}
use encedo_wg_hsm.Tunnel.Life.{
  with_pins, ask, demand, pin_endpoints, replace_routes, use_peer, configure_dns, probe_inside,
  configure_interface, point_at, see, mark_dns, listen_uapi, hold_next, hold_loop, hold_open,
  run_open, zero_at, zero_key, alloc, zeroed_when, on_fail, give_peer,
}
use encedo_wg_hsm.Tunnel.Wiped.{IsWiped, IsWiped-but_last, zero_key-zero_at}

module _ (o : Opts) where
  abbrev pub was_ok : {A : Type 0} → Result ℕ A → Bool
  was_ok (ok a) = true
  was_ok (err e) = false

  -- Whether a tunnel device was created and is not closed yet, from the calls.
  abbrev pub is_open : List Sys → Bool
  is_open [] = false
  is_open (create_tun name mtu ∷ log) = was_ok (o.system.on_create log name mtu) || is_open log
  is_open (close_device ∷ log) = false
  is_open (_ ∷ log) = is_open log

  -- Whether name servers were given to the resolver and are not taken back yet, by its answers.
  abbrev pub unless_reverted : Result ℕ (Unit {0}) → Bool → Bool
  unless_reverted (ok u) before = false
  unless_reverted (err e) before = before

  abbrev pub has_dns : List Sys → Bool
  has_dns [] = false
  has_dns (set_dns name servers ∷ log) =
      was_ok (o.system.on_call log (set_dns name servers)) || has_dns log
  has_dns (revert_dns name ∷ log) =
      unless_reverted (o.system.on_call log (revert_dns name)) (has_dns log)
  has_dns (_ ∷ log) = has_dns log

  -- Whether a failed revert was reported.
  abbrev pub warns_of_dns : List Sys → Bool
  warns_of_dns [] = false
  warns_of_dns (revert_dns name ∷ log) = true
  warns_of_dns (_ ∷ log) = warns_of_dns log

  abbrev pub IsReverted : Tunnel → Type 0
  IsReverted w = (has_dns w.calls ≡ false) ⊎ (warns_of_dns w.warnings ≡ true)

  -- The fields of `Tunnel` say what the system holds for it, and each pre-shared key in memory is
  -- zeroed but the one in use and, where `extra` points to one, the one about to be used.
  pub record Holding (extra : Option ℕ) (w : Tunnel) : Type 0 where
    pub device : is_open w.calls ≡ w.opened
    pub dns : has_dns w.calls ≡ w.dns_set
    pub pins : IsOwned o.table w.pins
    pub keys : All IsWiped (zero_key extra (zero_key w.psk w.buffers))

  abbrev pub IsTrue : Tunnel → Type 0
  IsTrue = Holding none

  abbrev pub plain : Sys → Bool
  plain (create_tun name mtu) = false
  plain (set_dns name servers) = false
  plain (revert_dns name) = false
  plain close_device = false
  plain _ = true

  module _ (extra : Option ℕ) where
    -- A call that neither opens nor closes anything.
    pub note-Holding :
        (c : Sys) (w : Tunnel) → plain c ≡ true → Holding extra w → Holding extra (note_call c w)
    note-Holding (create_tun name mtu) w p h = cc
    note-Holding (set_dns name servers) w p h = cc
    note-Holding (revert_dns name) w p h = cc
    note-Holding close_device w p h = cc
    note-Holding device_up w p h = record {
      device = h.device;
      dns = h.dns;
      pins = h.pins;
      keys = h.keys;
    }
    note-Holding (write_pub a) w p h = record {
      device = h.device;
      dns = h.dns;
      pins = h.pins;
      keys = h.keys;
    }
    note-Holding (ipc_set a b c) w p h = record {
      device = h.device;
      dns = h.dns;
      pins = h.pins;
      keys = h.keys;
    }
    note-Holding (link_up a b) w p h = record {
      device = h.device;
      dns = h.dns;
      pins = h.pins;
      keys = h.keys;
    }
    note-Holding (set_mtu a b) w p h = record {
      device = h.device;
      dns = h.dns;
      pins = h.pins;
      keys = h.keys;
    }
    note-Holding (add_routes a b) w p h = record {
      device = h.device;
      dns = h.dns;
      pins = h.pins;
      keys = h.keys;
    }
    note-Holding (probe_hem a) w p h = record {
      device = h.device;
      dns = h.dns;
      pins = h.pins;
      keys = h.keys;
    }
    note-Holding (save_state a b) w p h = record {
      device = h.device;
      dns = h.dns;
      pins = h.pins;
      keys = h.keys;
    }
    note-Holding (uapi_listen a) w p h = record {
      device = h.device;
      dns = h.dns;
      pins = h.pins;
      keys = h.keys;
    }
    note-Holding (link_down a) w p h = record {
      device = h.device;
      dns = h.dns;
      pins = h.pins;
      keys = h.keys;
    }
    note-Holding (remove_pub a) w p h = record {
      device = h.device;
      dns = h.dns;
      pins = h.pins;
      keys = h.keys;
    }
    note-Holding (remove_state a) w p h = record {
      device = h.device;
      dns = h.dns;
      pins = h.pins;
      keys = h.keys;
    }

    Keeps-ask : (c : Sys) → plain c ≡ true → Keeps (Holding extra) (ask o c)
    unfolding ask
    Keeps-ask c p = record { at = λ w h. note-Holding c w p h }

    Keeps-demand : (c : Sys) → plain c ≡ true → Keeps (Holding extra) (demand o c)
    unfolding demand
    Keeps-demand c p = Keeps-bind (ask o c) _ (Keeps-ask c p) (λ r. Keeps-lift (wrap (refused c) r))

    Keeps-read : {A : Type 0} (f : Tunnel → A) → Keeps {E = TunnelError} (Holding extra) (read f)
    Keeps-read f = record { at = λ w h. h }

    pinned-Ends :
        (w : Tunnel) (r : Result PinError (Unit {0}) × Pins)
        → Holding extra w
        → Ends (λ u. IsOwned o.table) (λ e. IsOwned o.table) r
        → Ends (λ u. Holding extra) (λ e. Holding extra) (with_pins r w)
    pinned-Ends w (ok u, pins) h k = record {
      device = h.device;
      dns = h.dns;
      pins = k;
      keys = h.keys;
    }
    pinned-Ends w (err e, pins) h k = record {
      device = h.device;
      dns = h.dns;
      pins = k;
      keys = h.keys;
    }

    Keeps-pin_endpoints : (plan : Plan) → Keeps (Holding extra) (pin_endpoints o plan)
    unfolding pin_endpoints
    Keeps-pin_endpoints plan = record {
      at = λ w h.
          pinned-Ends w (add_pins o.table plan.endpoints w.pins) h
            ((Keeps-add_pins o.table plan.endpoints).at w.pins h.pins);
    }

    Keeps-replace_routes :
        (later : Bool) (p : ConfigPeer) → Keeps (Holding extra) (replace_routes o later p)
    unfolding replace_routes
    Keeps-replace_routes false p = Keeps-pure tt
    Keeps-replace_routes true p =
        search (keeps_rules, Keeps-read, Keeps-demand (add_routes _ _) refl)

  Keeps-give_peer :
      (extra : Option ℕ) (p : ConfigPeer) (psk : Bytes) → Keeps (Holding extra) (give_peer o p psk)
  unfolding give_peer
  Keeps-give_peer extra p psk =
      search
        (
          keeps_rules,
          Keeps-read extra,
          Keeps-pin_endpoints extra,
          Keeps-replace_routes extra,
          Keeps-demand extra (ipc_set _ _ _) refl,
        )
        depth 14

  Ensures-alloc : (b : Bytes) → Ensures IsTrue (alloc b) (λ key. Holding (some key)) (λ e. IsTrue)
  unfolding alloc
  Ensures-alloc b = record {
    at = λ w h. record {
      device = h.device;
      dns = h.dns;
      pins = h.pins;
      keys = IsWiped-but_last w.psk w.buffers b h.keys;
    };
  }

  -- A key that was about to be used is zeroed.
  zeroed-IsTrue :
      (key : ℕ) (w : Tunnel)
      → Holding (some key) w
      → IsTrue (record w { buffers = zero_at key w.buffers })
  zeroed-IsTrue key w h = record {
    device = h.device;
    dns = h.dns;
    pins = h.pins;
    keys = subst (All IsWiped) (sym (zero_key-zero_at w.psk key w.buffers)) h.keys;
  }

  zeroed_when-IsTrue :
      {A : Type 0} (key : ℕ) (r : Result TunnelError A × Tunnel)
      → Ends (λ a. Holding (some key)) (λ e. Holding (some key)) r
      → Ends (λ a. Holding (some key)) (λ e. IsTrue) (zeroed_when key r)
  zeroed_when-IsTrue key (ok a, w) h = h
  zeroed_when-IsTrue key (err e, w) h = zeroed-IsTrue key w h

  Ensures-on_fail :
      {A : Type 0} (key : ℕ) (m : Step A)
      → Keeps (Holding (some key)) m
      → Ensures (Holding (some key)) (on_fail key m) (λ a. Holding (some key)) (λ e. IsTrue)
  unfolding on_fail
  Ensures-on_fail key m h = record { at = λ w k. zeroed_when-IsTrue key (m w) (h.at w k) }

  Ensures-point_at :
      (p : ConfigPeer) (key : ℕ) (plan : Plan)
      → Ensures (Holding (some key)) (point_at o p key plan) (λ u. IsTrue) (λ e. IsTrue)
  unfolding point_at
  Ensures-point_at p key plan = record {
    at = λ w h. record { device = h.device; dns = h.dns; pins = h.pins; keys = h.keys };
  }

  Keeps-use_peer : (p : ConfigPeer) → Keeps IsTrue (use_peer o p)
  unfolding use_peer
  Keeps-use_peer p =
      Keeps-bind (lift (wrap no_psk (unwrap_psk o.hem o.use_tok o.tree p))) _ (Keeps-lift _) (λ psk.
        Ensures-bind (λ key. Holding (some key)) (alloc psk) _ (Ensures-alloc psk)
          (λ key.
            Ensures-bind (λ plan. Holding (some key)) (on_fail key (give_peer o p psk))
              (λ plan. point_at o p key plan)
              (Ensures-on_fail key (give_peer o p psk) (Keeps-give_peer (some key) p psk))
              (Ensures-point_at p key)))

  -- The answer to the name servers, and the field that is set behind it.
  dns_settled :
      (name : Bytes) (w : Tunnel) (r : Result ℕ (Unit {0}))
      → o.system.on_call w.calls (set_dns name o.tree.iface.dns) ≡ r
      → IsTrue w
      → Ends
          (λ u. IsTrue)
          (λ e. IsTrue)
          (mark_dns o r (note_call (set_dns name o.tree.iface.dns) w))
  dns_settled name w (ok u) e h = record {
    device = h.device;
    dns = ap (λ a. was_ok a || has_dns w.calls) e;
    pins = h.pins;
    keys = h.keys;
  }
  dns_settled name w (err x) e h = record {
    device = h.device;
    dns = ap (λ a. was_ok a || has_dns w.calls) e ∙ h.dns;
    pins = h.pins;
    keys = h.keys;
  }

  Keeps-configure_dns :
      (none_given : Bool) (name : Bytes) → Keeps IsTrue (configure_dns o none_given name)
  unfolding configure_dns ask
  Keeps-configure_dns true name = Keeps-pure tt
  Keeps-configure_dns false name = record {
    at =
        λ w h. dns_settled name w (o.system.on_call w.calls (set_dns name o.tree.iface.dns)) refl h;
  }

  Keeps-probe_inside : (inside : Bool) (host : Bytes) → Keeps IsTrue (probe_inside o inside host)
  unfolding probe_inside
  Keeps-probe_inside true host = Keeps-demand none (probe_hem host) refl
  Keeps-probe_inside false host = Keeps-pure tt

  Keeps-configure_interface : (p : ConfigPeer) → Keeps IsTrue (configure_interface o p)
  unfolding configure_interface
  Keeps-configure_interface p =
      search
        (
          keeps_rules,
          Keeps-read none,
          Keeps-demand none (link_up _ _) refl,
          Keeps-demand none (set_mtu _ _) refl,
          Keeps-demand none (add_routes _ _) refl,
          Keeps-configure_dns,
          Keeps-probe_inside,
        )
        depth 18

  Keeps-see : (r : Result ℕ (Unit {0})) → Keeps IsTrue (see o r)
  unfolding see
  Keeps-see r = record {
    at = λ w h. record { device = h.device; dns = h.dns; pins = h.pins; keys = h.keys };
  }

  Keeps-listen_uapi : (name : Bytes) → Keeps IsTrue (listen_uapi o name)
  unfolding listen_uapi
  Keeps-listen_uapi name = search (keeps_rules, Keeps-ask none (uapi_listen _) refl, Keeps-see)

  Keeps-hold_next :
      (more : ConfigPeer → List ConfigPeer → Step (Unit {0})) (p : ConfigPeer)
      (failed : List ConfigPeer) (outcome : Await)
      → ((q : ConfigPeer) (t : List ConfigPeer) → Keeps IsTrue (more q t))
      → Keeps IsTrue (hold_next o more p failed outcome)
  unfolding hold_next
  Keeps-hold_next more p failed Await.handshook h = Keeps-pure tt
  Keeps-hold_next more p failed Await.ended h = Keeps-pure tt
  Keeps-hold_next more p failed Await.silent h =
      search (keeps_rules, Keeps-read none, Keeps-use_peer, Keeps-ask none (save_state _ _) refl, h)
        depth 14

  Keeps-hold_loop :
      (fuel : ℕ) (p : ConfigPeer) (failed : List ConfigPeer)
      → Keeps IsTrue (hold_loop o fuel p failed)
  unfolding hold_loop
  Keeps-hold_loop zero p failed = Keeps-fail no_fuel
  Keeps-hold_loop (suc fuel) p failed =
      Keeps-bind (read (λ w. o.system.await w.calls))
        (hold_next o (λ q t. hold_loop o fuel q t) p failed) (Keeps-read none _)
        (λ outcome.
          Keeps-hold_next (λ q t. hold_loop o fuel q t) p failed outcome
            (λ q t. Keeps-hold_loop fuel q t))

  Keeps-hold_open :
      (fuel : ℕ) (blind : Bool) (p : ConfigPeer) → Keeps IsTrue (hold_open o fuel blind p)
  unfolding hold_open
  Keeps-hold_open fuel true p = Keeps-pure tt
  Keeps-hold_open fuel false p = Keeps-hold_loop fuel p []

  pub Keeps-run_open : (fuel : ℕ) (p : ConfigPeer) → Keeps IsTrue (run_open o fuel p)
  unfolding run_open
  Keeps-run_open fuel p =
      search
        (
          keeps_rules,
          Keeps-read none,
          Keeps-use_peer,
          Keeps-configure_interface,
          Keeps-demand none (save_state _ _) refl,
          Keeps-listen_uapi,
          Keeps-hold_open,
        )
        depth 18

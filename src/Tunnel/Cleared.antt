-- ===== src/Tunnel/Cleared.antt =====
-- internal/tunnel: what `Run` leaves behind.
use encedo_wg_hsm.Common.{
  ℕ, ◌≡◌, refl, ap, ◌∙◌, subst, inl, inr, none, All, false, ◌||◌, if◌then◌else◌, Bytes, if_split,
  Result, ok, err, wrap,
}
use encedo_wg_hsm.Config.Records.{ConfigPeer}
use encedo_wg_hsm.Config.Load.{mtu_of}
use encedo_wg_hsm.Runtime.Restored.{IsRestored, restored, no_pins-IsOwned}
use encedo_wg_hsm.Effect.{
  lift, read, update, Ends, Ensures, Ensures-pure, Ensures-fail, Ensures-lift, Ensures-bind,
}
use encedo_wg_hsm.Tunnel.System.{
  create_tun, device_up, write_pub, revert_dns, close_device, Opts, Tunnel, TunnelError, no_pub_key,
  not_created, not_up, note_call,
}
use encedo_wg_hsm.Tunnel.Life.{
  open_as, new_tunnel, ask, ask_create, open_device, run_open, teardown, torn_down, reverted,
  revert, run_tunnel,
}
use encedo_wg_hsm.Tunnel.Wiped.{IsWiped}
use encedo_wg_hsm.Tunnel.Held.{
  was_ok, is_open, unless_reverted, has_dns, IsReverted, IsTrue, note-Holding, Keeps-run_open,
}

module _ (o : Opts) where
  -- No device is left, no name server but with a warning, of the host routes only those that `Restore`
  -- warns of, and each buffer of a pre-shared key is zeroed.
  pub record IsCleared (w : Tunnel) : Type 0 where
    pub device : is_open o w.calls ≡ false
    pub dns : IsReverted o w
    pub pins : IsRestored o.table w.pins
    pub keys : All IsWiped w.buffers

  -- What the revert makes of the name servers, and that it leaves the device.
  reverted-IsReverted :
      (name : Bytes) (w : Tunnel) (answer : Result ℕ (Unit {0}))
      → o.system.on_call w.calls (revert_dns name) ≡ answer
      → IsReverted o (reverted o (revert_dns name) answer (note_call (revert_dns name) w))
  reverted-IsReverted name w (ok u) e = inl (ap (λ a. unless_reverted o a (has_dns o w.calls)) e)
  reverted-IsReverted name w (err x) e = inr refl

  reverted-is_open :
      (name : Bytes) (w : Tunnel) (answer : Result ℕ (Unit {0}))
      → is_open o (reverted o (revert_dns name) answer (note_call (revert_dns name) w)).calls
        ≡ is_open o w.calls
  reverted-is_open name w (ok u) = refl
  reverted-is_open name w (err x) = refl

  abbrev after_dns : Tunnel → Tunnel
  after_dns w = if w.dns_set then revert o w else w

  after_dns-IsReverted : (w : Tunnel) → IsTrue o w → IsReverted o (after_dns w)
  unfolding revert
  after_dns-IsReverted w h =
      if_split (IsReverted o) w.dns_set _ _ (λ given. reverted-IsReverted w.name w _ refl)
        (λ none_given. inl (h.dns ∙ none_given))

  after_dns-is_open : (w : Tunnel) → IsTrue o w → is_open o (after_dns w).calls ≡ w.opened
  unfolding revert
  after_dns-is_open w h =
      if_split (λ (x : Tunnel). is_open o x.calls ≡ w.opened) w.dns_set _ _
        (λ given. reverted-is_open w.name w _ ∙ h.device) (λ none_given. h.device)

  teardown-IsCleared : (w : Tunnel) → IsTrue o w → IsCleared (teardown o w)
  unfolding teardown
  teardown-IsCleared w h = record {
    device =
        if_split (λ (x : Tunnel). is_open o x.calls ≡ false) w.opened _ _ (λ opened. refl)
          (λ closed. after_dns-is_open w h ∙ closed);
    dns =
        if_split (IsReverted o) w.opened (note_call close_device (after_dns w)) (after_dns w)
          (λ opened. after_dns-IsReverted w h) (λ closed. after_dns-IsReverted w h);
    pins = restored o.table w.pins h.pins;
    keys = h.keys;
  }

  -- The fields are true once those that an opened device sets are set.
  abbrev IsOpening : Result ℕ Bytes → Tunnel → Type 0
  IsOpening (ok name) w = IsTrue o (open_as name w)
  IsOpening (err e) w = Unit

  created-IsOpening :
      (name : Bytes) (mtu : ℕ) (w : Tunnel) (r : Result ℕ Bytes)
      → o.system.on_create w.calls name mtu ≡ r
      → IsTrue o w
      → IsOpening r (note_call (create_tun name mtu) w)
  created-IsOpening name mtu w (ok given) e h = record {
    device = ap (λ a. was_ok o a || is_open o w.calls) e;
    dns = h.dns;
    pins = h.pins;
    keys = h.keys;
  }
  created-IsOpening name mtu w (err x) e h = tt

  created_or_not :
      (r : Result ℕ Bytes)
      → Ensures
          (IsOpening r)
          (lift (wrap not_created r))
          (λ name w. IsTrue o (open_as name w))
          (λ e w. Unit)
  created_or_not (ok name) = Ensures-pure name (λ w h. h)
  created_or_not (err e) = Ensures-fail (not_created e) (λ w h. tt)

  Ensures-open_device : Ensures (IsTrue o) (open_device o) (λ u. IsTrue o) (λ e w. Unit)
  unfolding open_device ask_create ask
  Ensures-open_device =
      Ensures-bind (λ key. IsTrue o)
        (lift (wrap no_pub_key (o.hem.get_pub_key o.use_tok o.tree.if_kid))) _
        (Ensures-lift _ (λ key e w h. h) (λ e w h. tt))
        (λ key.
          Ensures-bind (λ name. IsTrue o) (read (λ w. w.name)) _ (record { at = λ w h. h })
            (λ name.
              Ensures-bind IsOpening (ask_create o name (mtu_of o.tree)) _
                (record {
                  at = λ w h.
                      created-IsOpening name (mtu_of o.tree) w
                        (o.system.on_create w.calls name (mtu_of o.tree)) refl h;
                })
                (λ answer.
                  Ensures-bind (λ given w. IsTrue o (open_as given w))
                    (lift (wrap not_created answer)) _ (created_or_not answer)
                    (λ given.
                      Ensures-bind (λ u. IsTrue o) (update (open_as given)) _
                        (record { at = λ w h. h })
                        (λ u.
                          Ensures-bind (λ up. IsTrue o) (ask o device_up) _
                            (record { at = λ w h. note-Holding o none device_up w refl h })
                            (λ up.
                              Ensures-bind (λ done. IsTrue o) (lift (wrap not_up up))
                                (λ done. update (λ w. note_call (write_pub w.name) w))
                                (Ensures-lift _ (λ done e w h. h) (λ e w h. tt))
                                (λ done. record {
                                  at = λ w h. note-Holding o none (write_pub w.name) w refl h;
                                })))))))

  ended-IsCleared :
      (fuel : ℕ) (p : ConfigPeer) (r : Result TunnelError (Unit {0}) × Tunnel)
      → Ends (λ u. IsTrue o) (λ e. IsTrue o) r
      → IsCleared (torn_down o r).1
  ended-IsCleared fuel p (ok u, w) h = teardown-IsCleared w h
  ended-IsCleared fuel p (err e, w) h = teardown-IsCleared w h

  -- If the device was opened, then a run of the tunnel, however the system answers, whichever peers
  -- `SelectNext` names and however the run ends, leaves no tunnel device that is not closed; no name server
  -- that an accepted `SetDNS` gave, by the answers of the system, unless a warning says so; of the host
  -- routes that it installed none but those that a warning names; and each buffer that `UnwrapPSK` returned
  -- zeroed.
  pub run_tunnel-IsCleared :
      (fuel : ℕ) (p : ConfigPeer) (w : Tunnel)
      → open_device o (new_tunnel o) ≡ (ok tt, w)
      → IsCleared (run_tunnel o fuel p).1
  unfolding run_tunnel
  run_tunnel-IsCleared fuel p w h =
      let true_now : IsTrue o w = subst (Ends (λ u. IsTrue o) (λ e w. Unit {0})) h (
        Ensures-open_device.at (new_tunnel o)
          (record { device = refl; dns = refl; pins = no_pins-IsOwned o.table; keys = tt })) in
      rw h (ended-IsCleared fuel p (run_open o fuel p w) ((Keeps-run_open o fuel p).at w true_now))

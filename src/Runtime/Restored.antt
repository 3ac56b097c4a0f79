-- ===== src/Runtime/Restored.antt =====
-- internal/runtime: what `Restore` takes back.
use encedo_wg_hsm.Common.{
  ℕ, ◌≡◌, refl, sym, ap, ◌∙◌, subst, ◌⊎◌, inl, inr, Bool, true, false, ◌||◌, Bool-cases, List, [],
  ◌∷◌, ◌++◌, append_assoc, append-nil, All, Result, ok, err, wrap,
}
use encedo_wg_hsm.Netip.{Addr}
use encedo_wg_hsm.Effect.{lift, read, Ends, Keeps, Keeps-pure, Keeps-lift, Keeps-bind}
use encedo_wg_hsm.Runtime.Pins.{
  kept, PinnedRoute, add_route, del_route, RoutingTable, PinError, no_gateway, Pins, is6,
  after_call, pin_route, pin_addr, add_pins, warned, unpin_route, delete_routes, restore,
}
use encedo_wg_hsm.Runtime.Table.{
  attempted, route_eq, has_route, has_route-last, has_route-front, onto_installed, installed,
  onto_refused, refused, is_present, added_present, unadded_present,
}

module _ (table : RoutingTable) where
  -- The pins are the routes that were installed, and no deletion was asked for.
  pub record IsOwned (w : Pins) : Type 0 where
    pub installed_all : installed table w.calls ≡ w.routes
    pub none_attempted : attempted w.calls ≡ []
    pub warned_of : w.left ≡ refused table w.calls
    pub present :
        (r : PinnedRoute) → (is_present table w.calls r ≡ false) ⊎ (has_route r w.routes ≡ true)

  pub no_pins-IsOwned : IsOwned (record { routes = []; left = []; calls = [] })
  no_pins-IsOwned = record {
    installed_all = refl;
    none_attempted = refl;
    warned_of = refl;
    present = λ r. inl refl;
  }

  kept-IsOwned :
      (r : PinnedRoute) (w : Pins) (answer : Result ℕ (Unit {0}))
      → table.on_add w.calls r ≡ answer
      → IsOwned w
      → Ends (λ u. IsOwned) (λ e. IsOwned) (kept table r answer (after_call (add_route r) w))
  kept-IsOwned r w (ok u) e h = record {
    installed_all =
        ap (λ a. onto_installed table a r (installed table w.calls)) e
        ∙ ap (λ rs. rs ++ (r ∷ [])) h.installed_all;
    none_attempted = h.none_attempted;
    warned_of = h.warned_of;
    present = λ x. added_present table x r w.calls w.routes (h.present x);
  }
  kept-IsOwned r w (err x) e h = record {
    installed_all =
        ap (λ a. onto_installed table a r (installed table w.calls)) e ∙ h.installed_all;
    none_attempted = h.none_attempted;
    warned_of = h.warned_of;
    present = λ y. rw (unadded_present table y r w.calls e) (h.present y);
  }

  Keeps-pin_route : (r : PinnedRoute) → Keeps IsOwned (pin_route table r)
  unfolding pin_route
  Keeps-pin_route r = record { at = λ w h. kept-IsOwned r w (table.on_add w.calls r) refl h }

  Keeps-pin_addr : (a : Addr) → Keeps IsOwned (pin_addr table a)
  unfolding pin_addr
  Keeps-pin_addr a =
      Keeps-bind (read (λ w. w.calls)) _ (record { at = λ w h. h })
        (λ calls.
          Keeps-bind (lift (wrap (no_gateway a) (table.default_gateway calls (is6 a)))) _
            (Keeps-lift _)
            (λ (gw, iface). Keeps-pin_route (record { addr = a; gw = gw; iface = iface })))

  pub Keeps-add_pins : (addrs : List Addr) → Keeps IsOwned (add_pins table addrs)
  unfolding add_pins
  Keeps-add_pins [] = Keeps-pure tt
  Keeps-add_pins (a ∷ addrs) =
      Keeps-bind (pin_addr table a) _ (Keeps-pin_addr a) (λ u. Keeps-add_pins addrs)

  -- What stands in the table is still to be deleted, or it stays with a warning.
  abbrev IsKnown : List PinnedRoute → Pins → PinnedRoute → Type 0
  IsKnown rs w r =
      (is_present table w.calls r ≡ false) ⊎ ((has_route r rs ≡ true) ⊎ (has_route r w.left ≡ true))

  -- What the deletions of `rs` make of the pins.
  record IsDeleting (rs : List PinnedRoute) (w w' : Pins) : Type 0 where
    same_installed : installed table w'.calls ≡ installed table w.calls
    all_attempted : attempted w'.calls ≡ attempted w.calls ++ rs
    warned_of : w'.left ≡ refused table w'.calls
    known : (r : PinnedRoute) → IsKnown [] w' r

  unpin-warned :
      (x : PinnedRoute) (w : Pins) (answer : Result ℕ (Unit {0}))
      → table.on_del w.calls x ≡ answer
      → w.left ≡ refused table w.calls
      → (warned table x answer (after_call (del_route x) w)).left
        ≡ refused table (warned table x answer (after_call (del_route x) w)).calls
  unpin-warned x w (ok u) e h = h ∙ sym (ap (λ a. onto_refused table a x (refused table w.calls)) e)
  unpin-warned x w (err y) e h =
      ap (λ rs. rs ++ (x ∷ [])) h ∙ sym (ap (λ a. onto_refused table a x (refused table w.calls)) e)

  -- The same, with what the comparison with the next route came to.
  abbrev IsOther : List PinnedRoute → Pins → PinnedRoute → Bool → Type 0
  IsOther rs w r b =
      (is_present table w.calls r ≡ false)
      ⊎ (((b || has_route r rs) ≡ true) ⊎ (has_route r w.left ≡ true))

  unpin-IsKnown :
      (x : PinnedRoute) (rs : List PinnedRoute) (w : Pins) (answer : Result ℕ (Unit {0}))
      → table.on_del w.calls x ≡ answer
      → (r : PinnedRoute) → IsKnown (x ∷ rs) w r
      → IsKnown rs (warned table x answer (after_call (del_route x) w)) r
  unpin-IsKnown x rs w answer e r h = elim (Bool-cases (route_eq x r)) [
    | inl k ↦ met answer e k
    | inr k ↦ passed answer k (subst (IsOther rs w r) k h)
  ]
    where
      met :
          (a : Result ℕ (Unit {0}))
          → table.on_del w.calls x ≡ a
          → route_eq x r ≡ true
          → IsKnown rs (warned table x a (after_call (del_route x) w)) r
      met (ok u) e k = rw (k, e) (inl refl)
      met (err y) e k = inr (inr (has_route-last r x w.left k))

      passed :
          (a : Result ℕ (Unit {0}))
          → route_eq x r ≡ false
          → IsOther rs w r false
          → IsKnown rs (warned table x a (after_call (del_route x) w)) r
      passed (ok u) k h' = rw k h'
      passed (err y) k (inl g) = rw k (inl g)
      passed (err y) k (inr (inl g)) = rw k (inr (inl g))
      passed (err y) k (inr (inr g)) = inr (inr (has_route-front r w.left (x ∷ []) g))

  unpin_calls :
      (x : PinnedRoute) (w : Pins) (answer : Result ℕ (Unit {0}))
      → (warned table x answer (after_call (del_route x) w)).calls ≡ del_route x ∷ w.calls
  unpin_calls x w (ok u) = refl
  unpin_calls x w (err e) = refl

  delete_routes-IsDeleting :
      (rs : List PinnedRoute) (w : Pins)
      → w.left ≡ refused table w.calls
      → ((r : PinnedRoute) → IsKnown rs w r)
      → IsDeleting rs w (delete_routes table rs w)
  unfolding delete_routes unpin_route
  delete_routes-IsDeleting [] w h k = record {
    same_installed = refl;
    all_attempted = sym (append-nil (attempted w.calls));
    warned_of = h;
    known = k;
  }
  delete_routes-IsDeleting (x ∷ rs) w h k =
      let next = warned table x (table.on_del w.calls x) (after_call (del_route x) w) in
      let rest =
        delete_routes-IsDeleting rs next (unpin-warned x w (table.on_del w.calls x) refl h)
          (λ r. unpin-IsKnown x rs w (table.on_del w.calls x) refl r (k r)) in
      let calls = unpin_calls x w (table.on_del w.calls x) in
      record {
        same_installed = rest.same_installed ∙ ap (installed table) calls;
        all_attempted =
            rest.all_attempted
            ∙ ap (λ log. attempted log ++ rs) calls
            ∙ append_assoc (attempted w.calls) (x ∷ []) rs;
        warned_of = rest.warned_of;
        known = rest.known;
      }

  -- A route that was installed stands in the table no more, or a warning names it.
  abbrev pub IsGone : Pins → PinnedRoute → Type 0
  IsGone w r = (is_present table w.calls r ≡ false) ⊎ (has_route r w.left ≡ true)

  pub record IsRestored (w : Pins) : Type 0 where
    pub no_pin : w.routes ≡ []
    pub all_attempted : attempted w.calls ≡ installed table w.calls
    pub warned_of : w.left ≡ refused table w.calls
    pub gone : All (IsGone w) (installed table w.calls)

  pub restored : (w : Pins) → IsOwned w → IsRestored (restore table w)
  unfolding restore
  restored w h =
      let end =
        delete_routes-IsDeleting w.routes w h.warned_of
          (λ r. elim (h.present r) [ inl k ↦ inl k | inr k ↦ inr (inl k) ]) in
      record {
        no_pin = refl;
        all_attempted =
            end.all_attempted
            ∙ ap (λ ds. ds ++ w.routes) h.none_attempted
            ∙ sym (end.same_installed ∙ h.installed_all);
        warned_of = end.warned_of;
        gone =
            each (delete_routes table w.routes w)
              (installed table (delete_routes table w.routes w).calls) end.known;
      }
    where
      each :
          (w' : Pins) (rs : List PinnedRoute)
          → ((r : PinnedRoute) → IsKnown [] w' r)
          → All (IsGone w') rs
      each w' [] k = tt
      each w' (r ∷ rs) k = (
        elim (k r) [ inl a ↦ inl a | inr b ↦ elim b [ inl c ↦ cc | inr d ↦ inr d ] ],
        each w' rs k,
      )

  pub at_end :
      {A : Type 0} (o : Result PinError A × Pins)
      → Ends (λ a. IsOwned) (λ e. IsOwned) o
      → IsOwned o.1
  at_end (ok a, w) h = h
  at_end (err e, w) h = h

  -- Whatever the platform answers, and whether `Add` succeeds or stops at a failure, a `Restore` behind
  -- it asks for the deletion of exactly the host routes that `Add` installed, in their order and with the
  -- gateway and the link they were installed with, and keeps no pin. The routes whose deletion is refused
  -- are exactly those that it warns of, and each route that was installed is out of the table, by the
  -- platform's answers, or is one that a warning names.
  pub restore-add_pins :
      (addrs : List Addr)
      → IsRestored
          (restore table (add_pins table addrs (record { routes = []; left = []; calls = [] })).1)
  restore-add_pins addrs =
      restored (add_pins table addrs (record { routes = []; left = []; calls = [] })).1 (
        at_end (add_pins table addrs (record { routes = []; left = []; calls = [] })) (
          (Keeps-add_pins addrs).at (record { routes = []; left = []; calls = [] })
            no_pins-IsOwned))

-- ===== src/Runtime/Planned.antt =====
-- internal/runtime: which addresses `PlanRouting` finds.
use encedo_wg_hsm.Common.{
  ◌≡◌, subst, ◌⊎◌, ◌↔◌, inl, inr, true, false, if_split, List, [], ◌∷◌, ◌++◌, append_assoc, Bytes,
  is_empty, All, Result, ok, err, wrap, wrap-eq-ok, Holds, Holds-bind,
}
use encedo_wg_hsm.Netip.{Addr}
use encedo_wg_hsm.Runtime.Plan.{
  RoutedPeer, Plan, PlanError, Names, unresolved, covered, contains_addr, add_endpoints,
  resolve_host, host_of, hem_host_of, plan_peer, plan_peers, plan_routing,
}
use encedo_wg_hsm.Runtime.Endpoints.{
  IsDistinct, contains_at, IsCovered, IsSound, IsFound, add_endpoints-IsSound,
  contains-add_endpoints, add_endpoints-IsFound, any_covered_lem, add_endpoints-All,
}

module _ (peers : List RoutedPeer) where
  module _ (names : Names) where
    -- The peer has no endpoint, or those of its addresses that the tunnel would take are found.
    abbrev pub IsPinned : List Addr → RoutedPeer → Type 0
    IsPinned es p =
        (is_empty p.endpoint ≡ true)
        ⊎ ((addrs : List Addr) × (resolve_host names (host_of names p.endpoint) ≡ ok addrs)
            × All (IsFound peers es) addrs)

    -- Nothing that was found is lost.
    abbrev IsWithin : List Addr → List Addr → Type 0
    IsWithin es es' = (b : Addr) → contains_addr es b ≡ true → contains_addr es' b ≡ true

    All-IsFound :
        (es es' : List Addr) (addrs : List Addr)
        → IsWithin es es'
        → All (IsFound peers es) addrs
        → All (IsFound peers es') addrs
    All-IsFound es es' [] w h = tt
    All-IsFound es es' (a ∷ addrs) w (h, k) =
        (elim h [ inl c ↦ inl c | inr found ↦ inr (w a found) ], All-IsFound es es' addrs w k)

    within-IsPinned :
        (es es' : List Addr) (p : RoutedPeer) → IsWithin es es' → IsPinned es p → IsPinned es' p
    within-IsPinned es es' p w (inl e) = inl e
    within-IsPinned es es' p w (inr (addrs, r, h)) = inr (addrs, r, All-IsFound es es' addrs w h)

    plan_peer-IsPinned :
        (p : RoutedPeer) (es : List Addr)
        → IsSound peers es
        → Holds
            (λ es'. IsSound peers es' × IsWithin es es' × IsPinned es' p)
            (plan_peer names peers p es)
    unfolding plan_peer
    plan_peer-IsPinned p es h =
        if_split (Holds Post) (is_empty p.endpoint) _ _ (λ e. (h, (λ b k. k), inl e))
          (λ e.
            Holds-bind Post
              (wrap (unresolved (host_of names p.endpoint))
                (resolve_host names (host_of names p.endpoint)))
              (λ addrs. ok (add_endpoints peers addrs es))
              (λ addrs r. (
                add_endpoints-IsSound peers addrs es h,
                contains-add_endpoints peers addrs es,
                inr (
                  addrs,
                  wrap-eq-ok (unresolved (host_of names p.endpoint)) _ r,
                  add_endpoints-IsFound peers addrs es,
                ),
              )))
      where
        Post : List Addr → Type 0
        Post es' = IsSound peers es' × IsWithin es es' × IsPinned es' p

    plan_peers-IsPinned :
        (ps : List RoutedPeer) (es : List Addr)
        → IsSound peers es
        → Holds
            (λ es'. IsSound peers es' × IsWithin es es' × All (IsPinned es') ps)
            (plan_peers names peers ps es)
    unfolding plan_peers
    plan_peers-IsPinned [] es h = (h, (λ b k. k), tt)
    plan_peers-IsPinned (p ∷ ps) es h =
        Holds-bind (λ es'. IsSound peers es' × IsWithin es es' × All (IsPinned es') (p ∷ ps))
          (plan_peer names peers p es) (plan_peers names peers ps)
          (λ es1 r.
            let (sound, within, first) =
              subst (Holds (λ es'. IsSound peers es' × IsWithin es es' × IsPinned es' p)) r
                (plan_peer-IsPinned p es h) in
            further p ps es es1 within first (plan_peers names peers ps es1)
              (plan_peers-IsPinned ps es1 sound))
      where
        further :
            (p : RoutedPeer) (ps : List RoutedPeer) (es es1 : List Addr)
            → IsWithin es es1
            → IsPinned es1 p
            → (r : Result PlanError (List Addr))
            → Holds (λ es'. IsSound peers es' × IsWithin es1 es' × All (IsPinned es') ps) r
            → Holds (λ es'. IsSound peers es' × IsWithin es es' × All (IsPinned es') (p ∷ ps)) r
        further p ps es es1 w f (ok es2) (s, w2, rest) =
            (s, (λ b k. w2 b (w b k)), (within-IsPinned es1 es2 p w2 f, rest))
        further p ps es es1 w f (err e) h = tt

    -- The address is one that the endpoint of the peer resolves to, or that of one of the peers.
    abbrev pub IsEndpointOf : RoutedPeer → Addr → Type 0
    IsEndpointOf p a =
        (is_empty p.endpoint ≡ false)
        × ((addrs : List Addr) × (resolve_host names (host_of names p.endpoint) ≡ ok addrs)
            × (contains_addr addrs a ≡ true))

    abbrev pub IsEndpoint : List RoutedPeer → Addr → Type 0
    IsEndpoint [] a = ⊥
    IsEndpoint (p ∷ ps) a = IsEndpointOf p a ⊎ IsEndpoint ps a

    All-contains :
        (front addrs : List Addr) → All (λ a. contains_addr (front ++ addrs) a ≡ true) addrs
    All-contains front [] = tt
    All-contains front (a ∷ addrs) = (
      contains_at front a addrs,
      subst (λ xs. All (λ b. contains_addr xs b ≡ true) addrs) (append_assoc front (a ∷ []) addrs)
          (All-contains (front ++ (a ∷ [])) addrs),
    )

    All-IsEndpointOf :
        (p : RoutedPeer) (all addrs : List Addr)
        → is_empty p.endpoint ≡ false
        → resolve_host names (host_of names p.endpoint) ≡ ok all
        → All (λ a. contains_addr all a ≡ true) addrs
        → All (IsEndpointOf p) addrs
    All-IsEndpointOf p all [] e r h = tt
    All-IsEndpointOf p all (a ∷ addrs) e r (h, hs) =
        ((e, (all, r, h)), All-IsEndpointOf p all addrs e r hs)

    All-map :
        (P Q : Addr → Type 0) (xs : List Addr) → ((a : Addr) → P a → Q a) → All P xs → All Q xs
    All-map P Q [] f h = tt
    All-map P Q (x ∷ xs) f (h, hs) = (f x h, All-map P Q xs f hs)

    plan_peer-All :
        (Src : Addr → Type 0) (p : RoutedPeer) (es : List Addr)
        → ((a : Addr) → IsEndpointOf p a → Src a)
        → All Src es
        → Holds (All Src) (plan_peer names peers p es)
    unfolding plan_peer
    plan_peer-All Src p es f h =
        if_split (Holds (All Src)) (is_empty p.endpoint) _ _ (λ e. h)
          (λ e.
            Holds-bind (All Src)
              (wrap (unresolved (host_of names p.endpoint))
                (resolve_host names (host_of names p.endpoint)))
              (λ addrs. ok (add_endpoints peers addrs es))
              (λ addrs r.
                let resolved = wrap-eq-ok (unresolved (host_of names p.endpoint)) _ r in
                add_endpoints-All peers Src addrs es
                  (All-map (IsEndpointOf p) Src addrs f
                    (All-IsEndpointOf p addrs addrs e resolved (All-contains [] addrs)))
                  h))

    plan_peers-All :
        (Src : Addr → Type 0) (ps : List RoutedPeer) (es : List Addr)
        → ((a : Addr) → IsEndpoint ps a → Src a)
        → All Src es
        → Holds (All Src) (plan_peers names peers ps es)
    unfolding plan_peers
    plan_peers-All Src [] es f h = h
    plan_peers-All Src (p ∷ ps) es f h =
        Holds-bind (All Src) (plan_peer names peers p es) (plan_peers names peers ps) (λ es1 r.
          plan_peers-All Src ps es1 (λ a k. f a (inr k))
            (subst (Holds (All Src)) r (plan_peer-All Src p es (λ a k. f a (inl k)) h)))

    abbrev pub IsComplete : Bytes → Plan → Type 0
    IsComplete hem_url plan =
        IsDistinct plan.endpoints
        × All (IsCovered peers) plan.endpoints
        × All (IsEndpoint peers) plan.endpoints
        × All (IsPinned plan.endpoints) peers
        × ((addrs : List Addr) × (hem_host_of names hem_url ≡ ok plan.hem_host)
            × (resolve_host names plan.hem_host ≡ ok addrs)
            × ((plan.hem_inside ≡ false) ↔ All (λ a. covered a peers ≡ false) addrs))

    IsComplete-or_error :
        (hem_url : Bytes) → Holds (IsComplete hem_url) (plan_routing names peers hem_url)
    unfolding plan_routing
    IsComplete-or_error hem_url =
        Holds-bind (IsComplete hem_url) (plan_peers names peers peers []) _ (λ es r.
          let ((d, c), w, pinned) =
            subst (Holds (λ es'. IsSound peers es' × IsWithin [] es' × All (IsPinned es') peers)) r
              (plan_peers-IsPinned peers [] (tt, tt)) in
          Holds-bind (IsComplete hem_url) (hem_host_of names hem_url) _ (λ host e.
            Holds-bind (IsComplete hem_url) (wrap (unresolved host) (resolve_host names host)) _
              (λ addrs f. (
                d,
                c,
                subst (Holds (All (IsEndpoint peers))) r
                    (plan_peers-All (IsEndpoint peers) peers [] (λ a k. k) tt),
                pinned,
                (addrs, e, wrap-eq-ok (unresolved host) _ f, (any_covered_lem peers) addrs),
              ))))

    -- A plan that `PlanRouting` returns names no endpoint twice, and only addresses that the endpoint of
    -- some peer resolves to and that the tunnel would take; of each peer that has an endpoint it names every
    -- address that the tunnel would take; and it says that the HEM is outside exactly when none of the HEM's
    -- addresses would be taken.
    pub plan_routing-IsComplete :
        (hem_url : Bytes) (plan : Plan)
        → plan_routing names peers hem_url ≡ ok plan
        → IsComplete hem_url plan
    plan_routing-IsComplete hem_url plan h =
        subst (Holds (IsComplete hem_url)) h (IsComplete-or_error hem_url)

-- ===== src/Runtime/Endpoints.antt =====
-- internal/runtime: what the loop over the addresses of one endpoint adds.
use encedo_wg_hsm.Common.{
  ◌≡◌, refl, sym, subst, ◌⊎◌, ◌↔◌, inl, inr, Bool, true, false, not, ◌&&◌, ◌||◌, Bool-cases,
  if◌then◌else◌, if_split, and-eq-true, not-eq-true, List, [], ◌∷◌, ◌++◌, bytes_eq_refl, All,
  All-append,
}
use encedo_wg_hsm.Netip.{Addr, invalid, v4, v6, addr_eq}
use encedo_wg_hsm.Runtime.Plan.{RoutedPeer, covered, contains_addr, add_endpoints, any_covered}

addr_eq_refl : (a : Addr) → addr_eq a a ≡ true
unfolding addr_eq
addr_eq_refl invalid = refl
addr_eq_refl (v4 b) = bytes_eq_refl b
addr_eq_refl (v6 b zone) = rw (bytes_eq_refl b, bytes_eq_refl zone) refl

-- No address stands there twice.
abbrev pub IsDistinct : List Addr → Type 0
IsDistinct [] = Unit
IsDistinct (x ∷ xs) = All (λ y. addr_eq x y ≡ false) xs × IsDistinct xs

or-eq-false : (a b : Bool) → (a || b) ≡ false → (a ≡ false) × (b ≡ false)
or-eq-false true b h = cc
or-eq-false false b h = (refl, h)

or_mono : (b c d : Bool) → (c ≡ true → d ≡ true) → (b || c) ≡ true → (b || d) ≡ true
or_mono true c d f h = refl
or_mono false c d f h = f h

or_right : (b c : Bool) → c ≡ true → (b || c) ≡ true
or_right true c h = refl
or_right false c h = h

if_or : (b c : Bool) → (if b then true else c) ≡ false → (b || c) ≡ false
if_or true c h = h
if_or false c h = h

contains_last : (xs : List Addr) (a : Addr) → contains_addr (xs ++ (a ∷ [])) a ≡ true
contains_last [] a = rw (addr_eq_refl a) refl
contains_last (x ∷ xs) a = or_right (addr_eq x a) _ (contains_last xs a)

pub contains_at :
    (front : List Addr) (a : Addr) (addrs : List Addr)
    → contains_addr (front ++ (a ∷ addrs)) a ≡ true
contains_at [] a addrs = rw (addr_eq_refl a) refl
contains_at (x ∷ front) a addrs = or_right (addr_eq x a) _ (contains_at front a addrs)

contains_append :
    (xs ys : List Addr) (a : Addr) → contains_addr xs a ≡ true → contains_addr (xs ++ ys) a ≡ true
contains_append [] ys a h = cc
contains_append (x ∷ xs) ys a h =
    or_mono (addr_eq x a) (contains_addr xs a) (contains_addr (xs ++ ys) a)
      (contains_append xs ys a) h

IsDistinct-append :
    (xs : List Addr) (a : Addr)
    → IsDistinct xs
    → contains_addr xs a ≡ false
    → IsDistinct (xs ++ (a ∷ []))
IsDistinct-append [] a h k = (tt, tt)
IsDistinct-append (x ∷ xs) a h k =
    let (first, rest) = or-eq-false (addr_eq x a) (contains_addr xs a) k in
    (
      All-append (λ y. addr_eq x y ≡ false) xs (a ∷ []) h.0 (first, tt),
      IsDistinct-append xs a h.1 rest,
    )

module _ (peers : List RoutedPeer) where
  abbrev pub IsCovered : Addr → Type 0
  IsCovered a = covered a peers ≡ true

  abbrev pub IsSound : List Addr → Type 0
  IsSound es = IsDistinct es × All IsCovered es

  -- An address that the tunnel would take is among those found.
  abbrev pub IsFound : List Addr → Addr → Type 0
  IsFound es a = (covered a peers ≡ false) ⊎ (contains_addr es a ≡ true)

  abbrev added : Addr → List Addr → List Addr
  added a es = if covered a peers && not (contains_addr es a) then es ++ (a ∷ []) else es

  added-IsSound : (a : Addr) (es : List Addr) → IsSound es → IsSound (added a es)
  added-IsSound a es (d, c) =
      if_split IsSound (covered a peers && not (contains_addr es a)) _ _
        (λ h.
          let (cov, new) = and-eq-true (covered a peers) (not (contains_addr es a)) h in
          (
            IsDistinct-append es a d (not-eq-true (contains_addr es a) new),
            All-append IsCovered es (a ∷ []) c (cov, tt),
          ))
        (λ h. (d, c))

  contains-added :
      (a b : Addr) (es : List Addr)
      → contains_addr es b ≡ true
      → contains_addr (added a es) b ≡ true
  contains-added a b es h =
      if_split (λ es'. contains_addr es' b ≡ true) (covered a peers && not (contains_addr es a)) _ _
        (λ k. contains_append es (a ∷ []) b h) (λ k. h)

  added-IsFound : (a : Addr) (es : List Addr) → IsFound (added a es) a
  added-IsFound a es = elim (Bool-cases (covered a peers)) [
    | inl c ↦ inr (elim (Bool-cases (contains_addr es a)) [
      | inl k ↦ contains-added a a es k
      | inr k ↦
          subst (λ (b : Bool). contains_addr (if b then es ++ (a ∷ []) else es) a ≡ true)
            (sym (both (covered a peers) (contains_addr es a) c k)) (contains_last es a)
    ])
    | inr c ↦ inl c
  ]
    where
      both : (b c : Bool) → b ≡ true → c ≡ false → (b && not c) ≡ true
      both b c h k = rw (h, k) refl

  pub add_endpoints-IsSound :
      (addrs es : List Addr) → IsSound es → IsSound (add_endpoints peers addrs es)
  unfolding add_endpoints
  add_endpoints-IsSound [] es h = h
  add_endpoints-IsSound (a ∷ addrs) es h =
      add_endpoints-IsSound addrs (added a es) (added-IsSound a es h)

  pub contains-add_endpoints :
      (addrs es : List Addr) (b : Addr)
      → contains_addr es b ≡ true
      → contains_addr (add_endpoints peers addrs es) b ≡ true
  unfolding add_endpoints
  contains-add_endpoints [] es b h = h
  contains-add_endpoints (a ∷ addrs) es b h =
      contains-add_endpoints addrs (added a es) b (contains-added a b es h)

  pub add_endpoints-IsFound :
      (addrs es : List Addr) → All (IsFound (add_endpoints peers addrs es)) addrs
  unfolding add_endpoints
  add_endpoints-IsFound [] es = tt
  add_endpoints-IsFound (a ∷ addrs) es = (
    elim (added-IsFound a es) [
      | inl c ↦ inl c
      | inr k ↦ inr (contains-add_endpoints addrs (added a es) a k)
    ],
    add_endpoints-IsFound addrs (added a es),
  )

  pub any_covered_lem :
      (addrs : List Addr)
      → (any_covered peers addrs ≡ false) ↔ All (λ a. covered a peers ≡ false) addrs
  any_covered_lem addrs = ((λ h. none_covered addrs h), λ h. covered_none addrs h)
    where
      none_covered :
          (xs : List Addr) → any_covered peers xs ≡ false → All (λ a. covered a peers ≡ false) xs
      none_covered [] h = tt
      none_covered (x ∷ xs) h =
          let (first, rest) =
            or-eq-false (covered x peers) (any_covered peers xs) (if_or (covered x peers) _ h) in
          (first, none_covered xs rest)

      covered_none :
          (xs : List Addr) → All (λ a. covered a peers ≡ false) xs → any_covered peers xs ≡ false
      covered_none [] h = refl
      covered_none (x ∷ xs) (h, k) = rw h (covered_none xs k)

  pub add_endpoints-All :
      (Src : Addr → Type 0) (addrs es : List Addr)
      → All Src addrs
      → All Src es
      → All Src (add_endpoints peers addrs es)
  unfolding add_endpoints
  add_endpoints-All Src [] es h k = k
  add_endpoints-All Src (a ∷ addrs) es (h, hs) k = add_endpoints-All Src addrs (added a es) hs (
      if_split (All Src) (covered a peers && not (contains_addr es a)) _ _
        (λ e. All-append Src es (a ∷ []) k (h, tt)) (λ e. k))

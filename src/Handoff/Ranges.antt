-- ===== src/Handoff/Ranges.antt =====
-- internal/handoff: which ranges a peer is handed, and in which order.
use encedo_wg_hsm.Common.{
  ℕ, ◌≡◌, refl, sym, ap, ◌∙◌, subst, inl, inr, Bool, true, false, not, ◌&&◌, ◌||◌, Bool-cases, List,
  [], ◌∷◌, ◌++◌, Bytes, bytes_eq, bytes_eq→eq, bytes_eq_refl, if◌then◌else◌, if_split, All,
}
use encedo_wg_hsm.Netip.{Addr, Prefix}
use encedo_wg_hsm.Handoff.Block.{
  ServerPeer, has_host, has_dot, comes_before, insert_host, sort_hosts, host_text, unique_hosts,
  allowed_ips_of,
}

-- The hosts that are written with a dot, and the others, in their order.
unfoldable pub dotted : List Bytes → List Bytes
dotted [] = []
dotted (x ∷ xs) = if has_dot x then x ∷ dotted xs else dotted xs

unfoldable pub undotted : List Bytes → List Bytes
undotted [] = []
undotted (x ∷ xs) = if has_dot x then undotted xs else x ∷ undotted xs

insert-dotted : (x : Bytes) (xs : List Bytes) → has_dot x ≡ true → insert_host x xs ≡ x ∷ xs
unfolding insert_host
insert-dotted x [] h = refl
insert-dotted x (y ∷ ys) h =
    if_split (λ (r : List Bytes). r ≡ x ∷ y ∷ ys) (comes_before y x) (y ∷ insert_host x ys)
      (x ∷ y ∷ ys) (λ e. absurd (not_before (has_dot y) (has_dot x) h e)) (λ e. refl)
  where
    not_before : (b c : Bool) → c ≡ true → (b && not c) ≡ true → ⊥
    not_before true true h e = cc
    not_before true false h e = cc
    not_before false c h e = cc

insert-past :
    (x : Bytes) (xs ys : List Bytes)
    → has_dot x ≡ false
    → insert_host x (dotted xs ++ ys) ≡ dotted xs ++ insert_host x ys
unfolding insert_host dotted
insert-past x [] ys h = refl
insert-past x (z ∷ zs) ys h = elim (Bool-cases (has_dot z)) [
  | inl e ↦ rw (e, h, e) (ap (z ∷◌) (insert-past x zs ys h))
  | inr e ↦ rw e (insert-past x zs ys h)
]

insert-undotted : (x : Bytes) (xs : List Bytes) → insert_host x (undotted xs) ≡ x ∷ undotted xs
unfolding insert_host undotted
insert-undotted x [] = refl
insert-undotted x (y ∷ ys) = elim (Bool-cases (has_dot y)) [
  | inl e ↦ rw e (insert-undotted x ys)
  | inr e ↦ rw e (unfold insert_host in rw e refl)
]

sort_hosts_lem : (xs : List Bytes) → sort_hosts xs ≡ dotted xs ++ undotted xs
unfolding sort_hosts dotted undotted
sort_hosts_lem [] = refl
sort_hosts_lem (x ∷ xs) = elim (Bool-cases (has_dot x)) [
  | inl e ↦ rw (e, sort_hosts_lem xs) (insert-dotted x (dotted xs ++ undotted xs) e)
  | inr e ↦
      rw (e, sort_hosts_lem xs)
        (insert-past x xs (undotted xs) e ∙ ap (λ r. dotted xs ++ r) (insert-undotted x xs))
]

-- No text stands there twice.
abbrev pub IsUnique : List Bytes → Type 0
IsUnique [] = Unit
IsUnique (x ∷ xs) = (has_host x xs ≡ false) × IsUnique xs

or_right : (b c : Bool) → c ≡ true → (b || c) ≡ true
or_right true c h = refl
or_right false c h = h

differs :
    (t h : Bytes) (seen : List Bytes)
    → has_host t seen ≡ false
    → has_host h seen ≡ true
    → bytes_eq t h ≡ false
differs t h seen k e = elim (Bool-cases (bytes_eq t h)) [
  | inl same ↦
      absurd (both (has_host h seen) (ap (λ x. has_host x seen) (sym (bytes_eq→eq t h same)) ∙ k) e)
  | inr other ↦ other
]
  where
    both : (b : Bool) → b ≡ false → b ≡ true → ⊥
    both true f e = cc
    both false f e = cc

first_seen : (t : Bytes) (seen : List Bytes) → has_host t (t ∷ seen) ≡ true
unfolding has_host
first_seen t seen = rw (bytes_eq_refl t) refl

-- What is left of the texts without those seen.
unfoldable pub unseen : List Bytes → List Bytes → List Bytes
unseen seen [] = []
unseen seen (x ∷ xs) = if has_host x seen then unseen seen xs else x ∷ unseen seen xs

-- Each text, where it stands first.
unfoldable pub firsts : List Bytes → List Bytes
firsts [] = []
firsts (x ∷ xs) = x ∷ unseen (x ∷ []) (firsts xs)

unseen-nil : (xs : List Bytes) → unseen [] xs ≡ xs
unfolding unseen has_host
unseen-nil [] = refl
unseen-nil (x ∷ xs) = ap (x ∷◌) (unseen-nil xs)

unseen-split :
    (seen : List Bytes) (t : Bytes) (xs : List Bytes)
    → unseen (t ∷ seen) xs ≡ unseen seen (unseen (t ∷ []) xs)
unfolding unseen has_host
unseen-split seen t [] = refl
unseen-split seen t (x ∷ xs) = elim (Bool-cases (bytes_eq t x)) [
  | inl e ↦ rw e (unseen-split seen t xs)
  | inr e ↦ elim (Bool-cases (has_host x seen)) [
    | inl k ↦ rw (e, k) (unseen-split seen t xs)
    | inr k ↦ rw (e, k) (ap (x ∷◌) (unseen-split seen t xs))
  ]
]

unseen-within :
    (seen : List Bytes) (t : Bytes) (xs : List Bytes)
    → has_host t seen ≡ true
    → unseen seen (unseen (t ∷ []) xs) ≡ unseen seen xs
unfolding unseen has_host
unseen-within seen t [] h = refl
unseen-within seen t (x ∷ xs) h = elim (Bool-cases (bytes_eq t x)) [
  | inl e ↦
      let k : has_host x seen ≡ true = ap (λ y. has_host y seen) (sym (bytes_eq→eq t x e)) ∙ h in
      rw (e, k) (unseen-within seen t xs h)
  | inr e ↦ elim (Bool-cases (has_host x seen)) [
    | inl k ↦ rw (e, k) (unseen-within seen t xs h)
    | inr k ↦ rw (e, k) (ap (x ∷◌) (unseen-within seen t xs h))
  ]
]

has_host-unseen :
    (t h : Bytes) (xs : List Bytes)
    → has_host h xs ≡ true
    → has_host h (t ∷ unseen (t ∷ []) xs) ≡ true
unfolding has_host unseen
has_host-unseen t h [] e = cc
has_host-unseen t h (x ∷ xs) e = elim (Bool-cases (bytes_eq t x)) [
  | inl k ↦ rw k (
      skipped (bytes_eq t h) (bytes_eq x h) (has_host h xs) _
        (ap (λ y. bytes_eq y h) (sym (bytes_eq→eq t x k))) (has_host-unseen t h xs) e)
  | inr k ↦ rw k (kept (bytes_eq t h) (bytes_eq x h) (has_host h xs) _ (has_host-unseen t h xs) e)
]
  where
    skipped :
        (a c d f : Bool) → c ≡ a → (d ≡ true → (a || f) ≡ true) → (c || d) ≡ true → (a || f) ≡ true
    skipped true c d f same i k = refl
    skipped false true d f same i k = cc
    skipped false false d f same i k = i k

    kept :
        (a c d f : Bool) → (d ≡ true → (a || f) ≡ true) → (c || d) ≡ true → (a || (c || f)) ≡ true
    kept true c d f i k = refl
    kept false true d f i k = refl
    kept false false d f i k = i k

module _ (prefix_text : Addr → ℕ → Bytes) where
  -- A text that was seen before is not given again.
  seen_before :
      (addrs : List Prefix) (seen : List Bytes) (h : Bytes)
      → has_host h seen ≡ true
      → has_host h (unique_hosts prefix_text addrs seen) ≡ false
  unfolding unique_hosts has_host
  seen_before [] seen h e = refl
  seen_before (a ∷ rest) seen h e = elim (Bool-cases (has_host (host_text prefix_text a) seen)) [
    | inl k ↦ rw k (seen_before rest seen h e)
    | inr k ↦
        rw (k, differs (host_text prefix_text a) h seen k e)
          (seen_before rest (host_text prefix_text a ∷ seen) h
            (or_right (bytes_eq (host_text prefix_text a) h) _ e))
  ]

  unique_hosts-IsUnique :
      (addrs : List Prefix) (seen : List Bytes) → IsUnique (unique_hosts prefix_text addrs seen)
  unfolding unique_hosts
  unique_hosts-IsUnique [] seen = tt
  unique_hosts-IsUnique (a ∷ rest) seen =
      elim (Bool-cases (has_host (host_text prefix_text a) seen)) [
        | inl k ↦ rw k (unique_hosts-IsUnique rest seen)
        | inr k ↦ rw k (
          seen_before rest (host_text prefix_text a ∷ seen) (host_text prefix_text a)
              (first_seen (host_text prefix_text a) seen),
          unique_hosts-IsUnique rest (host_text prefix_text a ∷ seen),
        )
      ]

  abbrev pub texts : List Prefix → List Bytes
  texts [] = []
  texts (a ∷ rest) = host_text prefix_text a ∷ texts rest

  -- The loop gives each text the first time that it meets it.
  unique_hosts-firsts :
      (addrs : List Prefix) (seen : List Bytes)
      → unique_hosts prefix_text addrs seen ≡ unseen seen (firsts (texts addrs))
  unfolding unique_hosts unseen firsts
  unique_hosts-firsts [] seen = refl
  unique_hosts-firsts (a ∷ rest) seen =
      elim (Bool-cases (has_host (host_text prefix_text a) seen)) [
        | inl k ↦ rw k (
            unique_hosts-firsts rest seen
            ∙ sym (unseen-within seen (host_text prefix_text a) (firsts (texts rest)) k))
        | inr k ↦ rw k (
            ap (host_text prefix_text a ∷◌) (
              unique_hosts-firsts rest (host_text prefix_text a ∷ seen)
              ∙ unseen-split seen (host_text prefix_text a) (firsts (texts rest))))
      ]

  unique_hosts_lem :
      (addrs : List Prefix) → unique_hosts prefix_text addrs [] ≡ firsts (texts addrs)
  unique_hosts_lem addrs = unique_hosts-firsts addrs [] ∙ unseen-nil (firsts (texts addrs))

  abbrev pub IsListed : List Bytes → Prefix → Type 0
  IsListed hosts a = has_host (host_text prefix_text a) hosts ≡ true

  All-IsListed :
      (t : Bytes) (hosts : List Bytes) (addrs : List Prefix)
      → All (IsListed hosts) addrs
      → All (IsListed (t ∷ unseen (t ∷ []) hosts)) addrs
  All-IsListed t hosts [] h = tt
  All-IsListed t hosts (a ∷ rest) (h, hs) =
      (has_host-unseen t (host_text prefix_text a) hosts h, All-IsListed t hosts rest hs)

  firsts-IsListed : (addrs : List Prefix) → All (IsListed (firsts (texts addrs))) addrs
  unfolding firsts
  firsts-IsListed [] = tt
  firsts-IsListed (a ∷ rest) = (
    first_seen (host_text prefix_text a) _,
    All-IsListed (host_text prefix_text a) (firsts (texts rest)) rest (firsts-IsListed rest),
  )

  -- `AllowedIPs` gives the full-length ranges of the addresses, in order and each only where it stands
  -- first, save that those written with a dot come before the others. So it gives none twice, and has
  -- that of each address.
  pub allowed_ips_of-IsUnique :
      (p : ServerPeer)
      → (allowed_ips_of prefix_text p
          ≡ dotted (firsts (texts p.addresses)) ++ undotted (firsts (texts p.addresses)))
        × IsUnique (firsts (texts p.addresses))
        × All (IsListed (firsts (texts p.addresses))) p.addresses
  unfolding allowed_ips_of
  allowed_ips_of-IsUnique p = (
    ap sort_hosts (unique_hosts_lem p.addresses) ∙ sort_hosts_lem (firsts (texts p.addresses)),
    subst IsUnique (unique_hosts_lem p.addresses) (unique_hosts-IsUnique p.addresses []),
    firsts-IsListed p.addresses,
  )

-- ===== src/Mac/Refs.antt =====
-- internal/mac/mac.go: what `matchRefs` accepts.
use mathlib.Core.List.{
  Nodup-nil, Perm, Permᴰ, mem-append, perm_middle, Nodup, Nodup-cons, Mem, mem-cons, not-mem-nil,
}
use mathlib.Core.List.Perm
use mathlib.Core.Logic.Or
use mathlib.Core.Logic.{∥∥₁_elim, ◌↔◌}
use native.Mathlib.Nat.{ℕ_set}
use encedo_wg_hsm.Common.{
  suc, ◌≡◌, refl, sym, ap, ◌∙◌, true, false, not, List, [], ◌∷◌, ◌++◌, append-nil, length, ◌==◌,
  is_empty, bytes_eq, bytes_eq→eq, bytes_eq_refl, Bool-cases, inl, inr, Bytes, ok, ◌>>◌, >>=-eq-ok,
  fail_if, arith,
}
use encedo_wg_hsm.Descr.Records.{PeerRef}
use encedo_wg_hsm.Mac.Message.{
  PeerRecord, unreferenced, make_peer_ref, has_ref, delete_ref, collect_refs, resolve_refs,
  match_refs,
}

delete_ref-perm :
    (r : PeerRef) (xs : List PeerRef) → has_ref r xs ≡ true → Perm xs (r ∷ delete_ref r xs)
unfolding has_ref delete_ref
delete_ref-perm r [] h = cc
delete_ref-perm r (x ∷ xs) h = elim (Bool-cases (bytes_eq x r)) [
  | inl e ↦ rw (e, bytes_eq→eq x r e) (Perm.refl (r ∷ xs))
  | inr e ↦
      let ih = delete_ref-perm r xs (ground arith) in
      rw e (Perm.trans (Perm.cons x ih) (Perm.swap r x (delete_ref r xs)))
]

has_ref-Mem : (r : PeerRef) (xs : List PeerRef) → has_ref r xs ≡ false → ¬ Mem r xs
unfolding has_ref
has_ref-Mem r [] h m = not-mem-nil m
has_ref-Mem r (x ∷ xs) h m =
    Or.elim (λ a b. elim a [ ]) (mem-cons.0 m) (λ e. ground (arith, bytes_eq_refl x))
      (has_ref-Mem r xs (ground arith))

has_ref-Mem_true : (r : PeerRef) (xs : List PeerRef) → has_ref r xs ≡ true → Mem r xs
unfolding has_ref
has_ref-Mem_true r [] h = cc
has_ref-Mem_true r (x ∷ xs) h = elim (Bool-cases (bytes_eq x r)) [
  | inl e ↦ mem-cons.1 (Or.inl (sym (bytes_eq→eq x r e)))
  | inr e ↦ mem-cons.1 (Or.inr (has_ref-Mem_true r xs (ground arith)))
]

has_ref-of_Mem : (r : PeerRef) (xs : List PeerRef) → Mem r xs → has_ref r xs ≡ true
has_ref-of_Mem r xs m = elim (Bool-cases (has_ref r xs)) [
  | inl e ↦ e
  | inr e ↦ absurd (has_ref-Mem r xs e m)
]

-- The references of the peers that were handed in.
abbrev pub refs_of : (Bytes → Bytes) → List PeerRecord → List PeerRef
refs_of sha1 [] = []
refs_of sha1 (p ∷ ps) = make_peer_ref sha1 p.pub_key ∷ refs_of sha1 ps

module _ (sha1 : Bytes → Bytes) where
  collect_refs-eq-ok :
      (ps : List PeerRecord) (acc : List PeerRef) {m : List PeerRef}
      → Nodup acc
      → collect_refs sha1 ps acc ≡ ok m
      → Nodup m × Perm m (refs_of sha1 ps ++ acc)
  unfolding collect_refs
  collect_refs-eq-ok [] acc {m} n h = let e : acc ≡ m = cc in rw (← e) (n, Perm.refl acc)
  collect_refs-eq-ok (p ∷ ps) acc n h =
      let r = make_peer_ref sha1 p.pub_key in
      elim (Bool-cases (has_ref r acc)) [
        | inl e ↦ ground arith
        | inr e ↦
            let more : collect_refs sha1 ps (r ∷ acc) ≡ ok _ = rw e at h in
            let (n', perm) =
              collect_refs-eq-ok ps (r ∷ acc) (Nodup-cons.1 (has_ref-Mem r acc e, n)) more in
            (n', Perm.trans perm (perm_middle (refs_of sha1 ps) acc))
      ]

resolve_refs-eq-ok :
    (rs m : List PeerRef) {left : List PeerRef} → resolve_refs rs m ≡ ok left → Perm m (rs ++ left)
unfolding resolve_refs
resolve_refs-eq-ok [] m {left} h = let e : m ≡ left = cc in rw e (Perm.refl left)
resolve_refs-eq-ok (r ∷ rs) m h = elim (Bool-cases (has_ref r m)) [
  | inl e ↦
      let more : resolve_refs rs (delete_ref r m) ≡ ok _ = rw e at h in
      Perm.trans (delete_ref-perm r m e) (Perm.cons r (resolve_refs-eq-ok rs (delete_ref r m) more))
  | inr e ↦ ground arith
]

match_refs-eq-ok :
    (sha1 : Bytes → Bytes) (refs : List PeerRef) (peers : List PeerRecord) {u : Unit {0}}
    → match_refs sha1 refs peers ≡ ok u
    → Perm refs (refs_of sha1 peers) × Nodup refs
unfolding match_refs
match_refs-eq-ok sha1 refs peers h = elim (Bool-cases (length refs == length peers)) [
  | inl same ↦
      let (m, collected, h1) = >>=-eq-ok (collect_refs sha1 peers []) _ (rw same at h) in
      let (left, resolved, h2) = >>=-eq-ok (resolve_refs refs m) _ h1 in
      let (distinct, perm) = collect_refs-eq-ok sha1 peers [] Nodup-nil collected in
      let perm' : Perm m (refs_of sha1 peers) = rw append-nil at perm in
      let all : left ≡ [] = none_left left h2 in
      let perm'' : Perm m refs =
        rw (append-nil refs) at (rw all at (resolve_refs-eq-ok refs m resolved)) in
      (Perm.trans (Perm.symm perm'') perm', Perm.nodup perm'' distinct)
  | inr n ↦ ground arith
]
  where
    none_left :
        (left : List PeerRef) {u : Unit {0}}
        → (fail_if (not (is_empty left)) (unreferenced (length left)) >> ok tt) ≡ ok u
        → left ≡ []
    none_left [] e = refl
    none_left (x ∷ xs) e = cc

-- The other direction.
length-Permᴰ {ℓ} : {A : Type ℓ} {xs ys : List A} → Permᴰ xs ys → length xs ≡ length ys
length-Permᴰ Permᴰ.nil = refl
length-Permᴰ (Permᴰ.cons e p) = ap suc (length-Permᴰ p)
length-Permᴰ (Permᴰ.swap e f) = refl
length-Permᴰ (Permᴰ.trans p q) = length-Permᴰ p ∙ length-Permᴰ q

pub length-Perm {ℓ} : {A : Type ℓ} {xs ys : List A} → Perm xs ys → length xs ≡ length ys
length-Perm p = ∥∥₁_elim p (ℕ_set _ _) length-Permᴰ

collect_refs-total :
    (sha1 : Bytes → Bytes) (ps : List PeerRecord) (acc : List PeerRef)
    → Nodup (refs_of sha1 ps ++ acc)
    → (m : List PeerRef) × (collect_refs sha1 ps acc ≡ ok m)
unfolding collect_refs
collect_refs-total sha1 [] acc n = (acc, refl)
collect_refs-total sha1 (p ∷ ps) acc n =
    let r = make_peer_ref sha1 p.pub_key in
    let n' = Perm.nodup (Perm.symm (perm_middle (refs_of sha1 ps) acc)) n in
    elim (Bool-cases (has_ref r acc)) [
      | inl e ↦ absurd ((Nodup-cons.0 n).0 (mem-append.1 (Or.inr (has_ref-Mem_true r acc e))))
      | inr e ↦ rw e (collect_refs-total sha1 ps (r ∷ acc) n')
    ]

resolve_refs-total : (rs m : List PeerRef) → Perm m rs → resolve_refs rs m ≡ ok []
unfolding resolve_refs
resolve_refs-total [] m p = rw (Perm.eq-nil p)
resolve_refs-total (r ∷ rs) m p =
    let there : has_ref r m ≡ true =
      has_ref-of_Mem r m (Perm.subset (Perm.symm p) r (mem-cons.1 (Or.inl refl))) in
    let rest : Perm (delete_ref r m) rs =
      Perm.cons_inv (Perm.trans (Perm.symm (delete_ref-perm r m there)) p) in
    rw there (resolve_refs-total rs (delete_ref r m) rest)

match_refs-accepts :
    (sha1 : Bytes → Bytes) (refs : List PeerRef) (peers : List PeerRecord)
    → Perm refs (refs_of sha1 peers)
    → Nodup refs
    → match_refs sha1 refs peers ≡ ok tt
unfolding match_refs
match_refs-accepts sha1 refs peers perm distinct =
    let same : length refs ≡ length peers = length-Perm perm ∙ length-refs_of peers in
    let count : (length refs == length peers) ≡ true = ground arith in
    let distinct' : Nodup (refs_of sha1 peers ++ []) = rw append-nil (Perm.nodup perm distinct) in
    let (m, collected) = collect_refs-total sha1 peers [] distinct' in
    let (_, perm') = collect_refs-eq-ok sha1 peers [] Nodup-nil collected in
    let perm'' : Perm m (refs_of sha1 peers) = rw append-nil at perm' in
    rw (count, collected, resolve_refs-total refs m (Perm.trans perm'' (Perm.symm perm)))
  where
    length-refs_of : (ps : List PeerRecord) → length (refs_of sha1 ps) ≡ length ps
    length-refs_of [] = refl
    length-refs_of (p ∷ ps) = ap suc (length-refs_of ps)

-- `matchRefs` accepts the references exactly when they are those of the peers in some order and
-- no two of them are equal.
pub match_refs_iff :
    (sha1 : Bytes → Bytes) (refs : List PeerRef) (peers : List PeerRecord)
    → (match_refs sha1 refs peers ≡ ok tt) ↔ (Perm refs (refs_of sha1 peers) × Nodup refs)
match_refs_iff sha1 refs peers =
    (match_refs-eq-ok sha1 refs peers, λ h. match_refs-accepts sha1 refs peers h.0 h.1)

-- ===== src/Mac/Records.antt =====
-- internal/mac/mac.go: the parts of the canonical message: the sorted peers, laid out one after the
-- other, and the cleared interface record.
use mathlib.Core.List.{Perm}
use mathlib.Core.List.Perm
use encedo_wg_hsm.Common.{
  ℕ, zero, suc, ◌+◌, ◌≡◌, refl, sym, ap, ◌∙◌, List, [], ◌∷◌, ◌++◌, Bytes, IsByte, All, length,
  length-append, append_injective, append-nil, append_assoc, ◌==◌, Bool-cases, inl, inr, ok,
  >>=-eq-ok, arith,
}
use encedo_wg_hsm.Descr.Tag
use encedo_wg_hsm.Descr.Records.{TlvItem}
use encedo_wg_hsm.Descr.Decode.{parse}
use encedo_wg_hsm.Descr.ZeroMac.{zero_range, zero_walk, zero_mac}
use encedo_wg_hsm.Mac.Message.{
  PeerRecord, pub_key_len, bytes_lt, insert_record, sort_records, append_records,
}

-- The arrays of a configuration tree have the lengths of their types.
abbrev pub IsPeerRecord : ℕ → PeerRecord → Type 0
IsPeerRecord size p = (length p.pub_key ≡ pub_key_len) × (length p.descr ≡ size)

pub record IsTree (size : ℕ) (if_pub_key if_descr : Bytes) (peers : List PeerRecord) : Type 0 where
  pub key : length if_pub_key ≡ pub_key_len
  pub full : length if_descr ≡ size
  pub bytes : All IsByte if_descr
  pub records : All (IsPeerRecord size) peers

insert_record-perm : (p : PeerRecord) (ps : List PeerRecord) → Perm (insert_record p ps) (p ∷ ps)
unfolding insert_record
insert_record-perm p [] = Perm.refl (p ∷ [])
insert_record-perm p (q ∷ qs) = elim (Bool-cases (bytes_lt p.pub_key q.pub_key)) [
  | inl e ↦ rw e (Perm.refl (p ∷ q ∷ qs))
  | inr e ↦ rw e (Perm.trans (Perm.cons q (insert_record-perm p qs)) (Perm.swap p q qs))
]

pub sort_records-perm : (ps : List PeerRecord) → Perm (sort_records ps) ps
unfolding sort_records
sort_records-perm [] = Perm.refl []
sort_records-perm (p ∷ ps) =
    Perm.trans (insert_record-perm p (sort_records ps)) (Perm.cons p (sort_records-perm ps))

insert_record-All :
    (size : ℕ) (p : PeerRecord) (ps : List PeerRecord)
    → IsPeerRecord size p
    → All (IsPeerRecord size) ps
    → All (IsPeerRecord size) (insert_record p ps)
unfolding insert_record
insert_record-All size p [] h k = (h, tt)
insert_record-All size p (q ∷ qs) h k = elim (Bool-cases (bytes_lt p.pub_key q.pub_key)) [
  | inl e ↦ rw e (h, k)
  | inr e ↦ rw e (k.0, insert_record-All size p qs h k.1)
]

pub sort_records-All :
    (size : ℕ) (ps : List PeerRecord)
    → All (IsPeerRecord size) ps
    → All (IsPeerRecord size) (sort_records ps)
unfolding sort_records
sort_records-All size [] h = tt
sort_records-All size (p ∷ ps) h =
    insert_record-All size p (sort_records ps) h.0 (sort_records-All size ps h.1)

-- The peers' part of the message.
unfoldable pub flat_records : List PeerRecord → Bytes
flat_records [] = []
flat_records (p ∷ ps) = p.pub_key ++ (p.descr ++ flat_records ps)

pub append_records-flat :
    (msg : Bytes) (ps : List PeerRecord) → append_records msg ps ≡ msg ++ flat_records ps
unfolding append_records flat_records
append_records-flat msg [] = sym (append-nil msg)
append_records-flat msg (p ∷ ps) =
    append_records-flat ((msg ++ p.pub_key) ++ p.descr) ps
    ∙ append_assoc (msg ++ p.pub_key) p.descr (flat_records ps)
    ∙ append_assoc msg p.pub_key (p.descr ++ flat_records ps)

pub flat_records-injective :
    (size : ℕ) (ps qs : List PeerRecord)
    → All (IsPeerRecord size) ps
    → All (IsPeerRecord size) qs
    → flat_records ps ≡ flat_records qs
    → ps ≡ qs
unfolding flat_records
flat_records-injective size [] [] h k e = refl
flat_records-injective size [] (q ∷ qs) h k e =
    absurd (omega (arith, ap length e, k.0.0, length-append q.pub_key (q.descr ++ flat_records qs)))
flat_records-injective size (p ∷ ps) [] h k e =
    absurd (omega (arith, ap length e, h.0.0, length-append p.pub_key (p.descr ++ flat_records ps)))
flat_records-injective size (p ∷ ps) (q ∷ qs) h k e =
    let (keys, e1) = append_injective p.pub_key q.pub_key _ _ (omega (arith, h.0.0, k.0.0)) e in
    let (descrs, e2) = append_injective p.descr q.descr _ _ (omega (arith, h.0.1, k.0.1)) e1 in
    let rest = flat_records-injective size ps qs h.1 k.1 e2 in
    let same : p ≡ q = λ i. record { pub_key = keys i; descr = descrs i } in λ i. same i ∷ rest i

length-zero_range : (at n : ℕ) (xs : Bytes) → length (zero_range at n xs) ≡ length xs
unfolding zero_range
length-zero_range at n [] = refl
length-zero_range zero zero (x ∷ xs) = refl
length-zero_range zero (suc n) (x ∷ xs) = ap suc (length-zero_range zero n xs)
length-zero_range (suc at) n (x ∷ xs) = ap suc (length-zero_range at n xs)

length-zero_walk :
    (its : List TlvItem) (off : ℕ) (out : Bytes) → length (zero_walk its off out) ≡ length out
unfolding zero_walk
length-zero_walk [] off out = refl
length-zero_walk (it ∷ its) off out = elim (Bool-cases (it.tag == Tag.mac)) [
  | inl e ↦ rw e (length-zero_range (off + 2) (length it.value) out)
  | inr e ↦ rw e (length-zero_walk its (off + (2 + length it.value)) out)
]

pub length-zero_mac :
    (size : ℕ) (b : Bytes) {z : Bytes} → zero_mac size b ≡ ok z → length z ≡ length b
unfolding zero_mac
length-zero_mac size b {z} h =
    let (items, parsed, e) = >>=-eq-ok (parse size b _) _ h in
    let same : zero_walk items 7 b ≡ z = cc in rw (← same) (length-zero_walk items 7 b)

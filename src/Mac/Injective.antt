-- ===== src/Mac/Injective.antt =====
-- internal/mac/mac.go: what the canonical message tells of the configuration tree.
use encedo_wg_hsm.Mac.Records.{
  IsTree, sort_records-perm, sort_records-All, flat_records, append_records-flat,
  flat_records-injective, length-zero_mac,
}
use mathlib.Core.List.{Perm}
use mathlib.Core.List.Perm
use encedo_wg_hsm.Common.{
  wrap-eq-ok, ℕ, ◌-◌, ◌≤◌, ◌≡◌, refl, sym, ap, ◌∙◌, List, ◌++◌, Bytes, IsByte, All, length,
  append_injective, append-nil, append_assoc, ltb, ok, >>=-eq-ok, fail_if, wrap, arith,
}
use encedo_wg_hsm.Descr.Records.{Interface}
use encedo_wg_hsm.Descr.Encode.{padded, encode_interface}
use encedo_wg_hsm.Descr.Decode.{decode_interface}
use encedo_wg_hsm.Descr.Layout.{IsInterface}
use encedo_wg_hsm.Descr.RoundTrip.{grouped, decode_interface-encode_interface}
use encedo_wg_hsm.Descr.Canonical.{encode_interface-decode_interface, decode_interface-frame}
use encedo_wg_hsm.Descr.ZeroMac.{zero_mac, clear_mac}
use encedo_wg_hsm.Descr.ZeroMac.Correct.{zero_mac-encode_interface, IsInterface-clear_mac}
use encedo_wg_hsm.Mac.Message.{
  PeerRecord, MacError, bad_record, domain, max_peers, match_refs, sort_records, append_records,
  canonical,
}

-- What a successful `Canonical` has checked and built.
pub record Built (size : ℕ) (sha1 : Bytes → Bytes) (if_pub_key if_descr : Bytes)
    (peers : List PeerRecord) (msg : Bytes) : Type 0 where
  pub config : Interface
  pub zeroed : Bytes
  pub decoded : decode_interface size if_descr ≡ ok config
  pub matched : match_refs sha1 config.peer_refs peers ≡ ok tt
  pub few : length peers ≤ max_peers size
  pub cleared : zero_mac size if_descr ≡ ok zeroed
  pub laid_out : msg ≡ (domain ++ if_pub_key) ++ (zeroed ++ flat_records (sort_records peers))

not_more : (n m : ℕ) (e : MacError) {w : Unit {0}} → fail_if (ltb m n) e ≡ ok w → n ≤ m
not_more n m e h = ground arith

pub canonical-Built :
    (size : ℕ) (sha1 : Bytes → Bytes) (if_pub_key if_descr : Bytes) (peers : List PeerRecord)
    {msg : Bytes}
    → canonical size sha1 if_pub_key if_descr peers ≡ ok msg
    → Built size sha1 if_pub_key if_descr peers msg
unfolding canonical
canonical-Built size sha1 if_pub_key if_descr peers {msg} h =
    let (i, d, h1) = >>=-eq-ok (wrap bad_record (decode_interface size if_descr)) _ h in
    let (u, m, h2) = >>=-eq-ok (match_refs sha1 i.peer_refs peers) _ h1 in
    let (v, few, h3) = >>=-eq-ok (fail_if (ltb (max_peers size) (length peers)) _) _ h2 in
    let (z, c, h4) = >>=-eq-ok (wrap bad_record (zero_mac size if_descr)) _ h3 in
    let built : append_records ((domain ++ if_pub_key) ++ z) (sort_records peers) ≡ msg = cc in
    record {
      config = i;
      zeroed = z;
      decoded = wrap-eq-ok bad_record _ d;
      matched = m;
      few = not_more (length peers) (max_peers size) _ few;
      cleared = wrap-eq-ok bad_record _ c;
      laid_out =
          sym built
          ∙ append_records-flat ((domain ++ if_pub_key) ++ z) (sort_records peers)
          ∙ append_assoc (domain ++ if_pub_key) z (flat_records (sort_records peers));
    }

-- A decoded full record is in the reader's order already.
grouped-decoded :
    (size : ℕ) (b : Bytes) (i : Interface)
    → length b ≡ size
    → All IsByte b
    → decode_interface size b ≡ ok i
    → IsInterface i × (grouped i ≡ i)
grouped-decoded size b i full bytes d =
    let (k, e, valid, fits) = decode_interface-frame size b bytes d in
    let none : size - length b ≡ 0 = omega arith in
    let whole : padded size b ≡ b = rw none (append-nil b) in
    let again = encode_interface-decode_interface size b bytes d in
    let read : decode_interface size b ≡ ok (grouped i) =
      rw whole at (decode_interface-encode_interface size i valid again) in
    (valid, cc)

-- Two records that are cleared to the same bytes hold the same configuration but for the MAC.
pub zero_mac-injective :
    (size : ℕ) (b b' : Bytes) {z : Bytes} (i i' : Interface)
    → length b ≡ size
    → length b' ≡ size
    → All IsByte b
    → All IsByte b'
    → decode_interface size b ≡ ok i
    → decode_interface size b' ≡ ok i'
    → zero_mac size b ≡ ok z
    → zero_mac size b' ≡ ok z
    → clear_mac i ≡ clear_mac i'
zero_mac-injective size b b' {z} i i' full full' bytes bytes' d d' c c' =
    let (valid, order) = grouped-decoded size b i full bytes d in
    let (valid', order') = grouped-decoded size b' i' full' bytes' d' in
    let enc : encode_interface size (clear_mac i) ≡ ok z =
      sym (zero_mac-encode_interface size b bytes full d) ∙ c in
    let enc' : encode_interface size (clear_mac i') ≡ ok z =
      sym (zero_mac-encode_interface size b' bytes' full' d') ∙ c' in
    let dec : decode_interface size z ≡ ok (grouped (clear_mac i)) =
      decode_interface-encode_interface size (clear_mac i) (IsInterface-clear_mac i valid) enc in
    let dec' : decode_interface size z ≡ ok (grouped (clear_mac i')) =
      decode_interface-encode_interface size (clear_mac i') (IsInterface-clear_mac i' valid')
        enc' in
    let same : grouped (clear_mac i) ≡ grouped (clear_mac i') = cc in
    ap clear_mac (sym order) ∙ same ∙ ap clear_mac order'

-- Two trees of full-size records with the same canonical message have the same interface key, the
-- same peers with the same records up to their order, and the same configuration but for the MAC
-- itself.
pub canonical-injective :
    (size : ℕ) (sha1 : Bytes → Bytes) (if_pub_key if_pub_key' if_descr if_descr' : Bytes)
    (peers peers' : List PeerRecord) (i i' : Interface) {msg : Bytes}
    → IsTree size if_pub_key if_descr peers
    → IsTree size if_pub_key' if_descr' peers'
    → decode_interface size if_descr ≡ ok i
    → decode_interface size if_descr' ≡ ok i'
    → canonical size sha1 if_pub_key if_descr peers ≡ ok msg
    → canonical size sha1 if_pub_key' if_descr' peers' ≡ ok msg
    → (if_pub_key ≡ if_pub_key') × (clear_mac i ≡ clear_mac i') × Perm peers peers'
canonical-injective size sha1 k k' d d' ps ps' i i' t t' dec dec' h h' =
    let b = canonical-Built size sha1 k d ps h in
    let b' = canonical-Built size sha1 k' d' ps' h' in
    let sorted = flat_records (sort_records ps) in
    let sorted' = flat_records (sort_records ps') in
    let long : length b.zeroed ≡ size = length-zero_mac size d b.cleared ∙ t.full in
    let long' : length b'.zeroed ≡ size = length-zero_mac size d' b'.cleared ∙ t'.full in
    let heads : length (domain ++ k) ≡ length (domain ++ k') = omega (arith, t.key, t'.key) in
    let (front, e1) = append_injective _ _ _ _ heads (sym b.laid_out ∙ b'.laid_out) in
    let (_, keys) = append_injective domain domain k k' refl front in
    let (zeros, e2) = append_injective b.zeroed b'.zeroed sorted sorted' (long ∙ sym long') e1 in
    let same : sort_records ps ≡ sort_records ps' =
      flat_records-injective size _ _ (sort_records-All size ps t.records)
        (sort_records-All size ps' t'.records) e2 in
    let cleared' : zero_mac size d' ≡ ok b.zeroed = b'.cleared ∙ ap ok (sym zeros) in
    (
      keys,
      zero_mac-injective size d d' i i' t.full t'.full t.bytes t'.bytes dec dec' b.cleared cleared',
      Perm.trans (Perm.symm (sort_records-perm ps)) (rw same (sort_records-perm ps')),
    )

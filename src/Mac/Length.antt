-- ===== src/Mac/Length.antt =====
-- internal/mac/mac.go: the length of the canonical message, and the device's message limit.
use encedo_wg_hsm.Common.{
  ℕ, ◌+◌, ◌-◌, ◌*◌, ◌≤◌, ◌≡◌, List, [], ◌∷◌, ◌++◌, Bytes, All, length, length-append, ok, arith, ap,
  ◌∙◌,
}
use encedo_wg_hsm.Mac.Message.{
  PeerRecord, domain, device_msg_limit, per_peer, fixed_len, max_peers, sort_records, canonical,
}
use encedo_wg_hsm.Mac.Refs.{length-Perm}
use encedo_wg_hsm.Mac.Records.{
  IsPeerRecord, IsTree, flat_records, sort_records-perm, sort_records-All, length-zero_mac,
}
use encedo_wg_hsm.Mac.Injective.{canonical-Built}

length-flat_records :
    (size : ℕ) (ps : List PeerRecord)
    → All (IsPeerRecord size) ps
    → length (flat_records ps) ≡ length ps * per_peer size
unfolding flat_records
length-flat_records size [] h = omega arith
length-flat_records size (p ∷ ps) h = grind (
  arith,
  length-flat_records size ps h.1,
  length-append p.pub_key (p.descr ++ flat_records ps),
  length-append p.descr (flat_records ps),
)

max_peers-fit :
    (n size : ℕ) → n ≤ max_peers size → n * per_peer size ≤ device_msg_limit - fixed_len size
max_peers-fit n size h = grind arith

-- A canonical message is as long as its parts, a fixed part and one part for each peer, and never
-- longer than the device accepts, if the fixed part alone is not.
pub length-canonical :
    (size : ℕ) (sha1 : Bytes → Bytes) (key if_descr : Bytes) (peers : List PeerRecord) {msg : Bytes}
    → IsTree size key if_descr peers
    → fixed_len size ≤ device_msg_limit
    → canonical size sha1 key if_descr peers ≡ ok msg
    → (length msg ≡ fixed_len size + length peers * per_peer size) × (length msg ≤ device_msg_limit)
length-canonical size sha1 key if_descr peers {msg} t room c =
    let b = canonical-Built size sha1 key if_descr peers c in
    let sorted = sort_records peers in
    let long : length b.zeroed ≡ size = length-zero_mac size if_descr b.cleared ∙ t.full in
    let flat : length (flat_records sorted) ≡ length sorted * per_peer size =
      length-flat_records size sorted (sort_records-All size peers t.records) in
    let count : length sorted ≡ length peers = length-Perm (sort_records-perm peers) in
    let flat' : length (flat_records sorted) ≡ length peers * per_peer size =
      flat ∙ ap (λ (n : ℕ). n * per_peer size) count in
    let fits = max_peers-fit (length peers) size b.few in
    let whole : length msg
        ≡ length domain + length key + (length b.zeroed + length (flat_records sorted)) =
      omega (
        arith,
        ap length b.laid_out,
        length-append (domain ++ key) (b.zeroed ++ flat_records sorted),
        length-append domain key,
        length-append b.zeroed (flat_records sorted),
      ) in
    (omega (arith, t.key), omega (arith, t.key))

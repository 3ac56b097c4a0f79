-- ===== src/Mac/AbsentTag.antt =====
-- internal/mac/mac.go: the message of a record that is signed with no MAC tag in it, beside that of
-- the record that is stored with the MAC.
use encedo_wg_hsm.Mac.SignVerify.{encoded-frame, zero_mac-encoded}
use encedo_wg_hsm.Mac.Records.{length-zero_mac}
use encedo_wg_hsm.Mac.Injective.{canonical-Built}
use encedo_wg_hsm.Common.{
  ℕ, ◌≡◌, ◌≢◌, refl, sym, ap, ◌∙◌, true, false, List, ◌++◌, Bytes, length, length-append,
  length-replicate, replicate, append_injective, ok, arith,
}
use encedo_wg_hsm.Descr.Records.{Interface, mac_len, magic_interface}
use encedo_wg_hsm.Descr.Encode.{encode_interface}
use encedo_wg_hsm.Descr.Decode.{decode_interface}
use encedo_wg_hsm.Descr.Framing.{framed, parse-framed}
use encedo_wg_hsm.Descr.Layout.{IsInterface, interface_items}
use encedo_wg_hsm.Descr.RoundTrip.{grouped, decode_interface-encode_interface}
use encedo_wg_hsm.Descr.Sorted.{interface_items-Ascending}
use encedo_wg_hsm.Descr.ZeroMac.{zero_mac, clear_mac}
use encedo_wg_hsm.Descr.ZeroMac.Correct.{zero_walk-none, IsInterface-clear_mac}
use encedo_wg_hsm.Mac.Message.{PeerRecord, domain, canonical}

zero_mac-absent :
    (size : ℕ) (i : Interface) {b : Bytes}
    → IsInterface i
    → i.has_mac ≡ false
    → encode_interface size i ≡ ok b
    → zero_mac size b ≡ ok b
unfolding zero_mac
zero_mac-absent size i h has e =
    let (k, full, same) = encoded-frame size i h e in
    let parsed =
      parse-framed size k magic_interface (interface_items i) refl (interface_items-Ascending i h)
        (omega arith) in
    rw same (rw parsed (ap ok (zero_walk-none i _ h has)))

length-encoded :
    (size : ℕ) (i : Interface) {b : Bytes}
    → IsInterface i
    → encode_interface size i ≡ ok b
    → length b ≡ size
length-encoded size i h e =
    let (k, full, same) = encoded-frame size i h e in
    let frame = framed magic_interface (interface_items i) in
    omega (arith, ap length same, length-append frame (replicate k 0), length-replicate {A = ℕ} k 0)

-- The message over a well-formed configuration encoded without a MAC tag differs from the message
-- over the same configuration encoded with one, whatever the MAC in the tag is.
pub canonical-absent_tag :
    (size : ℕ) (sha1 : Bytes → Bytes) (key sum : Bytes) (i : Interface) (peers : List PeerRecord)
    {unsigned signed msg msg' : Bytes}
    → IsInterface i
    → i.has_mac ≡ false
    → length sum ≡ mac_len
    → encode_interface size i ≡ ok unsigned
    → encode_interface size (record i { mac = sum; has_mac = true }) ≡ ok signed
    → canonical size sha1 key unsigned peers ≡ ok msg
    → canonical size sha1 key signed peers ≡ ok msg'
    → msg ≢ msg'
canonical-absent_tag size sha1 key sum i peers {unsigned} {signed} h has long e e' c c' same =
    let i' : Interface = record i { mac = sum; has_mac = true } in
    let h' : IsInterface i' = record {
      addrs = h.addrs;
      mtu = h.mtu;
      dns = h.dns;
      peer_refs = h.peer_refs;
      listen_port = h.listen_port;
      mac = long;
      no_mac = λ f. cc;
    } in
    let b = canonical-Built size sha1 key unsigned peers c in
    let b' = canonical-Built size sha1 key signed peers c' in
    let full : length b.zeroed ≡ size =
      length-zero_mac size unsigned b.cleared ∙ length-encoded size i h e in
    let full' : length b'.zeroed ≡ size =
      length-zero_mac size signed b'.cleared ∙ length-encoded size i' h' e' in
    let (_, tails) =
      append_injective (domain ++ key) (domain ++ key) _ _ refl
        (sym b.laid_out ∙ same ∙ b'.laid_out) in
    let (zeros, _) = append_injective b.zeroed b'.zeroed _ _ (full ∙ sym full') tails in
    let own : ok unsigned ≡ ok b.zeroed = sym (zero_mac-absent size i h has e) ∙ b.cleared in
    let whole : unsigned ≡ b'.zeroed = cc in
    let cleared : encode_interface size (clear_mac i') ≡ ok b'.zeroed =
      sym (zero_mac-encoded size i' h' refl e') ∙ b'.cleared in
    let read : decode_interface size b'.zeroed ≡ ok (grouped i) =
      rw whole at (decode_interface-encode_interface size i h e) in
    let read' : decode_interface size b'.zeroed ≡ ok (grouped (clear_mac i')) =
      decode_interface-encode_interface size (clear_mac i') (IsInterface-clear_mac i' h') cleared in
    let configs : grouped i ≡ grouped (clear_mac i') = cc in
    let tags : i.has_mac ≡ true = ap (λ (x : Interface). x.has_mac) configs in cc

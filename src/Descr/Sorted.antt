-- ===== src/Descr/Sorted.antt =====
-- internal/descr/descr.go: the order of the tags that the encoders emit, and the lengths of their
-- values.
use encedo_wg_hsm.Common.{
  ℕ, ◌%◌, ◌<◌, refl, Bool, true, false, not, List, [], ◌∷◌, Bytes, All, length, ◌==◌, append-nil,
  arith,
}
use encedo_wg_hsm.Netip.{Addr, invalid, v4, v6, Prefix, IsPrefix}
use encedo_wg_hsm.Descr.Tag
use encedo_wg_hsm.Descr.Records.{Interface, be16, PeerRef}
use encedo_wg_hsm.Descr.Items.{Ascending, Tagged, Ascending-Tagged}
use encedo_wg_hsm.Descr.Layout.{
  v4_items, v6_items, dns4_items, dns6_items, ref_items, item_if, interface_items, IsInterface,
  IsServer, IsRef, length-as4, length-as16,
}

pub Tagged-v4 : (tag : ℕ) (ps : List Prefix) → All IsPrefix ps → Tagged tag (v4_items tag ps)
Tagged-v4 tag [] h = tt
Tagged-v4 tag (p ∷ ps) h = ground (arith, length-as4 p.addr (p.bits % 256), Tagged-v4 tag ps h.1)

pub Tagged-v6 : (tag : ℕ) (ps : List Prefix) → All IsPrefix ps → Tagged tag (v6_items tag ps)
Tagged-v6 tag [] h = tt
Tagged-v6 tag (p ∷ ps) h = ground (arith, length-as16 p.addr (p.bits % 256), Tagged-v6 tag ps h.1)

pub Tagged-dns4 : (ds : List Addr) → All IsServer ds → Tagged Tag.dns4 (dns4_items ds)
Tagged-dns4 [] h = tt
Tagged-dns4 (invalid ∷ ds) h = Tagged-dns4 ds h.1
Tagged-dns4 (v4 b ∷ ds) h = (refl, omega (arith, h.0.0), Tagged-dns4 ds h.1)
Tagged-dns4 (v6 b zone ∷ ds) h = Tagged-dns4 ds h.1

pub Tagged-dns6 : (ds : List Addr) → All IsServer ds → Tagged Tag.dns6 (dns6_items ds)
Tagged-dns6 [] h = tt
Tagged-dns6 (invalid ∷ ds) h = cc
Tagged-dns6 (v4 b ∷ ds) h = Tagged-dns6 ds h.1
Tagged-dns6 (v6 b zone ∷ ds) h = (refl, omega (arith, h.0.0.0), Tagged-dns6 ds h.1)

pub Tagged-refs : (rs : List PeerRef) → All IsRef rs → Tagged Tag.peer_ref (ref_items rs)
Tagged-refs [] h = tt
Tagged-refs (r ∷ rs) h = (refl, omega (arith, h.0), Tagged-refs rs h.1)

pub Tagged-item_if :
    (b : Bool) (tag : ℕ) (value : Bytes) → length value < 256 → Tagged tag (item_if b tag value)
Tagged-item_if true tag value h = (refl, h, tt)
Tagged-item_if false tag value h = tt

pub interface_items-Ascending : (i : Interface) → IsInterface i → Ascending 0 (interface_items i)
unfolding interface_items
interface_items-Ascending i h =
    let mac : Ascending Tag.listen_port (item_if i.has_mac Tag.mac i.mac) = rw append-nil at (
      Ascending-Tagged Tag.mac Tag.listen_port (item_if i.has_mac Tag.mac i.mac) []
        (Tagged-item_if i.has_mac Tag.mac i.mac (omega (arith, h.mac))) (omega arith) (omega arith)
        tt) in
    let number = λ (n t : ℕ). Tagged-item_if (not (n == 0)) t (be16 n) (omega arith) in
    Ascending-Tagged Tag.addr4 0 _ _ (Tagged-v4 Tag.addr4 i.addrs h.addrs) (omega arith)
      (omega arith)
      (Ascending-Tagged Tag.addr6 Tag.addr4 _ _ (Tagged-v6 Tag.addr6 i.addrs h.addrs) (omega arith)
        (omega arith)
        (Ascending-Tagged Tag.mtu Tag.addr6 _ _ (number i.mtu Tag.mtu) (omega arith) (omega arith) (
          Ascending-Tagged Tag.dns4 Tag.mtu _ _ (Tagged-dns4 i.dns h.dns) (omega arith)
            (omega arith)
            (Ascending-Tagged Tag.dns6 Tag.dns4 _ _ (Tagged-dns6 i.dns h.dns) (omega arith)
              (omega arith)
              (Ascending-Tagged Tag.peer_ref Tag.dns6 _ _ (Tagged-refs i.peer_refs h.peer_refs)
                (omega arith) (omega arith)
                (Ascending-Tagged Tag.listen_port Tag.peer_ref _ _
                  (number i.listen_port Tag.listen_port) (omega arith) (omega arith) mac))))))

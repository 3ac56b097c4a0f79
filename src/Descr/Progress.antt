-- ===== src/Descr/Progress.antt =====
-- internal/descr/descr.go: the invariant of the loop of `DecodeInterface`. What has been read so
-- far lays out as the items that were read, and nothing stands yet in the groups behind.
pub mod Addresses
pub mod Options
use encedo_wg_hsm.Common.{
  ℕ, zero, suc, ◌+◌, ◌-◌, ◌*◌, ◌/◌, ◌%◌, ◌≤◌, ◌<◌, ◌≡◌, refl, sym, ap, ◌∙◌, Bool, true, false, not,
  List, [], ◌∷◌, ◌++◌, Bytes, IsByte, All, All-append, length, take, drop, get_or, replicate, ◌==◌,
  leb, leb→le, if◌then◌else◌, append-nil, append_assoc, Result, ok, err, arith, Bool-cases, inl,
  inr, ==→eq, Option, none, some, ◌>>=◌, >>=-eq-ok, fail_if,
}
use encedo_wg_hsm.Netip.{
  Addr, invalid, v4, v6, is4, as4, as16, is_valid, Prefix, IsPrefix, prefix_is_valid,
}
use encedo_wg_hsm.Descr.Tag
use encedo_wg_hsm.Descr.Records.{
  Interface, TlvItem, DescrError, be16, be_uint16, mac_len, PeerRef, peer_ref_len,
}
use encedo_wg_hsm.Descr.Items.{item}
use encedo_wg_hsm.Descr.Layout.{
  v4_items, v6_items, dns4_items, dns6_items, ref_items, item_if, interface_items, IsInterface,
  IsServer, IsRef,
}
use encedo_wg_hsm.Descr.Inversion.{
  prefix_of_value4-eq-ok, prefix_of_value6-eq-ok, addr_of_value4, addr_of_value6, be16-be_uint16,
  v4_items-snoc4, v6_items-snoc4, v4_items-snoc6, v6_items-snoc6, dns4_items-snoc4,
  dns6_items-snoc4, dns4_items-snoc6, dns6_items-snoc6, ref_items-snoc,
}
use encedo_wg_hsm.Descr.ReadBack.{add_addrs, add_dns, add_refs}
use encedo_wg_hsm.Descr.Decode.{
  has_seen, once, prefix_of_value, addr_of_value, InterfaceState, with_out, read_addr, read_mtu,
  read_dns, read_ref, read_port, read_mac, interface_switch, interface_step,
}

-- After the items `before`, the last of them with the tag `t`.
pub record Progress (t : ℕ) (before : List TlvItem) (s : InterfaceState) : Type 0 where
  pub layout : interface_items s.out ≡ before
  pub valid : IsInterface s.out
  pub no_addr6 : t < 2 → v6_items Tag.addr6 s.out.addrs ≡ []
  pub no_mtu : t < 3 → s.out.mtu ≡ 0
  pub no_dns4 : t < 4 → dns4_items s.out.dns ≡ []
  pub no_dns6 : t < 5 → dns6_items s.out.dns ≡ []
  pub no_refs : t < 6 → s.out.peer_refs ≡ []
  pub no_port : t < 7 → s.out.listen_port ≡ 0
  pub mtu_seen : has_seen s.seen Tag.mtu ≡ false → s.out.mtu ≡ 0
  pub port_seen : has_seen s.seen Tag.listen_port ≡ false → s.out.listen_port ≡ 0
  pub mac_seen : has_seen s.seen Tag.mac ≡ false → s.out.has_mac ≡ false

pub item_if-zero : (n tag : ℕ) (value : Bytes) → n ≡ 0 → item_if (not (n == 0)) tag value ≡ []
item_if-zero n tag value h = rw h

item_if-false : (b : Bool) (tag : ℕ) (value : Bytes) → b ≡ false → item_if b tag value ≡ []
item_if-false b tag value h = rw h

module _ {i : Interface} (h : IsInterface i) where
  pub IsInterface-addrs :
      (ps : List Prefix) → All IsPrefix ps → IsInterface (record i { addrs = ps })
  IsInterface-addrs ps k = record {
    addrs = k;
    mtu = h.mtu;
    dns = h.dns;
    peer_refs = h.peer_refs;
    listen_port = h.listen_port;
    mac = h.mac;
    no_mac = h.no_mac;
  }

  pub IsInterface-mtu : (n : ℕ) → n < 65536 → IsInterface (record i { mtu = n })
  IsInterface-mtu n k = record {
    addrs = h.addrs;
    mtu = k;
    dns = h.dns;
    peer_refs = h.peer_refs;
    listen_port = h.listen_port;
    mac = h.mac;
    no_mac = h.no_mac;
  }

  pub IsInterface-dns : (ds : List Addr) → All IsServer ds → IsInterface (record i { dns = ds })
  IsInterface-dns ds k = record {
    addrs = h.addrs;
    mtu = h.mtu;
    dns = k;
    peer_refs = h.peer_refs;
    listen_port = h.listen_port;
    mac = h.mac;
    no_mac = h.no_mac;
  }

  pub IsInterface-peer_refs :
      (rs : List PeerRef) → All IsRef rs → IsInterface (record i { peer_refs = rs })
  IsInterface-peer_refs rs k = record {
    addrs = h.addrs;
    mtu = h.mtu;
    dns = h.dns;
    peer_refs = k;
    listen_port = h.listen_port;
    mac = h.mac;
    no_mac = h.no_mac;
  }

  pub IsInterface-listen_port : (n : ℕ) → n < 65536 → IsInterface (record i { listen_port = n })
  IsInterface-listen_port n k = record {
    addrs = h.addrs;
    mtu = h.mtu;
    dns = h.dns;
    peer_refs = h.peer_refs;
    listen_port = k;
    mac = h.mac;
    no_mac = h.no_mac;
  }

  pub IsInterface-mac :
      (m : Bytes) → length m ≡ mac_len → IsInterface (record i { mac = m; has_mac = true })
  IsInterface-mac m k = record {
    addrs = h.addrs;
    mtu = h.mtu;
    dns = h.dns;
    peer_refs = h.peer_refs;
    listen_port = h.listen_port;
    mac = k;
    no_mac = λ e. cc;
  }

module _ (t : ℕ) (before : List TlvItem) (s : InterfaceState) (g : Progress t before s) where
  -- The groups that stand behind the last tag are empty.
  pub none_mtu : t < 3 → item_if (not (s.out.mtu == 0)) Tag.mtu (be16 s.out.mtu) ≡ []
  none_mtu h = item_if-zero s.out.mtu Tag.mtu (be16 s.out.mtu) (g.no_mtu h)

  pub none_refs : t < 6 → ref_items s.out.peer_refs ≡ []
  none_refs h = ap ref_items (g.no_refs h)

  pub none_port :
      t < 7 → item_if (not (s.out.listen_port == 0)) Tag.listen_port (be16 s.out.listen_port) ≡ []
  none_port h =
      item_if-zero s.out.listen_port Tag.listen_port (be16 s.out.listen_port) (g.no_port h)

  pub none_mac : has_seen s.seen Tag.mac ≡ false → item_if s.out.has_mac Tag.mac s.out.mac ≡ []
  none_mac h = item_if-false s.out.has_mac Tag.mac s.out.mac (g.mac_seen h)

-- ===== src/Descr/RoundTrip.antt =====
-- internal/descr/descr.go: `DecodeInterface` after `Interface.Encode`.
use encedo_wg_hsm.Common.{
  ℕ, ◌+◌, ◌-◌, ◌≤◌, ◌<◌, ◌≡◌, refl, sym, ◌∙◌, Bool, true, false, not, List, [], ◌∷◌, ◌++◌, Bytes,
  length, ltb, ◌==◌, if◌then◌else◌, ok, err, arith,
}
use encedo_wg_hsm.Descr.Tag
use encedo_wg_hsm.Descr.Records.{
  Interface, TlvItem, overflow, be16, be_uint16, mac_len, magic_interface,
}
use encedo_wg_hsm.Descr.Sorted.{interface_items-Ascending}
use encedo_wg_hsm.Descr.Framing.{framed, parse-framed}
use encedo_wg_hsm.Descr.Layout.{
  item_if, interface_items, IsInterface, written, encode_interface-items,
}
use encedo_wg_hsm.Descr.ReadBack.{
  v4_prefixes, v6_prefixes, v4_addrs, v6_addrs, interface_loop-v4, interface_loop-v6,
  interface_loop-dns4, interface_loop-dns6, interface_loop-refs, Open, add_addrs, add_dns, add_refs,
}
use encedo_wg_hsm.Descr.Encode.{padded, finish, encode_interface}
use encedo_wg_hsm.Descr.Decode.{
  has_seen, once, InterfaceState, empty_interface, read_mtu, read_port, read_mac, interface_switch,
  interface_step, interface_loop, decode_interface,
}

-- The record as a reader sees it: addresses and servers with the IPv4 ones first.
abbrev pub grouped : Interface → Interface
grouped i = record i {
  addrs = v4_prefixes i.addrs ++ v6_prefixes i.addrs;
  dns = v4_addrs i.dns ++ v6_addrs i.dns;
}

pub be_uint16-be16 : (n : ℕ) → n < 65536 → be_uint16 (be16 n) ≡ n
be_uint16-be16 n h = omega arith

-- The optional numbers and the MAC.
abbrev pub note : Bool → ℕ → List ℕ → List ℕ
note b tag seen = if b then tag ∷ seen else seen

abbrev set_mtu : InterfaceState → ℕ → InterfaceState
set_mtu s n = record { out = record (s.out) { mtu = n }; seen = note (not (n == 0)) Tag.mtu s.seen }

abbrev set_port : InterfaceState → ℕ → InterfaceState
set_port s n = record {
  out = record (s.out) { listen_port = n };
  seen = note (not (n == 0)) Tag.listen_port s.seen;
}

interface_loop-mtu :
    (n : ℕ) (rest : List TlvItem) (s : InterfaceState)
    → n < 65536
    → Open s
    → has_seen s.seen Tag.mtu ≡ false
    → s.out.mtu ≡ 0
    → interface_loop (item_if (not (n == 0)) Tag.mtu (be16 n) ++ rest) s
      ≡ interface_loop rest (set_mtu s n)
unfolding interface_loop interface_step interface_switch read_mtu once
interface_loop-mtu n rest s h o fresh z = ground (arith, be_uint16-be16 n h)

interface_loop-port :
    (n : ℕ) (rest : List TlvItem) (s : InterfaceState)
    → n < 65536
    → Open s
    → has_seen s.seen Tag.listen_port ≡ false
    → s.out.listen_port ≡ 0
    → interface_loop (item_if (not (n == 0)) Tag.listen_port (be16 n) ++ rest) s
      ≡ interface_loop rest (set_port s n)
unfolding interface_loop interface_step interface_switch read_port once
interface_loop-port n rest s h o fresh z = ground (arith, be_uint16-be16 n h)

interface_loop-mac :
    (b : Bool) (mac : Bytes) (s : InterfaceState)
    → length mac ≡ mac_len
    → Open s
    → (b ≡ false → mac ≡ s.out.mac)
    → s.out.has_mac ≡ false
    → interface_loop (item_if b Tag.mac mac) s ≡ ok (record (s.out) { mac = mac; has_mac = b })
unfolding interface_loop interface_step interface_switch read_mac once
interface_loop-mac true mac s l o keep z = ground arith
interface_loop-mac false mac s l o keep z = ground (arith, keep refl)

pub has_seen-note :
    (b : Bool) (tag t : ℕ) (seen : List ℕ)
    → has_seen seen t ≡ false
    → (tag == t) ≡ false
    → has_seen (note b tag seen) t ≡ false
unfolding has_seen
has_seen-note true tag t seen h e = rw e h
has_seen-note false tag t seen h e = h

-- The whole loop, group by group.
interface_loop-items :
    (i : Interface)
    → IsInterface i
    → interface_loop (interface_items i) (record { out = empty_interface; seen = [] })
      ≡ ok (grouped i)
unfolding interface_items has_seen
interface_loop-items i h =
    let s0 : InterfaceState = record { out = empty_interface; seen = [] } in
    let s1 = add_addrs s0 (v4_prefixes i.addrs) in
    let s2 = add_addrs s1 (v6_prefixes i.addrs) in
    let s3 = set_mtu s2 i.mtu in
    let s4 = add_dns s3 (v4_addrs i.dns) in
    let s5 = add_dns s4 (v6_addrs i.dns) in
    let s6 = add_refs s5 i.peer_refs in
    let o3 : Open s3 = has_seen-note (not (i.mtu == 0)) Tag.mtu Tag.mac [] refl refl in
    let f6 : has_seen s6.seen Tag.listen_port ≡ false =
      has_seen-note (not (i.mtu == 0)) Tag.mtu Tag.listen_port [] refl refl in
    let s7 = set_port s6 i.listen_port in
    let o7 : Open s7 =
      has_seen-note (not (i.listen_port == 0)) Tag.listen_port Tag.mac s6.seen o3 refl in
    interface_loop-v4 i.addrs _ s0 h.addrs refl
    ∙ interface_loop-v6 i.addrs _ s1 h.addrs refl
    ∙ interface_loop-mtu i.mtu _ s2 h.mtu refl refl refl
    ∙ interface_loop-dns4 i.dns _ s3 h.dns o3
    ∙ interface_loop-dns6 i.dns _ s4 h.dns o3
    ∙ interface_loop-refs i.peer_refs _ s5 h.peer_refs o3
    ∙ interface_loop-port i.listen_port _ s6 h.listen_port o3 f6 refl
    ∙ interface_loop-mac i.has_mac i.mac s7 h.mac o7 h.no_mac refl

pub finish-written :
    (size : ℕ) (magic : Bytes) (items : List TlvItem) {bytes : Bytes}
    → finish size (written magic items) ≡ ok bytes
    → (length (framed magic items) ≤ size) × (bytes ≡ padded size (framed magic items))
unfolding finish
finish-written size magic items h = (ground arith, ground arith)

-- The record of a well-formed configuration decodes to the same configuration, its addresses and
-- servers with the IPv4 ones first and otherwise in their order.
pub decode_interface-encode_interface :
    (size : ℕ) (i : Interface) {written_record : Bytes}
    → IsInterface i
    → encode_interface size i ≡ ok written_record
    → decode_interface size written_record ≡ ok (grouped i)
unfolding decode_interface
decode_interface-encode_interface size i h e =
    let items = interface_items i in
    let frame = framed magic_interface items in
    let (fits, same) =
      finish-written size magic_interface items (sym (encode_interface-items size i h) ∙ e) in
    let room : length frame + (size - length frame) ≤ size = omega arith in
    let asc = interface_items-Ascending i h in
    rw same (
      rw (parse-framed size (size - length frame) magic_interface items refl asc room)
        (interface_loop-items i h))

-- On a well-formed configuration the encoder fails for one reason only: the items need more than
-- `size` bytes, and the error names how many bytes are needed and by how many they overflow.
-- Otherwise it writes the frame of the items, padded.
pub encode_interface-overflow :
    (size : ℕ) (i : Interface)
    → IsInterface i
    → encode_interface size i ≡ (
        if ltb size (length (framed magic_interface (interface_items i)))
        then err (
            overflow
              (length (framed magic_interface (interface_items i)))
              (length (framed magic_interface (interface_items i)) - size))
        else ok (padded size (framed magic_interface (interface_items i))))
encode_interface-overflow size i h = encode_interface-items size i h ∙ unfold finish in refl

-- ===== src/Descr/Layout.antt =====
-- internal/descr/descr.go: which items the encoders write, for records whose addresses hold the
-- bytes that Go's types hold.
use encedo_wg_hsm.Common.{
  ℕ, ◌%◌, ◌<◌, ◌≡◌, refl, Bool, true, false, not, List, [], ◌∷◌, ◌++◌, Bytes, All, length,
  replicate, ◌==◌, if◌then◌else◌, length-append, append-nil, append_assoc, ok, arith, none,
}
use encedo_wg_hsm.Netip.{Addr, invalid, v4, v6, is_valid, is4, as4, as16, Prefix, IsAddr, IsPrefix}
use encedo_wg_hsm.Descr.Tag
use encedo_wg_hsm.Descr.Records.{
  Interface, TlvItem, be16, magic_interface, mac_len, peer_ref_len, version, PeerRef,
}
use encedo_wg_hsm.Descr.Items.{item, serialize, serialize-append}
use encedo_wg_hsm.Descr.Framing.{framed}
use encedo_wg_hsm.Descr.Encode.{
  Writer, put_tlv, tlv, tlv_if, finish, append_prefix4, append_prefix6, check_prefixes, append_v4s,
  append_v6s, encode_prefixes, append_dns, dns_pass, append_refs, new_writer, encode_interface,
}

-- The writer after these items.
abbrev pub written : Bytes → List TlvItem → Writer
written magic items = record { buf = framed magic items; failure = none }

-- The items of each loop.
abbrev pub v4_items : ℕ → List Prefix → List TlvItem
v4_items tag [] = []
v4_items tag (p ∷ ps) =
    if is4 p.addr
    then item tag (as4 p.addr ++ ((p.bits % 256) ∷ [])) ∷ v4_items tag ps
    else v4_items tag ps

abbrev pub v6_items : ℕ → List Prefix → List TlvItem
v6_items tag [] = []
v6_items tag (p ∷ ps) =
    if is4 p.addr
    then v6_items tag ps
    else item tag (as16 p.addr ++ ((p.bits % 256) ∷ [])) ∷ v6_items tag ps

abbrev pub dns4_items : List Addr → List TlvItem
dns4_items [] = []
dns4_items (d ∷ ds) = if is4 d then item Tag.dns4 (as4 d) ∷ dns4_items ds else dns4_items ds

abbrev pub dns6_items : List Addr → List TlvItem
dns6_items [] = []
dns6_items (d ∷ ds) = if is4 d then dns6_items ds else item Tag.dns6 (as16 d) ∷ dns6_items ds

abbrev pub ref_items : List PeerRef → List TlvItem
ref_items [] = []
ref_items (r ∷ rs) = item Tag.peer_ref r ∷ ref_items rs

abbrev pub item_if : Bool → ℕ → Bytes → List TlvItem
item_if b tag value = if b then item tag value ∷ [] else []

unfoldable pub interface_items : Interface → List TlvItem
interface_items i =
    v4_items Tag.addr4 i.addrs
    ++ (v6_items Tag.addr6 i.addrs
        ++ (item_if (not (i.mtu == 0)) Tag.mtu (be16 i.mtu)
            ++ (dns4_items i.dns
                ++ (dns6_items i.dns
                    ++ (ref_items i.peer_refs
                        ++ (item_if (not (i.listen_port == 0)) Tag.listen_port (be16 i.listen_port)
                            ++ item_if i.has_mac Tag.mac i.mac))))))

abbrev pub IsServer : Addr → Type 0
IsServer d = IsAddr d × (is_valid d ≡ true)

abbrev pub IsRef : PeerRef → Type 0
IsRef r = length r ≡ peer_ref_len

-- The values that Go's types hold, and no MAC bytes where there is no MAC.
pub record IsInterface (i : Interface) : Type 0 where
  pub addrs : All IsPrefix i.addrs
  pub mtu : i.mtu < 65536
  pub dns : All IsServer i.dns
  pub peer_refs : All IsRef i.peer_refs
  pub listen_port : i.listen_port < 65536
  pub mac : length i.mac ≡ mac_len
  pub no_mac : i.has_mac ≡ false → i.mac ≡ replicate mac_len 0

-- Each call of the writer adds its item.
put_tlv-written :
    (magic : Bytes) (items : List TlvItem) (tag : ℕ) (value : Bytes)
    → length value < 256
    → put_tlv tag value (written magic items) ≡ written magic (items ++ (item tag value ∷ []))
unfolding put_tlv framed serialize
put_tlv-written magic items tag value h =
    let same : length value % 256 ≡ length value = omega arith in
    let grown : serialize (items ++ (item tag value ∷ []))
        ≡ serialize items ++ (tag ∷ length value ∷ (value ++ [])) =
      serialize-append items (item tag value ∷ []) in
    ground (
      arith,
      same,
      grown,
      append-nil value,
      append_assoc magic (version ∷ serialize items) (tag ∷ length value ∷ value),
    )

pub tlv-written :
    (magic : Bytes) (items : List TlvItem) (tag : ℕ) (value : Bytes)
    → length value < 256
    → tlv tag value (written magic items) ≡ written magic (items ++ (item tag value ∷ []))
unfolding tlv
tlv-written = put_tlv-written

pub length-as4 : (a : Addr) (n : ℕ) → IsAddr a → is4 a ≡ true → length (as4 a ++ (n ∷ [])) ≡ 5
length-as4 invalid n h e = cc
length-as4 (v4 b) n h e = omega (arith, length-append b (n ∷ []))
length-as4 (v6 b zone) n h e = cc

pub length-as16 :
    (a : Addr) (n : ℕ)
    → IsAddr a
    → is_valid a ≡ true
    → is4 a ≡ false
    → length (as16 a ++ (n ∷ [])) ≡ 17
length-as16 invalid n h v e = cc
length-as16 (v4 b) n h v e = cc
length-as16 (v6 b zone) n h v e = omega (arith, length-append b (n ∷ []))

check_prefixes-ok : (ps : List Prefix) → All IsPrefix ps → check_prefixes ps ≡ ok tt
unfolding check_prefixes
check_prefixes-ok [] h = refl
check_prefixes-ok (p ∷ ps) h = rw (h.0.1) (check_prefixes-ok ps h.1)

module _ (magic : Bytes) where
  append_v4s-written :
      (tag : ℕ) (ps : List Prefix) (items : List TlvItem)
      → All IsPrefix ps
      → append_v4s tag ps (written magic items) ≡ written magic (items ++ v4_items tag ps)
  unfolding append_v4s append_prefix4
  append_v4s-written tag [] items h = rw append-nil
  append_v4s-written tag (p ∷ ps) items h =
      let value = as4 p.addr ++ ((p.bits % 256) ∷ []) in
      ground (
        arith,
        length-as4 p.addr (p.bits % 256),
        tlv-written magic items tag value,
        append_v4s-written tag ps items,
        append_v4s-written tag ps (items ++ (item tag value ∷ [])),
        append_assoc items (item tag value ∷ []) (v4_items tag ps),
      )

  append_v6s-written :
      (tag : ℕ) (ps : List Prefix) (items : List TlvItem)
      → All IsPrefix ps
      → append_v6s tag ps (written magic items) ≡ written magic (items ++ v6_items tag ps)
  unfolding append_v6s append_prefix6
  append_v6s-written tag [] items h = rw append-nil
  append_v6s-written tag (p ∷ ps) items h =
      let value = as16 p.addr ++ ((p.bits % 256) ∷ []) in
      ground (
        arith,
        length-as16 p.addr (p.bits % 256),
        tlv-written magic items tag value,
        append_v6s-written tag ps items,
        append_v6s-written tag ps (items ++ (item tag value ∷ [])),
        append_assoc items (item tag value ∷ []) (v6_items tag ps),
      )

  pub encode_prefixes-written :
      (ps : List Prefix) (tag4 tag6 : ℕ) (items : List TlvItem)
      → All IsPrefix ps
      → encode_prefixes ps tag4 tag6 (written magic items)
        ≡ ok (written magic ((items ++ v4_items tag4 ps) ++ v6_items tag6 ps))
  unfolding encode_prefixes
  encode_prefixes-written ps tag4 tag6 items h = ground (
    arith,
    check_prefixes-ok ps h,
    append_v4s-written tag4 ps items h,
    append_v6s-written tag6 ps (items ++ v4_items tag4 ps) h,
  )

  dns_pass-written4 :
      (ds : List Addr) (items : List TlvItem)
      → All IsServer ds
      → dns_pass true ds (written magic items) ≡ ok (written magic (items ++ dns4_items ds))
  unfolding dns_pass append_dns
  dns_pass-written4 [] items h = rw append-nil
  dns_pass-written4 (invalid ∷ ds) items h = cc
  dns_pass-written4 (v4 b ∷ ds) items h = ground (
    arith,
    tlv-written magic items Tag.dns4 b,
    dns_pass-written4 ds (items ++ (item Tag.dns4 b ∷ [])),
    append_assoc items (item Tag.dns4 b ∷ []) (dns4_items ds),
  )
  dns_pass-written4 (v6 b zone ∷ ds) items h = dns_pass-written4 ds items h.1

  dns_pass-written6 :
      (ds : List Addr) (items : List TlvItem)
      → All IsServer ds
      → dns_pass false ds (written magic items) ≡ ok (written magic (items ++ dns6_items ds))
  unfolding dns_pass append_dns
  dns_pass-written6 [] items h = rw append-nil
  dns_pass-written6 (invalid ∷ ds) items h = cc
  dns_pass-written6 (v4 b ∷ ds) items h = dns_pass-written6 ds items h.1
  dns_pass-written6 (v6 b zone ∷ ds) items h = ground (
    arith,
    tlv-written magic items Tag.dns6 b,
    dns_pass-written6 ds (items ++ (item Tag.dns6 b ∷ [])),
    append_assoc items (item Tag.dns6 b ∷ []) (dns6_items ds),
  )

  append_refs-written :
      (rs : List PeerRef) (items : List TlvItem)
      → All IsRef rs
      → append_refs rs (written magic items) ≡ written magic (items ++ ref_items rs)
  unfolding append_refs
  append_refs-written [] items h = rw append-nil
  append_refs-written (r ∷ rs) items h = ground (
    arith,
    tlv-written magic items Tag.peer_ref r,
    append_refs-written rs (items ++ (item Tag.peer_ref r ∷ [])),
    append_assoc items (item Tag.peer_ref r ∷ []) (ref_items rs),
  )

  pub tlv_if-written :
      (b : Bool) (tag : ℕ) (value : Bytes) (items : List TlvItem)
      → length value < 256
      → tlv_if b tag value (written magic items) ≡ written magic (items ++ item_if b tag value)
  tlv_if-written true tag value items h = tlv-written magic items tag value h
  tlv_if-written false tag value items h = rw append-nil

pub new_writer-written : (magic : Bytes) → new_writer magic ≡ written magic []
unfolding framed serialize
new_writer-written magic = refl

-- The encoder writes the frame of the record's items, or reports that they do not fit.
pub encode_interface-items :
    (size : ℕ) (i : Interface)
    → IsInterface i
    → encode_interface size i ≡ finish size (written magic_interface (interface_items i))
unfolding encode_interface interface_items
encode_interface-items size i h =
    let magic = magic_interface in
    let a = v4_items Tag.addr4 i.addrs in
    let b = a ++ v6_items Tag.addr6 i.addrs in
    let c = b ++ item_if (not (i.mtu == 0)) Tag.mtu (be16 i.mtu) in
    let d = c ++ dns4_items i.dns in
    let e = d ++ dns6_items i.dns in
    let f = e ++ ref_items i.peer_refs in
    let g = f ++ item_if (not (i.listen_port == 0)) Tag.listen_port (be16 i.listen_port) in
    rw (new_writer-written magic) (
      rw (encode_prefixes-written magic i.addrs Tag.addr4 Tag.addr6 [] h.addrs) (
        rw (tlv_if-written magic (not (i.mtu == 0)) Tag.mtu (be16 i.mtu) b (omega arith)) (
          rw (dns_pass-written4 magic i.dns c h.dns) (
            rw (dns_pass-written6 magic i.dns d h.dns) (
              rw (append_refs-written magic i.peer_refs e h.peer_refs) (
                rw
                  (tlv_if-written magic (not (i.listen_port == 0)) Tag.listen_port
                    (be16 i.listen_port) f (omega arith))
                  (rw (tlv_if-written magic i.has_mac Tag.mac i.mac g (omega (arith, h.mac)))
                    (simp append_assoc))))))))

-- ===== src/Descr/Peer/Layout.antt =====
-- internal/descr/descr.go: which items `Peer.Encode` writes.
use encedo_wg_hsm.Common.{
  ℕ, ◌%◌, ◌≤◌, ◌<◌, ◌≡◌, ap, false, not, List, [], ◌∷◌, ◌++◌, Bytes, All, length, is_empty, ltb,
  ◌==◌, length-append, append-nil, append_assoc, ok, arith,
}
use encedo_wg_hsm.Netip.{Addr, invalid, v4, v6, IsPrefix}
use encedo_wg_hsm.Descr.Tag
use encedo_wg_hsm.Descr.Records.{
  Endpoint, Peer, TlvItem, be16, magic_peer, psk_wrapped_len, max_hostname,
}
use encedo_wg_hsm.Descr.Items.{item, Ascending, Ascending-Tagged}
use encedo_wg_hsm.Descr.Layout.{
  written, v4_items, v6_items, item_if, IsServer, tlv-written, tlv_if-written,
  encode_prefixes-written, new_writer-written,
}
use encedo_wg_hsm.Descr.Sorted.{Tagged-v4, Tagged-v6, Tagged-item_if}
use encedo_wg_hsm.Descr.Encode.{finish, encode_ip, encode_endpoint, encode_psk, encode_peer}

abbrev pub ip_items : Addr → ℕ → List TlvItem
ip_items invalid port = []
ip_items (v4 b) port = item Tag.endpoint4 (b ++ be16 port) ∷ []
ip_items (v6 b zone) port = item Tag.endpoint6 (b ++ be16 port) ∷ []

abbrev pub host_items : Bytes → Addr → ℕ → List TlvItem
host_items [] ip port = ip_items ip port
host_items (c ∷ cs) ip port = item Tag.endpoint_host (be16 port ++ (c ∷ cs)) ∷ []

abbrev pub endpoint_items : Endpoint → List TlvItem
endpoint_items e = host_items e.host e.ip e.port

abbrev pub psk_items : Bytes → List TlvItem
psk_items psk = item_if (not (is_empty psk)) Tag.psk_wrapped psk

unfoldable pub peer_items : Peer → List TlvItem
peer_items p =
    endpoint_items p.endpoint
    ++ (v4_items Tag.aip4 p.allowed_ips
        ++ (v6_items Tag.aip6 p.allowed_ips
            ++ (item_if (not (p.keepalive == 0)) Tag.keepalive ((p.keepalive % 256) ∷ [])
                ++ psk_items p.psk_wrapped)))

-- Exactly one form of endpoint is set: a hostname that is not too long, or an address.
abbrev pub HostOrIp : ℕ → Bytes → Addr → Type 0
HostOrIp size [] ip = IsServer ip
HostOrIp size (c ∷ cs) ip = (length (c ∷ cs) ≤ max_hostname size) × (ip ≡ invalid)

abbrev pub IsPsk : Bytes → Type 0
IsPsk [] = Unit
IsPsk (c ∷ cs) = length (c ∷ cs) ≡ psk_wrapped_len

-- The values that Go's types hold, with one endpoint and a whole wrapped key or none.
pub record IsPeer (size : ℕ) (p : Peer) : Type 0 where
  pub endpoint : HostOrIp size p.endpoint.host p.endpoint.ip
  pub port : p.endpoint.port < 65536
  pub allowed_ips : All IsPrefix p.allowed_ips
  pub keepalive : p.keepalive < 256
  pub psk : IsPsk p.psk_wrapped

encode_ip-written :
    (ip : Addr) (port : ℕ)
    → IsServer ip
    → encode_ip ip port (written magic_peer []) ≡ ok (written magic_peer (ip_items ip port))
unfolding encode_ip
encode_ip-written invalid port h = cc
encode_ip-written (v4 b) port h = ap ok (
    tlv-written magic_peer [] Tag.endpoint4 (b ++ be16 port)
      (omega (arith, length-append b (be16 port))))
encode_ip-written (v6 b zone) port h = ap ok (
    tlv-written magic_peer [] Tag.endpoint6 (b ++ be16 port)
      (omega (arith, length-append b (be16 port))))

encode_endpoint-written :
    (size : ℕ) (host : Bytes) (ip : Addr) (port : ℕ)
    → HostOrIp size host ip
    → encode_endpoint size (record { ip = ip; host = host; port = port }) (written magic_peer [])
      ≡ ok (written magic_peer (host_items host ip port))
unfolding encode_endpoint
encode_endpoint-written size [] ip port h = encode_ip-written ip port h
encode_endpoint-written size (c ∷ cs) ip port h =
    let fits : ltb (max_hostname size) (length (c ∷ cs)) ≡ false = ground arith in
    rw fits
      (ap ok (tlv-written magic_peer [] Tag.endpoint_host (be16 port ++ (c ∷ cs)) (omega arith)))

encode_psk-written :
    (psk : Bytes) (items : List TlvItem)
    → IsPsk psk
    → encode_psk psk (written magic_peer items) ≡ ok (written magic_peer (items ++ psk_items psk))
unfolding encode_psk
encode_psk-written [] items h = rw append-nil
encode_psk-written (c ∷ cs) items h =
    rw h (ap ok (tlv-written magic_peer items Tag.psk_wrapped (c ∷ cs) (omega arith)))

-- The encoder writes the frame of the peer's items, or reports that they do not fit.
pub encode_peer-items :
    (size : ℕ) (p : Peer)
    → IsPeer size p
    → encode_peer size p ≡ finish size (written magic_peer (peer_items p))
unfolding encode_peer peer_items
encode_peer-items size p h =
    let e = endpoint_items p.endpoint in
    let a = (e ++ v4_items Tag.aip4 p.allowed_ips) ++ v6_items Tag.aip6 p.allowed_ips in
    let k = a ++ item_if (not (p.keepalive == 0)) Tag.keepalive ((p.keepalive % 256) ∷ []) in
    rw (new_writer-written magic_peer) (
      rw (encode_endpoint-written size p.endpoint.host p.endpoint.ip p.endpoint.port h.endpoint) (
        rw (encode_prefixes-written magic_peer p.allowed_ips Tag.aip4 Tag.aip6 e h.allowed_ips) (
          rw
            (tlv_if-written magic_peer (not (p.keepalive == 0)) Tag.keepalive
              ((p.keepalive % 256) ∷ []) a (omega arith))
            (rw (encode_psk-written p.psk_wrapped k h.psk) (simp append_assoc)))))

endpoint-Ascending :
    (size : ℕ) (host : Bytes) (ip : Addr) (port : ℕ) (rest : List TlvItem)
    → HostOrIp size host ip
    → Ascending Tag.endpoint_host rest
    → Ascending 0 (host_items host ip port ++ rest)
endpoint-Ascending size [] invalid port rest h asc = cc
endpoint-Ascending size [] (v4 b) port rest h asc =
    let below =
      Ascending-Tagged Tag.endpoint_host Tag.endpoint4 [] rest tt (omega arith) (omega arith) asc in
    (omega arith, omega arith, omega (arith, length-append b (be16 port)), below)
endpoint-Ascending size [] (v6 b zone) port rest h asc =
    let below =
      Ascending-Tagged Tag.endpoint_host Tag.endpoint6 [] rest tt (omega arith) (omega arith) asc in
    (omega arith, omega arith, omega (arith, length-append b (be16 port)), below)
endpoint-Ascending size (c ∷ cs) ip port rest h asc = (omega arith, omega arith, omega arith, asc)

psk-Ascending : (psk : Bytes) → IsPsk psk → Ascending Tag.keepalive (psk_items psk)
psk-Ascending [] h = tt
psk-Ascending (c ∷ cs) h = (omega arith, omega arith, omega arith, tt)

pub peer_items-Ascending : (size : ℕ) (p : Peer) → IsPeer size p → Ascending 0 (peer_items p)
unfolding peer_items
peer_items-Ascending size p h =
    let keep =
      Tagged-item_if (not (p.keepalive == 0)) Tag.keepalive ((p.keepalive % 256) ∷ [])
        (omega arith) in
    endpoint-Ascending size p.endpoint.host p.endpoint.ip p.endpoint.port _ h.endpoint (
      Ascending-Tagged Tag.aip4 Tag.endpoint_host _ _
        (Tagged-v4 Tag.aip4 p.allowed_ips h.allowed_ips) (omega arith) (omega arith)
        (Ascending-Tagged Tag.aip6 Tag.aip4 _ _ (Tagged-v6 Tag.aip6 p.allowed_ips h.allowed_ips)
          (omega arith) (omega arith)
          (Ascending-Tagged Tag.keepalive Tag.aip6 _ _ keep (omega arith) (omega arith)
            (psk-Ascending p.psk_wrapped h.psk))))

-- ===== src/Descr/Peer/Progress.antt =====
-- internal/descr/descr.go: the invariant of the loop of `DecodePeer`. As long as there is at most
-- one endpoint, what has been read so far lays out as the items that were read.
use encedo_wg_hsm.Common.{
  ℕ, ◌+◌, ◌*◌, ◌%◌, ◌≤◌, ◌<◌, ◌≡◌, refl, ap, false, List, [], ◌∷◌, ◌++◌, Bytes, IsByte, All,
  All-right, length, take, drop, append-nil, take-append-drop, length-take_le, length-drop, ok,
  arith,
}
use encedo_wg_hsm.Netip.{invalid, v4, v6, IsPrefix}
use encedo_wg_hsm.Descr.Tag
use encedo_wg_hsm.Descr.Records.{Endpoint, TlvItem, be16, be_uint16, max_hostname}
use encedo_wg_hsm.Descr.Items.{item}
use encedo_wg_hsm.Descr.Layout.{v4_items, v6_items}
use encedo_wg_hsm.Descr.Inversion.{addr_of_value4, addr_of_value6, be16-be_uint16}
use encedo_wg_hsm.Descr.Progress.{item_if-zero}
use encedo_wg_hsm.Descr.Decode.{has_seen}
use encedo_wg_hsm.Descr.DecodePeer.{PeerState, with_endpoint, read_ip, read_host}
use encedo_wg_hsm.Descr.Peer.Layout.{endpoint_items, psk_items, peer_items, HostOrIp, IsPsk}

-- After the items `before`, the last of them with the tag `t`.
pub record PeerProgress (size t : ℕ) (before : List TlvItem) (s : PeerState) : Type 0 where
  pub layout : s.endpoints < 2 → peer_items s.out ≡ before
  pub no_endpoint : s.endpoints ≡ 0 → endpoint_items s.out.endpoint ≡ []
  pub endpoint :
      s.endpoints ≡ 1
      → HostOrIp size s.out.endpoint.host s.out.endpoint.ip × (s.out.endpoint.port < 65536)
  pub allowed_ips : All IsPrefix s.out.allowed_ips
  pub keepalive : s.out.keepalive < 256
  pub psk : IsPsk s.out.psk_wrapped
  pub no_aip4 : t < 0x13 → v4_items Tag.aip4 s.out.allowed_ips ≡ []
  pub no_aip6 : t < 0x14 → v6_items Tag.aip6 s.out.allowed_ips ≡ []
  pub no_keepalive : t < 0x15 → s.out.keepalive ≡ 0
  pub no_psk : t < 0x16 → s.out.psk_wrapped ≡ []
  pub keepalive_seen : has_seen s.seen Tag.keepalive ≡ false → s.out.keepalive ≡ 0
  pub psk_seen : has_seen s.seen Tag.psk_wrapped ≡ false → s.out.psk_wrapped ≡ []

-- The value of an address endpoint is the address and the port.
split_port :
    (n : ℕ) (v : Bytes)
    → length v ≡ n + 2
    → All IsByte v
    → (length (take n v) ≡ n)
      × (take n v ++ be16 (be_uint16 (drop n v)) ≡ v)
      × (be_uint16 (drop n v) < 65536)
split_port n v l bytes =
    let split : take n v ++ drop n v ≡ v = take-append-drop n v in
    let two : length (drop n v) ≡ 2 = omega (arith, length-drop n v) in
    let parts : All IsByte (take n v ++ drop n v) = rw split bytes in
    let (same, small) =
      be16-be_uint16 (drop n v) two (All-right IsByte (take n v) (drop n v) parts) in
    (length-take_le n v (omega arith), rw same split, small)

read_ip4-eq-ok :
    (v : Bytes) (s : PeerState) {s' : PeerState}
    → read_ip 4 (item Tag.endpoint4 v) s ≡ ok s'
    → (length v ≡ 6)
      × (length (take 4 v) ≡ 4
          → s'
            ≡ with_endpoint s
                (record { ip = v4 (take 4 v); host = []; port = be_uint16 (drop 4 v) }))
unfolding read_ip
read_ip4-eq-ok v s h = (ground arith, λ l. ground (arith, addr_of_value4 (take 4 v) l))

read_ip6-eq-ok :
    (v : Bytes) (s : PeerState) {s' : PeerState}
    → read_ip 16 (item Tag.endpoint6 v) s ≡ ok s'
    → (length v ≡ 18)
      × (length (take 16 v) ≡ 16
          → s'
            ≡ with_endpoint s
                (record { ip = v6 (take 16 v) []; host = []; port = be_uint16 (drop 16 v) }))
unfolding read_ip
read_ip6-eq-ok v s h = (ground arith, λ l. ground (arith, addr_of_value6 (take 16 v) l))

-- A state with a new endpoint, whose one item is `it`.
module _ (size t : ℕ) (before : List TlvItem) (s : PeerState)
    (g : PeerProgress size t before s) where
  with_endpoint-PeerProgress :
      (k : ℕ) (it : TlvItem) (e : Endpoint)
      → t ≤ 0x12
      → k ≤ 0x12
      → endpoint_items e ≡ it ∷ []
      → HostOrIp size e.host e.ip
      → e.port < 65536
      → PeerProgress size k (before ++ (it ∷ [])) (with_endpoint s e)
  unfolding peer_items
  with_endpoint-PeerProgress k it e le le' one form port = record {
    layout = λ h. rw (← g.layout (omega arith)) (
        simp (
          one,
          g.no_endpoint (omega arith),
          g.no_aip4 (omega arith),
          g.no_aip6 (omega arith),
          item_if-zero s.out.keepalive Tag.keepalive ((s.out.keepalive % 256) ∷ [])
              (g.no_keepalive (omega arith)),
          ap psk_items (g.no_psk (omega arith)),
          append-nil,
        ));
    no_endpoint = λ h. absurd (omega arith);
    endpoint = λ _. (form, port);
    allowed_ips = g.allowed_ips;
    keepalive = g.keepalive;
    psk = g.psk;
    no_aip4 = λ _. g.no_aip4 (omega arith);
    no_aip6 = λ _. g.no_aip6 (omega arith);
    no_keepalive = λ _. g.no_keepalive (omega arith);
    no_psk = λ _. g.no_psk (omega arith);
    keepalive_seen = g.keepalive_seen;
    psk_seen = g.psk_seen;
  }

  pub read_ip4-PeerProgress :
      (v : Bytes) {s' : PeerState}
      → All IsByte v
      → t ≤ 0x10
      → read_ip 4 (item Tag.endpoint4 v) s ≡ ok s'
      → PeerProgress size 0x10 (before ++ (item Tag.endpoint4 v ∷ [])) s'
  read_ip4-PeerProgress v bytes le h =
      let (l, e) = read_ip4-eq-ok v s h in
      let (long, same, small) = split_port 4 v l bytes in
      rw (e long) (
        with_endpoint-PeerProgress 0x10 (item Tag.endpoint4 v) _ (omega arith) (omega arith)
          (ap (λ (x : Bytes). item Tag.endpoint4 x ∷ []) same) (long, refl) small)

  pub read_ip6-PeerProgress :
      (v : Bytes) {s' : PeerState}
      → All IsByte v
      → t ≤ 0x11
      → read_ip 16 (item Tag.endpoint6 v) s ≡ ok s'
      → PeerProgress size 0x11 (before ++ (item Tag.endpoint6 v ∷ [])) s'
  read_ip6-PeerProgress v bytes le h =
      let (l, e) = read_ip6-eq-ok v s h in
      let (long, same, small) = split_port 16 v l bytes in
      rw (e long) (
        with_endpoint-PeerProgress 0x11 (item Tag.endpoint6 v) _ (omega arith) (omega arith)
          (ap (λ (x : Bytes). item Tag.endpoint6 x ∷ []) same) ((long, refl), refl) small)

  pub read_host-PeerProgress :
      (v : Bytes) {s' : PeerState}
      → All IsByte v
      → t ≤ 0x12
      → read_host size (item Tag.endpoint_host v) s ≡ ok s'
      → PeerProgress size 0x12 (before ++ (item Tag.endpoint_host v ∷ [])) s'
  unfolding read_host
  read_host-PeerProgress [] bytes le h = cc
  read_host-PeerProgress (a ∷ []) bytes le h = cc
  read_host-PeerProgress (a ∷ b ∷ []) bytes le h = cc
  read_host-PeerProgress (a ∷ b ∷ c ∷ cs) {s'} bytes le h =
      let v = a ∷ b ∷ c ∷ cs in
      let (same, small) = be16-be_uint16 (a ∷ b ∷ []) refl (bytes.0, (bytes.1.0, tt)) in
      let fits : length (c ∷ cs) ≤ max_hostname size = ground arith in
      let e : s' ≡ with_endpoint s (record { ip = invalid; host = c ∷ cs; port = a * 256 + b }) =
        ground arith in
      rw e (
        with_endpoint-PeerProgress 0x12 (item Tag.endpoint_host v) _ (omega arith) (omega arith)
          (ap (λ (x : Bytes). item Tag.endpoint_host (x ++ (c ∷ cs)) ∷ []) same) (fits, refl) small)

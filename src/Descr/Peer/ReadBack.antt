-- ===== src/Descr/Peer/ReadBack.antt =====
-- internal/descr/descr.go: the loop of `DecodePeer` on the items that `Peer.Encode` writes.
use encedo_wg_hsm.Common.{
  ℕ, ◌%◌, ◌<◌, ◌≡◌, ◌∙◌, true, false, not, List, [], ◌∷◌, ◌++◌, Bytes, All, length, ◌==◌, take,
  drop, length-append, append-nil, append_assoc, take-length_append, drop-length_append, ok, arith,
  Bool-cases, inl, inr,
}
use encedo_wg_hsm.Netip.{Addr, invalid, v4, v6, is4, is_valid, as4, as16, Prefix, IsPrefix}
use encedo_wg_hsm.Descr.Tag
use encedo_wg_hsm.Descr.Records.{Peer, TlvItem, be16}
use encedo_wg_hsm.Descr.Items.{item}
use encedo_wg_hsm.Descr.Layout.{v4_items, v6_items, item_if, length-as4, length-as16}
use encedo_wg_hsm.Descr.ReadBack.{v4_prefixes, v6_prefixes, prefix_of_value4, prefix_of_value6}
use encedo_wg_hsm.Descr.RoundTrip.{be_uint16-be16, note}
use encedo_wg_hsm.Descr.Inversion.{addr_of_value4, addr_of_value6}
use encedo_wg_hsm.Descr.Decode.{has_seen, once, prefix_of_value}
use encedo_wg_hsm.Descr.DecodePeer.{
  PeerState, with_endpoint, read_ip, read_host, read_aip, read_keepalive, read_psk, peer_step,
  peer_loop,
}
use encedo_wg_hsm.Descr.Peer.Layout.{host_items, psk_items, HostOrIp, IsPsk}

-- The peer as a reader sees it: the allowed ranges with the IPv4 ones first.
abbrev pub grouped_peer : Peer → Peer
grouped_peer p = record p { allowed_ips = v4_prefixes p.allowed_ips ++ v6_prefixes p.allowed_ips }

abbrev pub add_ips : PeerState → List Prefix → PeerState
add_ips s ps = record s { out = record (s.out) { allowed_ips = s.out.allowed_ips ++ ps } }

module _ (size : ℕ) where
  peer_step-aip4 :
      (v : Bytes) (s : PeerState) (p : Prefix)
      → length v ≡ 5
      → prefix_of_value v 4 ≡ ok p
      → peer_step size (item Tag.aip4 v) s ≡ ok (add_ips s (p ∷ []))
  unfolding peer_step read_aip
  peer_step-aip4 v s p l h = rw (l, h)

  peer_step-aip6 :
      (v : Bytes) (s : PeerState) (p : Prefix)
      → length v ≡ 17
      → prefix_of_value v 16 ≡ ok p
      → peer_step size (item Tag.aip6 v) s ≡ ok (add_ips s (p ∷ []))
  unfolding peer_step read_aip
  peer_step-aip6 v s p l h = rw (l, h)

  pub peer_loop-aip4 :
      (ps : List Prefix) (rest : List TlvItem) (s : PeerState)
      → All IsPrefix ps
      → peer_loop size (v4_items Tag.aip4 ps ++ rest) s
        ≡ peer_loop size rest (add_ips s (v4_prefixes ps))
  unfolding peer_loop
  peer_loop-aip4 [] rest s h = rw append-nil
  peer_loop-aip4 (p ∷ ps) rest s h = elim (Bool-cases (is4 p.addr)) [
    | inl e ↦
        let v = as4 p.addr ++ ((p.bits % 256) ∷ []) in
        let step =
          peer_step-aip4 v s p (length-as4 p.addr _ h.0.0 e)
            (prefix_of_value4 p.addr p.bits h.0 e) in
        rw e (rw step (peer_loop-aip4 ps rest (add_ips s (p ∷ [])) h.1 ∙ rw append_assoc))
    | inr e ↦ rw e (peer_loop-aip4 ps rest s h.1)
  ]

  pub peer_loop-aip6 :
      (ps : List Prefix) (rest : List TlvItem) (s : PeerState)
      → All IsPrefix ps
      → peer_loop size (v6_items Tag.aip6 ps ++ rest) s
        ≡ peer_loop size rest (add_ips s (v6_prefixes ps))
  unfolding peer_loop
  peer_loop-aip6 [] rest s h = rw append-nil
  peer_loop-aip6 (p ∷ ps) rest s h = elim (Bool-cases (is4 p.addr)) [
    | inl e ↦ rw e (peer_loop-aip6 ps rest s h.1)
    | inr e ↦
        let v = as16 p.addr ++ ((p.bits % 256) ∷ []) in
        let valid : is_valid p.addr ≡ true = ground arith in
        let step =
          peer_step-aip6 v s p (length-as16 p.addr _ h.0.0 valid e)
            (prefix_of_value6 p.addr p.bits h.0 e) in
        rw e (rw step (peer_loop-aip6 ps rest (add_ips s (p ∷ [])) h.1 ∙ rw append_assoc))
  ]

  pub peer_loop-endpoint :
      (host : Bytes) (ip : Addr) (port : ℕ) (rest : List TlvItem) (s : PeerState)
      → HostOrIp size host ip
      → port < 65536
      → peer_loop size (host_items host ip port ++ rest) s
        ≡ peer_loop size rest (with_endpoint s (record { ip = ip; host = host; port = port }))
  unfolding peer_loop peer_step read_ip read_host
  peer_loop-endpoint [] invalid port rest s h small = cc
  peer_loop-endpoint [] (v4 b) port rest s h small =
      let front : take 4 (b ++ be16 port) ≡ b = rw (h.0) at (take-length_append b (be16 port)) in
      let back : drop 4 (b ++ be16 port) ≡ be16 port =
        rw (h.0) at (drop-length_append b (be16 port)) in
      let long : length (b ++ be16 port) ≡ 6 = omega (arith, h.0, length-append b (be16 port)) in
      ground (arith, front, back, long, addr_of_value4 b h.0, be_uint16-be16 port small)
  peer_loop-endpoint [] (v6 b zone) port rest s h small =
      let front : take 16 (b ++ be16 port) ≡ b = rw (h.0.0) at (take-length_append b (be16 port)) in
      let back : drop 16 (b ++ be16 port) ≡ be16 port =
        rw (h.0.0) at (drop-length_append b (be16 port)) in
      let long : length (b ++ be16 port) ≡ 18 = omega (arith, h.0.0, length-append b (be16 port)) in
      ground (arith, front, back, long, addr_of_value6 b h.0.0, be_uint16-be16 port small)
  peer_loop-endpoint (c ∷ cs) ip port rest s h small = ground (arith, be_uint16-be16 port small)

  pub peer_loop-keepalive :
      (n : ℕ) (rest : List TlvItem) (s : PeerState)
      → n < 256
      → has_seen s.seen Tag.keepalive ≡ false
      → s.out.keepalive ≡ 0
      → peer_loop size (item_if (not (n == 0)) Tag.keepalive ((n % 256) ∷ []) ++ rest) s
        ≡ peer_loop size rest (record s {
          out = record (s.out) { keepalive = n };
          seen = note (not (n == 0)) Tag.keepalive s.seen;
        })
  unfolding peer_loop peer_step read_keepalive once
  peer_loop-keepalive n rest s h fresh z =
      let same : n % 256 ≡ n = omega arith in ground (arith, same)

  pub peer_loop-psk :
      (psk : Bytes) (s : PeerState)
      → IsPsk psk
      → has_seen s.seen Tag.psk_wrapped ≡ false
      → s.out.psk_wrapped ≡ []
      → (seen : List ℕ) × (peer_loop size (psk_items psk) s
          ≡ ok (record s { out = record (s.out) { psk_wrapped = psk }; seen = seen }))
  unfolding peer_loop peer_step read_psk once
  peer_loop-psk [] s h fresh z = (s.seen, ground arith)
  peer_loop-psk (c ∷ cs) s h fresh z = (Tag.psk_wrapped ∷ s.seen, ground arith)

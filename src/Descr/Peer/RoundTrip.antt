-- ===== src/Descr/Peer/RoundTrip.antt =====
-- internal/descr/descr.go: `DecodePeer` after `Peer.Encode`.
use encedo_wg_hsm.Descr.Peer.ReadBack.{
  grouped_peer, add_ips, peer_loop-endpoint, peer_loop-aip4, peer_loop-aip6, peer_loop-keepalive,
  peer_loop-psk,
}
use encedo_wg_hsm.Common.{
  ℕ, ◌+◌, ◌-◌, ◌≤◌, ◌≡◌, refl, sym, ◌∙◌, false, not, List, [], Bytes, length, ◌==◌, ok, arith,
}
use encedo_wg_hsm.Descr.Tag
use encedo_wg_hsm.Descr.Records.{Peer, magic_peer}
use encedo_wg_hsm.Descr.Framing.{framed, parse-framed}
use encedo_wg_hsm.Descr.ReadBack.{v4_prefixes, v6_prefixes}
use encedo_wg_hsm.Descr.RoundTrip.{finish-written, note, has_seen-note}
use encedo_wg_hsm.Descr.Encode.{encode_peer}
use encedo_wg_hsm.Descr.Decode.{has_seen}
use encedo_wg_hsm.Descr.DecodePeer.{PeerState, with_endpoint, empty_peer, peer_loop, decode_peer}
use encedo_wg_hsm.Descr.Peer.Layout.{peer_items, IsPeer, peer_items-Ascending, encode_peer-items}

peer_loop-items :
    (size : ℕ) (p : Peer)
    → IsPeer size p
    → (seen : List ℕ) × (peer_loop size
          (peer_items p)
          (record { out = empty_peer; seen = []; endpoints = 0 })
        ≡ ok (record { out = grouped_peer p; seen = seen; endpoints = 1 }))
unfolding peer_items has_seen
peer_loop-items size p h =
    let s0 : PeerState = record { out = empty_peer; seen = []; endpoints = 0 } in
    let e = p.endpoint in
    let s1 = with_endpoint s0 (record { ip = e.ip; host = e.host; port = e.port }) in
    let s2 = add_ips s1 (v4_prefixes p.allowed_ips) in
    let s3 = add_ips s2 (v6_prefixes p.allowed_ips) in
    let seen4 = note (not (p.keepalive == 0)) Tag.keepalive [] in
    let s4 : PeerState = record s3 {
      out = record (s3.out) { keepalive = p.keepalive };
      seen = seen4;
    } in
    let f4 : has_seen seen4 Tag.psk_wrapped ≡ false =
      has_seen-note (not (p.keepalive == 0)) Tag.keepalive Tag.psk_wrapped [] refl refl in
    let (seen, psk) = peer_loop-psk size p.psk_wrapped s4 h.psk f4 refl in
    (
      seen,
      peer_loop-endpoint size e.host e.ip e.port _ s0 h.endpoint h.port
          ∙ peer_loop-aip4 size p.allowed_ips _ s1 h.allowed_ips
          ∙ peer_loop-aip6 size p.allowed_ips _ s2 h.allowed_ips
          ∙ peer_loop-keepalive size p.keepalive _ s3 h.keepalive refl refl
          ∙ psk,
    )

-- The record of a well-formed peer decodes to the same peer, its allowed ranges with the IPv4 ones
-- first and otherwise in their order.
pub decode_peer-encode_peer :
    (size : ℕ) (p : Peer) {written_record : Bytes}
    → IsPeer size p
    → encode_peer size p ≡ ok written_record
    → decode_peer size written_record ≡ ok (grouped_peer p)
unfolding decode_peer
decode_peer-encode_peer size p h e =
    let items = peer_items p in
    let frame = framed magic_peer items in
    let (fits, same) =
      finish-written size magic_peer items (sym (encode_peer-items size p h) ∙ e) in
    let room : length frame + (size - length frame) ≤ size = omega arith in
    let (seen, loop) = peer_loop-items size p h in
    rw same (
      rw
        (parse-framed size (size - length frame) magic_peer items refl
          (peer_items-Ascending size p h) room)
        (rw loop))

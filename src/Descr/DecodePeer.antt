-- ===== src/Descr/DecodePeer.antt =====
-- internal/descr/descr.go: `DecodePeer`.
use encedo_wg_hsm.Common.{
  ℕ, ◌+◌, not, ◌||◌, List, [], ◌∷◌, ◌++◌, Bytes, length, take, drop, get_or, ltb, ◌==◌,
  if◌then◌else◌, Result, ok, err, ◌>>=◌, ◌>>◌, fail_if,
}
use encedo_wg_hsm.Netip.{invalid}
use encedo_wg_hsm.Descr.Tag
use encedo_wg_hsm.Descr.Records.{
  Endpoint, Peer, TlvItem, DescrError, unknown_tag, endpoint_count, bad_hostname, be_uint16,
  magic_peer, psk_wrapped_len, max_hostname,
}
use encedo_wg_hsm.Descr.Decode.{parse, expect, once, non_zero, prefix_of_value, addr_of_value}

-- The variables of the loop.
pub record PeerState : Type 0 where
  pub out : Peer
  pub seen : List ℕ
  pub endpoints : ℕ

abbrev pub empty_peer : Peer
empty_peer = record {
  endpoint = record { ip = invalid; host = []; port = 0 };
  allowed_ips = [];
  keepalive = 0;
  psk_wrapped = [];
}

-- The cases of the switch. `endpoints++` stands in front of each endpoint's checks.
abbrev pub with_endpoint : PeerState → Endpoint → PeerState
with_endpoint s e = record s { out = record (s.out) { endpoint = e }; endpoints = s.endpoints + 1 }

unfoldable pub read_ip : ℕ → TlvItem → PeerState → Result DescrError PeerState
read_ip addr_len it s = do
  expect it.tag it.value (addr_len + 2)
  let ip = addr_of_value (take addr_len it.value)
  ok (with_endpoint s (record { ip = ip; host = []; port = be_uint16 (drop addr_len it.value) }))

unfoldable pub read_host : ℕ → TlvItem → PeerState → Result DescrError PeerState
read_host size it s = do
  fail_if (ltb (length it.value) 3 || ltb (2 + max_hostname size) (length it.value))
      (bad_hostname (length it.value))
  ok (
      with_endpoint s
        (record { ip = invalid; host = drop 2 it.value; port = be_uint16 (take 2 it.value) }))

unfoldable pub read_aip : ℕ → TlvItem → PeerState → Result DescrError PeerState
read_aip addr_len it s = do
  expect it.tag it.value (addr_len + 1)
  p ← prefix_of_value it.value addr_len
  ok (record s { out = record (s.out) { allowed_ips = s.out.allowed_ips ++ (p ∷ []) } })

unfoldable pub read_keepalive : TlvItem → PeerState → Result DescrError PeerState
read_keepalive it s = do
  seen ← once s.seen it.tag
  expect it.tag it.value 1
  non_zero it.tag (get_or it.value 0 0)
  ok (record s { out = record (s.out) { keepalive = get_or it.value 0 0 }; seen = seen })

unfoldable pub read_psk : TlvItem → PeerState → Result DescrError PeerState
read_psk it s = do
  seen ← once s.seen it.tag
  expect it.tag it.value psk_wrapped_len
  ok (record s { out = record (s.out) { psk_wrapped = it.value }; seen = seen })

unfoldable pub peer_step : ℕ → TlvItem → PeerState → Result DescrError PeerState
peer_step size it s =
    if it.tag == Tag.endpoint4
    then read_ip 4 it s
    else if it.tag == Tag.endpoint6
    then read_ip 16 it s
    else if it.tag == Tag.endpoint_host
    then read_host size it s
    else if it.tag == Tag.aip4
    then read_aip 4 it s
    else if it.tag == Tag.aip6
    then read_aip 16 it s
    else if it.tag == Tag.keepalive
    then read_keepalive it s
    else if it.tag == Tag.psk_wrapped
    then read_psk it s
    else err (unknown_tag it.tag)

unfoldable pub peer_loop : ℕ → List TlvItem → PeerState → Result DescrError PeerState
peer_loop size [] s = ok s
peer_loop size (it ∷ rest) s = do s' ← peer_step size it s; peer_loop size rest s'

-- `DecodePeer`
unfoldable pub decode_peer : ℕ → Bytes → Result DescrError Peer
decode_peer size b = do
  items ← parse size b magic_peer
  s ← peer_loop size items (record { out = empty_peer; seen = []; endpoints = 0 })
  fail_if (not (s.endpoints == 1)) (endpoint_count s.endpoints)
  ok s.out

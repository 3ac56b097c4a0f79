-- ===== src/Tests/Descr.antt =====
-- The record codec at concrete records.
use encedo_wg_hsm.Common.{
  ℕ, ◌≤◌, ◌≡◌, ◌≢◌, refl, List, [], ◌∷◌, ◌++◌, Bytes, IsByte, All, length, replicate, ok, err,
  bytes_eq, ltb, if◌then◌else◌, ◌-◌, arith,
}
use encedo_wg_hsm.Netip.{addr_from_slice}
use encedo_wg_hsm.Descr.Normalize.{normalize-decode_interface}
use encedo_wg_hsm.Descr.Encode.{normalize}
use encedo_wg_hsm.Descr.Decode.{empty_interface}
use encedo_wg_hsm.Descr.Records.{TlvItem, out_of_fuel, overflow, magic_interface}
use encedo_wg_hsm.Descr.Items.{Ascending}
use encedo_wg_hsm.Descr.Encode.{
  put_tlv, tlv, padded, finish, append_prefix4, append_prefix6, check_prefixes, append_v4s,
  append_v6s, encode_prefixes, append_dns, dns_pass, append_refs, encode_interface, encode_ip,
  encode_endpoint, encode_psk, encode_peer,
}
use encedo_wg_hsm.Descr.Decode.{
  check_padding, take_value, parse_loop, parse, has_seen, once, prefix_of_value, addr_of_value,
  read_addr, read_mtu, read_dns, read_ref, read_port, read_mac, interface_switch, interface_step,
  interface_loop, decode_interface,
}
use encedo_wg_hsm.Descr.DecodePeer.{
  read_ip, read_host, read_aip, read_keepalive, read_psk, peer_step, peer_loop, decode_peer,
}
use encedo_wg_hsm.Descr.Layout.{IsInterface, interface_items}
use encedo_wg_hsm.Descr.Framing.{framed, parse-eq-ok, parse-ne-out_of_fuel}
use encedo_wg_hsm.Descr.RoundTrip.{
  grouped, decode_interface-encode_interface, encode_interface-overflow,
}
use encedo_wg_hsm.Descr.Canonical.{encode_interface-decode_interface}
use encedo_wg_hsm.Descr.ZeroMac.{zero_mac, clear_mac}
use encedo_wg_hsm.Descr.ZeroMac.Correct.{zero_mac-encode_interface}
use encedo_wg_hsm.Descr.Peer.Layout.{IsPeer}
use encedo_wg_hsm.Descr.Peer.ReadBack.{grouped_peer}
use encedo_wg_hsm.Descr.Peer.RoundTrip.{decode_peer-encode_peer}
use encedo_wg_hsm.Descr.Peer.Canonical.{encode_peer-decode_peer}
use encedo_wg_hsm.Tests.Records.{
  unsigned_config, signed_config, signed_record, host_peer, host_peer_record,
}

pub unsigned-IsInterface : IsInterface unsigned_config
unsigned-IsInterface = record {
  addrs = (((refl, refl), refl), ((refl, refl), tt));
  mtu = omega arith;
  dns = ((refl, refl), tt);
  peer_refs = (refl, (refl, tt));
  listen_port = omega arith;
  mac = refl;
  no_mac = λ e. cc;
}

pub encode_unsigned : encode_interface 128 unsigned_config ≡ ok (signed_record (replicate 32 0))
unfolding encode_interface encode_prefixes check_prefixes append_v4s append_v6s append_prefix4
    append_prefix6 tlv put_tlv dns_pass append_dns append_refs finish
encode_unsigned = refl

pub decode_signed :
    decode_interface 128 (signed_record (replicate 32 7))
    ≡ ok (grouped (signed_config (replicate 32 7)))
unfolding decode_interface parse parse_loop check_padding interface_loop interface_step
    interface_switch read_addr read_mtu read_dns read_ref read_port read_mac once has_seen
    prefix_of_value addr_of_value addr_from_slice bytes_eq
decode_signed = refl

pub signed_bytes : All IsByte (signed_record (replicate 32 7))
signed_bytes = omega arith

decode_interface-encode_interface_example :
    decode_interface 128 (signed_record (replicate 32 0)) ≡ ok (grouped unsigned_config)
decode_interface-encode_interface_example =
    decode_interface-encode_interface 128 unsigned_config unsigned-IsInterface encode_unsigned

encode_interface-decode_interface_example :
    encode_interface 128 (grouped (signed_config (replicate 32 7)))
    ≡ ok (padded 128 (signed_record (replicate 32 7)))
encode_interface-decode_interface_example =
    encode_interface-decode_interface 128 (signed_record (replicate 32 7)) signed_bytes
      decode_signed

zero_mac-encode_interface_example :
    zero_mac 128 (signed_record (replicate 32 7))
    ≡ encode_interface 128 (clear_mac (grouped (signed_config (replicate 32 7))))
zero_mac-encode_interface_example =
    zero_mac-encode_interface 128 (signed_record (replicate 32 7)) signed_bytes refl decode_signed

-- 64 bytes are too few for this configuration.
encode_interface-overflow_example : encode_interface 64 unsigned_config ≡ (
    if ltb 64 (length (framed magic_interface (interface_items unsigned_config)))
    then err (
        overflow
          (length (framed magic_interface (interface_items unsigned_config)))
          (length (framed magic_interface (interface_items unsigned_config)) - 64))
    else ok (padded 64 (framed magic_interface (interface_items unsigned_config))))
encode_interface-overflow_example =
    encode_interface-overflow 64 unsigned_config unsigned-IsInterface

overflow_of_config : encode_interface 64 unsigned_config ≡ err (overflow 89 25)
unfolding encode_interface encode_prefixes check_prefixes append_v4s append_v6s append_prefix4
    append_prefix6 tlv put_tlv dns_pass append_dns append_refs finish
overflow_of_config = refl

abbrev two_items : List TlvItem
two_items = record { tag = 3; value = 5 ∷ 140 ∷ [] } ∷ record { tag = 7; value = 1 ∷ 2 ∷ [] } ∷ []

abbrev two_item_record : Bytes
two_item_record = magic_interface ++ (2 ∷ 3 ∷ 2 ∷ 5 ∷ 140 ∷ 7 ∷ 2 ∷ 1 ∷ 2 ∷ 0 ∷ 0 ∷ [])

two_item_bytes : All IsByte two_item_record
two_item_bytes = omega arith

parse-two_items : parse 128 two_item_record magic_interface ≡ ok two_items
unfolding parse parse_loop take_value check_padding bytes_eq
parse-two_items = refl

parse-eq-ok_example :
    (k : ℕ) × (two_item_record ≡ framed magic_interface two_items ++ replicate k 0)
    × Ascending 0 two_items
    × (length two_item_record ≤ 128)
parse-eq-ok_example = parse-eq-ok 128 two_item_record magic_interface two_item_bytes parse-two_items

parse-ne-out_of_fuel_example : parse 128 two_item_record magic_interface ≢ err out_of_fuel
parse-ne-out_of_fuel_example = parse-ne-out_of_fuel 128 two_item_record magic_interface

host_peer-IsPeer : IsPeer 128 host_peer
host_peer-IsPeer = record {
  endpoint = (omega arith, refl);
  port = omega arith;
  allowed_ips = ((refl, refl), tt);
  keepalive = omega arith;
  psk = refl;
}

encode_host_peer : encode_peer 128 host_peer ≡ ok host_peer_record
unfolding encode_peer encode_endpoint encode_ip encode_psk encode_prefixes check_prefixes append_v4s
    append_v6s append_prefix4 append_prefix6 tlv put_tlv finish
encode_host_peer = refl

decode_peer-encode_peer_example : decode_peer 128 host_peer_record ≡ ok (grouped_peer host_peer)
decode_peer-encode_peer_example =
    decode_peer-encode_peer 128 host_peer host_peer-IsPeer encode_host_peer

decode_host_peer : decode_peer 128 host_peer_record ≡ ok host_peer
unfolding decode_peer peer_loop peer_step read_ip read_host read_aip read_keepalive read_psk parse
    parse_loop take_value check_padding once has_seen prefix_of_value addr_of_value addr_from_slice
    bytes_eq
decode_host_peer = refl

host_peer_bytes : All IsByte host_peer_record
host_peer_bytes = omega arith

encode_peer-decode_peer_example : encode_peer 128 host_peer ≡ ok (padded 128 host_peer_record)
encode_peer-decode_peer_example =
    encode_peer-decode_peer 128 host_peer_record host_peer_bytes decode_host_peer

-- A record that the device returned without its padding.
abbrev trimmed : Bytes
trimmed = magic_interface ++ (2 ∷ 3 ∷ 2 ∷ 5 ∷ 140 ∷ [])

decode_trimmed : decode_interface 128 trimmed ≡ ok (record empty_interface { mtu = 1420 })
unfolding decode_interface parse parse_loop take_value check_padding interface_loop interface_step
    interface_switch read_mtu once has_seen bytes_eq
decode_trimmed = refl

trimmed_bytes : All IsByte trimmed
trimmed_bytes = omega arith

normalize-decode_interface_example :
    normalize 128 trimmed ≡ encode_interface 128 (record empty_interface { mtu = 1420 })
normalize-decode_interface_example =
    normalize-decode_interface 128 trimmed trimmed_bytes decode_trimmed

-- ===== src/Tests/Mac.antt =====
-- The configuration MAC at concrete trees.
use mathlib.Core.List.{Perm, Nodup}
use encedo_wg_hsm.Common.{
  codes, ◌+◌, ◌*◌, ◌≤◌, ◌≡◌, ◌≢◌, ◌↔◌, refl, List, [], ◌∷◌, ◌++◌, Bytes, length, replicate, ok,
  bytes_eq, bytes_eq_refl, ◌%◌, arith,
}
use encedo_wg_hsm.Netip.{addr_from_slice}
use encedo_wg_hsm.Descr.Encode.{
  put_tlv, tlv, finish, append_prefix4, append_prefix6, check_prefixes, append_v4s, append_v6s,
  encode_prefixes, append_dns, dns_pass, append_refs, encode_interface,
}
use encedo_wg_hsm.Descr.Decode.{
  check_padding, take_value, parse_loop, parse, has_seen, once, prefix_of_value, addr_of_value,
  read_addr, read_mtu, read_dns, read_ref, read_port, read_mac, interface_switch, interface_step,
  interface_loop, decode_interface,
}
use encedo_wg_hsm.Descr.Layout.{IsInterface}
use encedo_wg_hsm.Descr.RoundTrip.{grouped}
use encedo_wg_hsm.Descr.ZeroMac.{zero_range, zero_walk, zero_mac, clear_mac}
use encedo_wg_hsm.Mac.Message.{
  PeerRecord, device_msg_limit, fixed_len, per_peer, make_peer_ref, has_ref, delete_ref,
  collect_refs, resolve_refs, match_refs, bytes_lt, insert_record, sort_records, append_records,
  canonical, sign, verify,
}
use encedo_wg_hsm.Mac.Refs.{refs_of, match_refs_iff}
use encedo_wg_hsm.Mac.Records.{IsTree}
use encedo_wg_hsm.Mac.Injective.{canonical-injective}
use encedo_wg_hsm.Mac.SignVerify.{verify-sign}
use encedo_wg_hsm.Mac.AbsentTag.{canonical-absent_tag}
use encedo_wg_hsm.Mac.Length.{length-canonical}
use encedo_wg_hsm.Tests.Records.{
  unsigned_config, signed_config, untagged_config, signed_record, untagged_record, interface_key,
  peers, digest, toy_hmac, message,
}
use encedo_wg_hsm.Tests.Descr.{unsigned-IsInterface, encode_unsigned, decode_signed, signed_bytes}

-- Another MAC in the record, and the peers in the other order.
abbrev resigned : Bytes
resigned = signed_record (replicate 32 8)

abbrev swapped_peers : List PeerRecord
swapped_peers =
    record { pub_key = replicate 32 3; descr = replicate 128 12 }
    ∷ record { pub_key = replicate 32 5; descr = replicate 128 11 }
    ∷ []

-- The same without a MAC tag in the record.
abbrev untagged_message : Bytes
untagged_message =
    codes "ENC-WG-MAC-v2"
    ++ (interface_key
        ++ (untagged_record
            ++ (replicate 32 3 ++ (replicate 128 12 ++ (replicate 32 5 ++ replicate 128 11)))))

-- Runs of `Canonical`: the MAC and the order of the peers do not matter, an absent tag does.
canonical_runs :
    (canonical 128 digest interface_key (signed_record (replicate 32 7)) peers ≡ ok message)
    × (canonical 128 digest interface_key resigned swapped_peers ≡ ok message)
    × (canonical 128 digest interface_key (signed_record (replicate 32 0)) peers ≡ ok message)
    × (canonical 128 digest interface_key (signed_record (replicate 32 237)) peers ≡ ok message)
    × (canonical 128 digest interface_key untagged_record peers ≡ ok untagged_message)
unfolding canonical match_refs collect_refs resolve_refs has_ref delete_ref make_peer_ref zero_mac
    zero_walk zero_range sort_records insert_record bytes_lt append_records decode_interface parse
    parse_loop check_padding interface_loop interface_step interface_switch read_addr read_mtu
    read_dns read_ref read_port read_mac once has_seen prefix_of_value addr_of_value addr_from_slice
    bytes_eq take_value
canonical_runs = (refl, refl, refl, refl, refl)

match_peers : match_refs digest (unsigned_config.peer_refs) peers ≡ ok tt
unfolding match_refs collect_refs resolve_refs has_ref delete_ref make_peer_ref bytes_eq
match_peers = refl

signed-IsTree : IsTree 128 interface_key (signed_record (replicate 32 7)) peers
signed-IsTree = record {
  key = refl;
  full = refl;
  bytes = signed_bytes;
  records = ((refl, refl), ((refl, refl), tt));
}

match_refs_iff_example :
    (match_refs digest (unsigned_config.peer_refs) peers ≡ ok tt)
    ↔ (Perm (unsigned_config.peer_refs) (refs_of digest peers) × Nodup (unsigned_config.peer_refs))
match_refs_iff_example = match_refs_iff digest (unsigned_config.peer_refs) peers

length-canonical_example :
    (length message ≡ fixed_len 128 + length peers * per_peer 128)
    × (length message ≤ device_msg_limit)
length-canonical_example =
    length-canonical 128 digest interface_key (signed_record (replicate 32 7)) peers signed-IsTree
      (omega arith) canonical_runs.0

decode_resigned : decode_interface 128 resigned ≡ ok (grouped (signed_config (replicate 32 8)))
unfolding decode_interface parse parse_loop check_padding interface_loop interface_step
    interface_switch read_addr read_mtu read_dns read_ref read_port read_mac once has_seen
    prefix_of_value addr_of_value addr_from_slice bytes_eq take_value
decode_resigned = refl

resigned-IsTree : IsTree 128 interface_key resigned swapped_peers
resigned-IsTree = record {
  key = refl;
  full = refl;
  bytes = omega arith;
  records = ((refl, refl), ((refl, refl), tt));
}

canonical-injective_example :
    (interface_key ≡ interface_key)
    × (clear_mac (grouped (signed_config (replicate 32 7)))
        ≡ clear_mac (grouped (signed_config (replicate 32 8))))
    × Perm peers swapped_peers
canonical-injective_example =
    canonical-injective 128 digest interface_key interface_key (signed_record (replicate 32 7))
      resigned peers swapped_peers (grouped (signed_config (replicate 32 7)))
      (grouped (signed_config (replicate 32 8))) signed-IsTree resigned-IsTree decode_signed
      decode_resigned canonical_runs.0 canonical_runs.1

-- Signing and verifying.
sign_unsigned :
    sign 128 digest toy_hmac interface_key (signed_record (replicate 32 0)) peers
    ≡ ok (replicate 32 237)
unfolding sign
sign_unsigned = rw canonical_runs.2 refl

encode_signed :
    encode_interface 128 (signed_config (replicate 32 237)) ≡ ok (signed_record (replicate 32 237))
unfolding encode_interface encode_prefixes check_prefixes append_v4s append_v6s append_prefix4
    append_prefix6 tlv put_tlv dns_pass append_dns append_refs finish
encode_signed = refl

toy_hmac_honest : (msg mac : Bytes) → toy_hmac.hash msg ≡ ok mac → toy_hmac.verify msg mac ≡ ok tt
toy_hmac_honest msg mac h =
    let same : replicate 32 (length msg % 256) ≡ mac = cc in
    rw (← same) (rw (bytes_eq_refl (replicate 32 (length msg % 256))) refl)

verify-sign_example :
    verify 128 digest toy_hmac interface_key (signed_record (replicate 32 237)) peers ≡ ok tt
verify-sign_example =
    verify-sign 128 digest toy_hmac interface_key unsigned_config peers toy_hmac_honest
      unsigned-IsInterface refl encode_unsigned sign_unsigned encode_signed

-- The record without a MAC tag.
untagged-IsInterface : IsInterface untagged_config
untagged-IsInterface = record {
  addrs = (((refl, refl), refl), ((refl, refl), tt));
  mtu = omega arith;
  dns = ((refl, refl), tt);
  peer_refs = (refl, (refl, tt));
  listen_port = omega arith;
  mac = refl;
  no_mac = λ e. refl;
}

encode_untagged : encode_interface 128 untagged_config ≡ ok untagged_record
unfolding encode_interface encode_prefixes check_prefixes append_v4s append_v6s append_prefix4
    append_prefix6 tlv put_tlv dns_pass append_dns append_refs finish
encode_untagged = refl

canonical-absent_tag_example : untagged_message ≢ message
canonical-absent_tag_example =
    canonical-absent_tag 128 digest interface_key (replicate 32 237) untagged_config peers
      untagged-IsInterface refl refl encode_untagged encode_signed canonical_runs.4 canonical_runs.3

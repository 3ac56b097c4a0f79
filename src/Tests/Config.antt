-- ===== src/Tests/Config.antt =====
-- A device that holds one identity and its two peers, and the load of it.
use mathlib.Core.List.{Perm}
use encedo_wg_hsm.Common.{
  codes, ℕ, ◌%◌, ◌≡◌, refl, false, inl, inr, List, [], ◌∷◌, ◌++◌, Bytes, take, drop, replicate,
  get_or, bytes_eq, bytes_eq→eq, Bool-cases, if◌then◌else◌, Result, ok, err, trim_space, trim_left,
  trim_right, hex_encode, hex_decode, arith,
}
use encedo_wg_hsm.Netip.{addr_from_slice}
use encedo_wg_hsm.Descr.Records.{magic_interface, magic_peer}
use encedo_wg_hsm.Descr.Encode.{normalize}
use encedo_wg_hsm.Descr.Decode.{
  check_padding, take_value, parse_loop, parse, has_seen, once, prefix_of_value, addr_of_value,
  read_addr, read_mtu, read_dns, read_ref, read_port, read_mac, interface_switch, interface_step,
  interface_loop, decode_interface,
}
use encedo_wg_hsm.Descr.DecodePeer.{
  read_ip, read_host, read_aip, read_keepalive, read_psk, peer_step, peer_loop, decode_peer,
}
use encedo_wg_hsm.Descr.Kid.{kid_of, peer_ref_from_kid, IsDigest, peer_ref_from_kid-kid_of}
use encedo_wg_hsm.Descr.RoundTrip.{grouped}
use encedo_wg_hsm.Descr.ZeroMac.{zero_range, zero_walk, zero_mac, clear_mac}
use encedo_wg_hsm.Mac.Message.{
  PeerRecord, make_peer_ref, has_ref, delete_ref, collect_refs, resolve_refs, match_refs, bytes_lt,
  insert_record, sort_records, append_records, canonical, verify, Hmac,
}
use encedo_wg_hsm.Mac.Refs.{refs_of}
use encedo_wg_hsm.Mac.Records.{IsTree}
use encedo_wg_hsm.Hem.{Hem, HemError, KeyEntry}
use encedo_wg_hsm.Config.Records.{ConfigPeer, Tree, add_size, explain, TokenFunc}
use encedo_wg_hsm.Config.Keys.{from_device, resolve}
use encedo_wg_hsm.Config.Search.{search_loop, search}
use encedo_wg_hsm.Config.Load.{
  lookup_ref, add_candidate, candidates, load_peer, load_peers, records_of, load_from,
}
use encedo_wg_hsm.Config.Authentic.{IsAuthentic, load_from-IsAuthentic}
use encedo_wg_hsm.Config.Provisioned.{load_from-provisioned}
use encedo_wg_hsm.Config.Paging.{Answers, search_complete}
use encedo_wg_hsm.Tests.Records.{
  signed_config, signed_record, interface_key, host_peer, host_peer_record,
}
use encedo_wg_hsm.Tests.Descr.{signed_bytes}

-- A digest that stands in for SHA-1: the first byte, twenty times.
abbrev pub toy_sha1 : Bytes → Bytes
toy_sha1 key = replicate 20 (get_or key 0 0 % 256)

pub toy_sha1-IsDigest : (key : Bytes) → IsDigest (toy_sha1 key)
toy_sha1-IsDigest key = record { bytes = omega arith; full = refl }

peer_ref_from_kid-kid_of_example :
    peer_ref_from_kid (kid_of toy_sha1 (replicate 32 5))
    ≡ ok (make_peer_ref toy_sha1 (replicate 32 5))
peer_ref_from_kid-kid_of_example =
    peer_ref_from_kid-kid_of toy_sha1 (replicate 32 5) (toy_sha1-IsDigest (replicate 32 5))

abbrev stored : Bytes
stored = signed_record (replicate 32 7)

abbrev entry : KeyEntry
entry = record {
  kid = codes "c8c8c8c8c8c8c8c8c8c8c8c8c8c8c8c8";
  label = codes "laptop";
  created = 1;
  descr = stored;
}

abbrev peer_entry : Bytes → KeyEntry
peer_entry kid = record { kid = kid; label = codes "office"; created = 2; descr = host_peer_record }

abbrev three : Bytes
three = codes "03030303030303030303030303030303"

abbrev pub five : Bytes
five = codes "05050505050505050505050505050505"

abbrev peer_entries : List KeyEntry
peer_entries = peer_entry three ∷ peer_entry five ∷ []

-- The message of the tree, with the peers sorted by key.
abbrev tree_message : Bytes
tree_message =
    codes "ENC-WG-MAC-v2"
    ++ (interface_key
        ++ (signed_record (replicate 32 0)
            ++ (replicate 32 3 ++ (host_peer_record ++ (replicate 32 5 ++ host_peer_record)))))

-- The device accepts a MAC over that message alone.
abbrev one_message : Hmac
one_message = record {
  hash = λ msg. ok (replicate 32 7);
  verify = λ msg mac. if bytes_eq msg tree_message then ok tt else err 1;
}

abbrev device_key : Bytes → Result HemError Bytes
device_key kid =
    if bytes_eq kid three
    then ok (replicate 32 3)
    else if bytes_eq kid five
    then ok (replicate 32 5)
    else ok interface_key

abbrev pub device : Hem
device = record {
  search_keys = λ token magic offset n.
      if bytes_eq magic magic_interface
      then ok (1, take n (drop offset (entry ∷ [])))
      else ok (2, take n (drop offset peer_entries));
  get_pub_key = λ token kid. device_key kid;
  hmac = λ token kid. one_message;
  cipher_unwrap = λ token kid context wrapped. ok (replicate 32 1);
}

abbrev any_token : TokenFunc
any_token scope = ok (codes "token")

abbrev pub loaded_peer : Bytes → ℕ → ConfigPeer
loaded_peer kid n = record {
  kid = kid;
  label = codes "office";
  pub_key = replicate 32 n;
  raw = host_peer_record;
  peer = host_peer;
}

-- The peers stand in the order of the interface record.
abbrev pub tree : Tree
tree = record {
  if_kid = entry.kid;
  if_label = entry.label;
  if_pub_key = interface_key;
  if_raw = stored;
  iface = grouped (signed_config (replicate 32 7));
  peers = loaded_peer five 5 ∷ loaded_peer three 3 ∷ [];
}

peer-Answers : Answers device [] magic_peer peer_entries
unfolding bytes_eq
peer-Answers offset = refl

search_complete_example : search 4 device any_token magic_peer ≡ ok peer_entries
search_complete_example =
    search_complete device any_token magic_peer peer_entries (inl peer-Answers)

load_tree : load_from 4 128 toy_sha1 device any_token entry (from_device device any_token) ≡ ok tree
unfolding load_from normalize decode_interface parse parse_loop check_padding interface_loop
    interface_step interface_switch read_addr read_mtu read_dns read_ref read_port read_mac once
    has_seen prefix_of_value addr_of_value addr_from_slice bytes_eq take_value resolve from_device
    kid_of hex_encode search search_loop candidates add_candidate lookup_ref peer_ref_from_kid
    trim_space trim_left trim_right hex_decode load_peers load_peer add_size explain decode_peer
    peer_loop peer_step read_ip read_host read_aip read_keepalive read_psk verify canonical
    match_refs collect_refs resolve_refs has_ref delete_ref make_peer_ref zero_mac zero_walk
    zero_range sort_records insert_record bytes_lt append_records
load_tree = refl

load_from-IsAuthentic_example : IsAuthentic 128 toy_sha1 device any_token entry tree
load_from-IsAuthentic_example =
    load_from-IsAuthentic 4 128 toy_sha1 device any_token entry (from_device device any_token)
      toy_sha1-IsDigest load_tree

-- What was provisioned: the same tree before it was signed.
abbrev provisioned_peers : List PeerRecord
provisioned_peers =
    record { pub_key = replicate 32 5; descr = host_peer_record }
    ∷ record { pub_key = replicate 32 3; descr = host_peer_record }
    ∷ []

provisioned_message :
    canonical 128 toy_sha1 interface_key (signed_record (replicate 32 0)) provisioned_peers
    ≡ ok tree_message
unfolding canonical decode_interface parse parse_loop check_padding interface_loop interface_step
    interface_switch read_addr read_mtu read_dns read_ref read_port read_mac once has_seen
    prefix_of_value addr_of_value addr_from_slice bytes_eq take_value match_refs collect_refs
    resolve_refs has_ref delete_ref make_peer_ref zero_mac zero_walk zero_range sort_records
    insert_record bytes_lt append_records
provisioned_message = refl

decode_provisioned :
    decode_interface 128 (signed_record (replicate 32 0))
    ≡ ok (grouped (signed_config (replicate 32 0)))
unfolding decode_interface parse parse_loop check_padding interface_loop interface_step
    interface_switch read_addr read_mtu read_dns read_ref read_port read_mac once has_seen
    prefix_of_value addr_of_value addr_from_slice bytes_eq take_value
decode_provisioned = refl

provisioned-IsTree : IsTree 128 interface_key (signed_record (replicate 32 0)) provisioned_peers
provisioned-IsTree = record {
  key = refl;
  full = refl;
  bytes = omega arith;
  records = ((refl, refl), ((refl, refl), tt));
}

accepts_one :
    (token m mac : Bytes) → (device.hmac token entry.kid).verify m mac ≡ ok tt → m ≡ tree_message
accepts_one token m mac h = elim (Bool-cases (bytes_eq m tree_message)) [
  | inl same ↦ bytes_eq→eq m tree_message same
  | inr other ↦ absurd (err_not_ok other h)
]
  where
    err_not_ok :
        bytes_eq m tree_message ≡ false
        → ◌≡◌ {A = Result ℕ (Unit {0})} (if bytes_eq m tree_message then ok tt else err 1) (ok tt)
        → ⊥
    err_not_ok other h = let e : ◌≡◌ {A = Result ℕ (Unit {0})} (err 1) (ok tt) = rw other at h in cc

load_from-provisioned_example :
    (interface_key ≡ interface_key)
    × (clear_mac (grouped (signed_config (replicate 32 7)))
        ≡ clear_mac (grouped (signed_config (replicate 32 0))))
    × Perm (records_of (tree.peers)) provisioned_peers
    × (refs_of toy_sha1 (records_of (tree.peers))
        ≡ (grouped (signed_config (replicate 32 0))).peer_refs)
load_from-provisioned_example =
    load_from-provisioned 4 128 toy_sha1 device any_token entry (from_device device any_token) tree
      interface_key (signed_record (replicate 32 0)) tree_message
      (grouped (signed_config (replicate 32 0))) provisioned_peers toy_sha1-IsDigest accepts_one
      provisioned-IsTree decode_provisioned provisioned_message signed_bytes load_tree

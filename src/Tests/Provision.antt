-- ===== src/Tests/Provision.antt =====
-- Devices that take a configuration with one peer, and one that refuses after the key is created.
use encedo_wg_hsm.Common.{
  codes, ◌≡◌, refl, true, false, some, [], ◌∷◌, replicate, bytes_eq, if◌then◌else◌, ok, err,
  hex_encode, contains, has_prefix,
}
use encedo_wg_hsm.Netip.{v4, addr_from_slice}
use encedo_wg_hsm.Hem.{hem_error}
use encedo_wg_hsm.Descr.Encode.{
  encode_interface, encode_prefixes, check_prefixes, append_v4s, append_v6s, append_prefix4, tlv,
  dns_pass, append_refs, finish, encode_peer, encode_endpoint, encode_ip, encode_psk,
}
use encedo_wg_hsm.Descr.Kid.{kid_of}
use encedo_wg_hsm.Mac.Message.{
  make_peer_ref, sign, verify, canonical, match_refs, collect_refs, resolve_refs, has_ref,
  delete_ref, sort_records, insert_record, append_records,
}
use encedo_wg_hsm.Descr.Decode.{
  check_padding, take_value, parse_loop, parse, has_seen, once, prefix_of_value, addr_of_value,
  read_addr, read_mtu, read_dns, read_ref, read_port, read_mac, interface_switch, interface_step,
  interface_loop, decode_interface,
}
use encedo_wg_hsm.Descr.ZeroMac.{zero_range, zero_walk, zero_mac}
use encedo_wg_hsm.Provision.Spec.{
  Params, validate_params, spec_record, has_key, distinct_keys, probe_records,
}
use encedo_wg_hsm.Provision.Calls.{World, Device, request, delete, get_key, create}
use encedo_wg_hsm.Provision.Place.{place_peer, placed, import_peer}
use encedo_wg_hsm.Provision.Run.{
  Provisioned, no_cleanup, run, clean_up, delete_key, obtain_identity, identity_key, run_body,
  place_all, place_one, key_array, wrap_psk, record_in_use, write_record, sign_record,
}
use encedo_wg_hsm.Provision.Rollback.{IsRollback}
use encedo_wg_hsm.Provision.Rolled.{run-IsRollback}
use encedo_wg_hsm.Provision.Verified.{IsVerified, run-IsVerified}
use encedo_wg_hsm.Tests.Records.{host_peer, interface_key, toy_hmac}
use encedo_wg_hsm.Tests.Config.{toy_sha1}

abbrev params : Params
params = record {
  addrs = record { addr = v4 (10 ∷ 0 ∷ 0 ∷ 7 ∷ []); bits = 24 } ∷ [];
  dns = [];
  mtu = 1420;
  listen_port = 0;
  label = codes "laptop";
  peers =
      record {
        pub_key = replicate 32 5;
        label = codes "office";
        endpoint = host_peer.endpoint;
        allowed_ips = host_peer.allowed_ips;
        keepalive = 25;
      }
      ∷ [];
  kid = [];
  psk = some (replicate 32 1);
  psk_generated = true;
  adopt = false;
}

-- The identity gets the identifier `aa`; no other key is known.
abbrev taking : Device
taking = record {
  on_create = λ log label. ok (codes "aa");
  on_get = λ log kid.
      if bytes_eq kid (codes "aa") then ok ([], interface_key) else err (hem_error 404 []);
  on_wrap = λ log kid key context. ok (replicate 40 9);
  on_search = λ log token magic offset. ok (0, []);
  on_import = λ log label key descr. ok (codes "05050505050505050505050505050505");
  on_write = λ log kid label descr. ok tt;
  on_delete = λ log kid. ok tt;
  hmac = λ kid. toy_hmac;
  token = λ scope. ok (codes "token");
}

-- The identity's public key is not given out.
abbrev refusing : Device
refusing = record taking { on_get = λ log kid. err (hem_error 500 []) }

abbrev result : Provisioned
result = record {
  if_kid = codes "aa";
  pub_key = interface_key;
  peer_count = 1;
  psk = some (replicate 32 1);
}

abbrev last_world : World
last_world = (run 4 128 toy_sha1 taking params).1.1

run-taking : run 4 128 toy_sha1 taking params ≡ (ok result, (no_cleanup, last_world))
unfolding run validate_params distinct_keys has_key probe_records spec_record encode_peer
    encode_endpoint encode_ip encode_prefixes check_prefixes encode_psk finish tlv append_v6s
    append_v4s append_prefix4 run_body obtain_identity request identity_key bytes_eq contains
    has_prefix place_all place_one key_array wrap_psk kid_of hex_encode place_peer placed
    import_peer record_in_use clean_up delete_key encode_interface dns_pass append_refs write_record
    sign_record sign verify canonical match_refs collect_refs resolve_refs has_ref delete_ref
    make_peer_ref decode_interface parse parse_loop check_padding interface_loop interface_step
    interface_switch read_addr read_mtu read_dns read_ref read_port read_mac once has_seen
    prefix_of_value addr_of_value addr_from_slice take_value zero_mac zero_walk zero_range
    sort_records insert_record append_records
run-taking = refl

run-IsVerified_example :
    (validate_params 128 params ≡ ok tt)
    × (no_cleanup ≡ no_cleanup)
    × IsVerified 128 toy_sha1 taking params result last_world
run-IsVerified_example =
    run-IsVerified 4 128 toy_sha1 taking params result no_cleanup last_world run-taking

-- The key that was created is deleted again.
run-refusing :
    (run 4 128 toy_sha1 refusing params).1.1.calls
    ≡ delete (codes "aa") ∷ get_key (codes "aa") ∷ create (codes "laptop") ∷ []
unfolding run validate_params distinct_keys has_key probe_records spec_record encode_peer
    encode_endpoint encode_ip encode_prefixes check_prefixes encode_psk finish tlv append_v6s
    append_v4s append_prefix4 run_body obtain_identity request identity_key bytes_eq contains
    has_prefix clean_up delete_key
run-refusing = refl

run-IsRollback_example : IsRollback refusing (run 4 128 toy_sha1 refusing params).1.1.calls
run-IsRollback_example = run-IsRollback 4 128 toy_sha1 refusing params

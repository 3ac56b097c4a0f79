-- ===== src/Provision/Spec.antt =====
-- internal/provision/peerspec.go and provision.go: `PeerSpec` with `Record`, `Params` with
-- `Validate`, and the failures.
use encedo_wg_hsm.Common.{
  codes, ℕ, Bool, false, ◌||◌, ltb, Option, none, some, List, [], ◌∷◌, Bytes, bytes_eq, length,
  is_empty, replicate, Result, ok, ◌>>=◌, ◌>>◌, fail_if, wrap,
}
use encedo_wg_hsm.Netip.{Addr, Prefix}
use encedo_wg_hsm.Descr.Records.{Endpoint, Peer, DescrError, psk_wrapped_len}
use encedo_wg_hsm.Descr.Encode.{encode_peer}
use encedo_wg_hsm.Mac.Message.{MacError, max_peers}
use encedo_wg_hsm.Hem.{HemError}

abbrev pub key_type : Bytes
key_type = codes "CURVE25519"

-- `PeerSpec`
pub record PeerSpec : Type 0 where
  pub pub_key : Bytes
  pub label : Bytes
  pub endpoint : Endpoint
  pub allowed_ips : List Prefix
  pub keepalive : ℕ

-- `Params`. A negative number in Go is out of range, as one above 65535 is here. A pre-shared key
-- that is `nil` is `none`.
pub record Params : Type 0 where
  pub addrs : List Prefix
  pub dns : List Addr
  pub mtu : ℕ
  pub listen_port : ℕ
  pub label : Bytes
  pub peers : List PeerSpec
  pub kid : Bytes
  pub psk : Option Bytes
  pub psk_generated : Bool
  pub adopt : Bool

pub data ProvisionError : Type 0 where
  no_address no_peer mtu_range port_range : ProvisionError
  too_many : ℕ → ProvisionError
  duplicate_key : Bytes → ProvisionError
  bad_record : DescrError → ProvisionError
  token_refused : Bytes → ProvisionError
  device_error : HemError → ProvisionError
  wrong_type : Bytes → ProvisionError
  bad_key_len : ℕ → ProvisionError
  bad_wrap_len : ℕ → ProvisionError
  other_key : ProvisionError
  foreign_key : ProvisionError
  differs : ProvisionError
  foreign_psk : ProvisionError
  wrong_kid : Bytes → ProvisionError
  not_signed : MacError → ProvisionError
  not_verified : MacError → ProvisionError
  lost_record : ProvisionError
  no_fuel : ProvisionError

abbrev pub bytes_or : Option Bytes → Bytes
bytes_or none = []
bytes_or (some b) = b

abbrev pub peer_of : PeerSpec → Option Bytes → Peer
peer_of p wrapped = record {
  endpoint = p.endpoint;
  allowed_ips = p.allowed_ips;
  keepalive = p.keepalive;
  psk_wrapped = bytes_or wrapped;
}

-- `PeerSpec.Record`
unfoldable pub spec_record : ℕ → PeerSpec → Option Bytes → Result DescrError Peer
spec_record size p wrapped = do enc ← encode_peer size (peer_of p wrapped); ok (peer_of p wrapped)

unfoldable pub has_key : Bytes → List Bytes → Bool
has_key key [] = false
has_key key (k ∷ ks) = bytes_eq k key || has_key key ks

-- The loop that looks for a public key given twice.
unfoldable pub distinct_keys : List PeerSpec → List Bytes → Result ProvisionError (Unit {0})
distinct_keys [] seen = ok tt
distinct_keys (p ∷ ps) seen = do
  fail_if (has_key p.pub_key seen) (duplicate_key p.pub_key)
  distinct_keys ps (p.pub_key ∷ seen)

-- The stand-in for a wrapped key that `Validate` probes with.
abbrev pub probe : Option Bytes → Option Bytes
probe none = none
probe (some psk) = some (replicate psk_wrapped_len 0)

-- The loop that probes every peer's record.
unfoldable pub probe_records : ℕ → Option Bytes → List PeerSpec → Result ProvisionError (Unit {0})
probe_records size psk [] = ok tt
probe_records size psk (p ∷ ps) = do
  rec ← wrap bad_record (spec_record size p (probe psk))
  probe_records size psk ps

-- `Params.Validate`
unfoldable pub validate_params : ℕ → Params → Result ProvisionError (Unit {0})
validate_params size p = do
  fail_if (is_empty p.addrs) no_address
  fail_if (is_empty p.peers) no_peer
  fail_if (ltb (max_peers size) (length p.peers)) (too_many (length p.peers))
  distinct_keys p.peers []
  fail_if (ltb 65535 p.mtu) mtu_range
  fail_if (ltb 65535 p.listen_port) port_range
  probe_records size p.psk p.peers

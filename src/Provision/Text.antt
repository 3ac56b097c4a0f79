-- ===== src/Provision/Text.antt =====
-- internal/provision/peerspec.go: `ParsePeerSpec` and `parseEndpoint`.
use encedo_wg_hsm.Common.{
  codes, ℕ, Bool, true, false, not, ◌||◌, ◌==◌, ltb, Option, none, some, List, [], ◌∷◌, ◌++◌, Bytes,
  bytes_eq, take, length, is_empty, trim_space, to_lower, cut, split, if◌then◌else◌, Result, ok,
  err, ◌>>=◌, ◌>>◌, wrap, fail_if,
}
use encedo_wg_hsm.Netip.{Addr, invalid, Prefix, unmap, masked}
use encedo_wg_hsm.Descr.Records.{Endpoint, max_hostname}
use encedo_wg_hsm.Provision.Spec.{PeerSpec}

-- Go's parsers: netip.ParseAddrPort, net.SplitHostPort, strconv.ParseUint in base 10 with a number
-- of bits, netip.ParsePrefix, and base64.StdEncoding. The number is that of the error.
pub record SpecParsers : Type 0 where
  pub parse_addr_port : Bytes → Option (Addr × ℕ)
  pub split_host_port : Bytes → Option (Bytes × Bytes)
  pub parse_uint : Bytes → ℕ → Option ℕ
  pub parse_prefix : Bytes → Result ℕ Prefix
  pub decode64 : Bytes → Result ℕ Bytes
  pub encode64 : Bytes → Bytes

abbrev pub pub_key_size : ℕ
pub_key_size = 32

pub data SpecError : Type 0 where
  empty_spec : SpecError
  not_key_value : Bytes → SpecError
  not_base64 : ℕ → SpecError
  key_size : ℕ → SpecError
  no_host_port : Bytes → SpecError
  bad_port : Bytes → SpecError
  missing_host : Bytes → SpecError
  long_host : ℕ → SpecError
  bad_allowed_ip : Bytes → ℕ → SpecError
  bad_keepalive : Bytes → SpecError
  zero_keepalive : SpecError
  unknown_field : Bytes → SpecError
  missing_key missing_endpoint missing_allowed_ips : SpecError

-- `p` and `seenEndpoint` of the loop; a public key that is `nil` is `none`.
pub record Draft : Type 0 where
  pub key : Option Bytes
  pub label : Bytes
  pub endpoint : Endpoint
  pub seen_endpoint : Bool
  pub allowed_ips : List Prefix
  pub keepalive : ℕ

abbrev pub empty_draft : Draft
empty_draft = record {
  key = none;
  label = [];
  endpoint = record { ip = invalid; host = []; port = 0 };
  seen_endpoint = false;
  allowed_ips = [];
  keepalive = 0;
}

-- The cases of the switch.
pub data Field : Type 0 where
  key_field label_field endpoint_field allowed_field keepalive_field other_field : Field

unfoldable pub field_of : Bytes → Field
field_of key =
    if bytes_eq key (codes "pubkey")
    then key_field
    else if bytes_eq key (codes "label")
    then label_field
    else if bytes_eq key (codes "endpoint")
    then endpoint_field
    else if bytes_eq key (codes "allowed-ips") || bytes_eq key (codes "allowed-ip")
    then allowed_field
    else if bytes_eq key (codes "keepalive")
    then keepalive_field
    else other_field

abbrev pub given {ℓ} : {A : Type ℓ} → SpecError → Option A → Result SpecError A
given e none = err e
given e (some a) = ok a

module _ (size : ℕ) (lib : SpecParsers) where
  abbrev pub literal_or_name : Bytes → Option (Addr × ℕ) → Result SpecError Endpoint
  literal_or_name s (some (ip, port)) = ok (record { ip = unmap ip; host = []; port = port })
  literal_or_name s none = do
    (host, port_text) ← given (no_host_port s) (lib.split_host_port s)
    port ← given (bad_port s) (lib.parse_uint port_text 16)
    fail_if (port == 0) (bad_port s)
    fail_if (is_empty host) (missing_host s)
    fail_if (ltb (max_hostname size) (length host)) (long_host (length host))
    ok (record { ip = invalid; host = host; port = port })

  -- `parseEndpoint`
  unfoldable pub parse_endpoint : Bytes → Result SpecError Endpoint
  parse_endpoint s = literal_or_name s (lib.parse_addr_port s)

  unfoldable pub set_field : Field → Bytes → Bytes → Draft → Result SpecError Draft
  set_field key_field key value d = do
    raw ← wrap not_base64 (lib.decode64 value)
    fail_if (not (length raw == pub_key_size)) (key_size (length raw))
    ok (record d { key = some raw })
  set_field label_field key value d = ok (record d { label = value })
  set_field endpoint_field key value d = do
    e ← parse_endpoint value
    ok (record d { endpoint = e; seen_endpoint = true })
  set_field allowed_field key value d = do
    p ← wrap (bad_allowed_ip value) (lib.parse_prefix value)
    ok (record d { allowed_ips = d.allowed_ips ++ (masked p ∷ []) })
  set_field keepalive_field key value d = do
    n ← given (bad_keepalive value) (lib.parse_uint value 8)
    fail_if (n == 0) zero_keepalive
    ok (record d { keepalive = n })
  set_field other_field key value d = err (unknown_field key)

  abbrev pub set_pair : Bytes → Option (Bytes × Bytes) → Draft → Result SpecError Draft
  set_pair field none d = err (not_key_value field)
  set_pair field (some (key, value)) d =
      set_field (field_of (trim_space (to_lower key))) (trim_space (to_lower key))
        (trim_space value) d

  -- One round of the loop, on the trimmed field.
  unfoldable pub read_field : Bytes → Draft → Result SpecError Draft
  read_field field d = if is_empty field then ok d else set_pair field (cut b'=' field) d

  unfoldable pub read_fields : List Bytes → Draft → Result SpecError Draft
  read_fields [] d = ok d
  read_fields (f ∷ fs) d = read_field (trim_space f) d >>= read_fields fs

  abbrev pub label_or : Bytes → Bytes → Bytes
  label_or label key =
      if is_empty label then codes "wg peer " ++ take 8 (lib.encode64 key) else label

  -- The checks behind the loop.
  unfoldable pub finish_spec : Draft → Result SpecError PeerSpec
  finish_spec d = do
    key ← given missing_key d.key
    fail_if (not d.seen_endpoint) missing_endpoint
    fail_if (is_empty d.allowed_ips) missing_allowed_ips
    ok (record {
      pub_key = key;
      label = label_or d.label key;
      endpoint = d.endpoint;
      allowed_ips = d.allowed_ips;
      keepalive = d.keepalive;
    })

  -- `ParsePeerSpec`
  unfoldable pub parse_peer_spec : Bytes → Result SpecError PeerSpec
  parse_peer_spec s = do
    fail_if (is_empty (trim_space s)) empty_spec
    d ← read_fields (split b',' s) empty_draft
    finish_spec d

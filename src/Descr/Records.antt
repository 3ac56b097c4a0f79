-- ===== src/Descr/Records.antt =====
-- internal/descr/descr.go: the constants, the record types and the errors.
-- `Size` is a parameter of the functions: 128 bytes, or 64 in a descr64 build.
use encedo_wg_hsm.Common.{codes, ℕ, ◌+◌, ◌-◌, ◌/◌, ◌%◌, ◌*◌, min, Bool, List, [], ◌∷◌, Bytes}
use encedo_wg_hsm.Netip.{Addr, Prefix}

abbrev pub size_default : ℕ
size_default = 128

abbrev pub size_descr64 : ℕ
size_descr64 = 64

abbrev pub magic_interface : Bytes
magic_interface = codes "WG:if:"

abbrev pub magic_peer : Bytes
magic_peer = codes "WG:pr:"

abbrev pub magic_len : ℕ
magic_len = 6

abbrev pub version : ℕ
version = 2

abbrev pub header_len : ℕ
header_len = magic_len + 1

abbrev pub mac_len : ℕ
mac_len = 32

abbrev pub psk_wrapped_len : ℕ
psk_wrapped_len = 40

abbrev pub peer_ref_len : ℕ
peer_ref_len = 4

abbrev pub kid_len : ℕ
kid_len = 16

abbrev pub max_hostname : ℕ → ℕ
max_hostname size = min 60 (size - header_len - 4)

-- `[PeerRefLen]byte`
abbrev pub PeerRef : Type 0
PeerRef = Bytes

pub record Interface : Type 0 where
  pub addrs : List Prefix
  pub mtu : ℕ
  pub dns : List Addr
  pub peer_refs : List PeerRef
  pub listen_port : ℕ
  pub mac : Bytes
  pub has_mac : Bool

pub record Endpoint : Type 0 where
  pub ip : Addr
  pub host : Bytes
  pub port : ℕ

pub record Peer : Type 0 where
  pub endpoint : Endpoint
  pub allowed_ips : List Prefix
  pub keepalive : ℕ
  pub psk_wrapped : Bytes

pub record TlvItem : Type 0 where
  pub tag : ℕ
  pub value : Bytes

-- What each error message reports. `out_of_fuel` is no Go error: it marks a run of the model that
-- stops for want of fuel.
pub data DescrError : Type 0 where
  short : DescrError
  too_long : ℕ → DescrError
  bad_magic : DescrError
  bad_version : ℕ → DescrError
  non_zero_padding : ℕ → DescrError
  not_ascending : ℕ → ℕ → DescrError
  no_length_byte : ℕ → ℕ → DescrError
  runs_past_end : ℕ → ℕ → ℕ → ℕ → DescrError
  bad_length : ℕ → ℕ → ℕ → DescrError
  repeated : ℕ → DescrError
  explicit_zero : ℕ → DescrError
  malformed_address : DescrError
  bad_prefix : ℕ → DescrError
  after_mac : ℕ → DescrError
  mac_not_last : DescrError
  unknown_tag : ℕ → DescrError
  endpoint_count : ℕ → DescrError
  bad_hostname : ℕ → DescrError
  value_too_long : ℕ → ℕ → DescrError
  overflow : ℕ → ℕ → DescrError
  invalid_prefix : DescrError
  invalid_dns : DescrError
  no_endpoint : DescrError
  bad_psk : ℕ → DescrError
  bad_kid : DescrError
  out_of_fuel : DescrError

-- `binary.BigEndian` on 16 bits. Go panics on fewer than two bytes; the callers check the length.
abbrev pub be16 : ℕ → Bytes
be16 v = (v / 256 % 256) ∷ (v % 256) ∷ []

abbrev pub be_uint16 : Bytes → ℕ
be_uint16 (h ∷ l ∷ rest) = h * 256 + l
be_uint16 (h ∷ []) = 0
be_uint16 [] = 0

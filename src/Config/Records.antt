-- ===== src/Config/Records.antt =====
-- internal/config/config.go: `Peer`, `Tree`, `sizes` and the errors; and `ExplainSize` of
-- internal/descr/descr.go.
use encedo_wg_hsm.Common.{
  codes, ℕ, Bool, true, false, ◌||◌, Option, none, some, List, ◌++◌, Bytes, ◌==◌, if◌then◌else◌,
  Result,
}
use encedo_wg_hsm.Descr.Records.{Interface, Peer, PeerRef, DescrError}
use encedo_wg_hsm.Mac.Message.{MacError}
use encedo_wg_hsm.Hem.{HemError}

abbrev pub psk_context_prefix : Bytes
psk_context_prefix = codes "ENC-WG-PSK-v2|"

-- `PSKContext`
abbrev pub psk_context : Bytes → Bytes
psk_context peer_kid = psk_context_prefix ++ peer_kid

abbrev pub psk_len : ℕ
psk_len = 32

abbrev pub search_page : ℕ
search_page = 50

abbrev pub default_mtu : ℕ
default_mtu = 1420

-- `config.Peer`; the embedded record is `peer`.
pub record ConfigPeer : Type 0 where
  pub kid : Bytes
  pub label : Bytes
  pub pub_key : Bytes
  pub raw : Bytes
  pub peer : Peer

pub record Tree : Type 0 where
  pub if_kid : Bytes
  pub if_label : Bytes
  pub if_pub_key : Bytes
  pub if_raw : Bytes
  pub iface : Interface
  pub peers : List ConfigPeer

-- `sizes`
pub record Sizes : Type 0 where
  pub first : ℕ
  pub mixed : Bool

abbrev pub new_sizes : ℕ → Sizes
new_sizes n = record { first = n; mixed = false }

unfoldable pub add_size : ℕ → Sizes → Sizes
add_size n s = if n == s.first then s else record s { mixed = true }

-- `ExplainSize`: the length that is named in the sentence, if there is one to say.
unfoldable pub explain_size : ℕ → ℕ → Option ℕ
explain_size size observed = if observed == 0 || observed == size then none else some observed

-- `sizes.explain`
unfoldable pub explain : ℕ → Sizes → Option ℕ
unfolding explain_size
explain size s = if s.mixed then none else explain_size size s.first

-- The failures of the package. An `Option ℕ` is the record length that the message explains.
pub data ConfigError : Type 0 where
  search_failed : HemError → ConfigError
  token_failed : ℕ → ConfigError
  get_failed : HemError → ConfigError
  not_supplied : Bytes → ConfigError
  bad_key_len : ℕ → ConfigError
  wrong_kid : Bytes → Bytes → ConfigError
  bad_size : DescrError → Option ℕ → ConfigError
  bad_interface : DescrError → ConfigError
  bad_peer : Bytes → DescrError → ConfigError
  names_no_peers : ConfigError
  refs_collide : Bytes → Bytes → PeerRef → ConfigError
  missing_peer : PeerRef → ConfigError
  not_verified : MacError → Option ℕ → ConfigError
  nothing_stored : ConfigError
  no_choice : List Bytes → ConfigError
  choice_failed : ℕ → ConfigError
  unknown_identity : Bytes → ConfigError
  unwrap_failed : HemError → ConfigError
  bad_psk_len : ℕ → ConfigError
  no_fuel : ConfigError

-- `TokenFunc`: a token for a scope.
abbrev pub TokenFunc : Type 0
TokenFunc = Bytes → Result ConfigError Bytes

-- ===== src/Wgconf/Settings.antt =====
-- internal/wgconf/wgconf.go: `Conf` and `set`.
use encedo_wg_hsm.Common.{
  codes, ℕ, Bool, true, false, not, ◌||◌, ◌==◌, List, [], ◌∷◌, ◌++◌, Bytes, bytes_eq, length,
  to_lower, if◌then◌else◌, Result, ok, err, ◌>>=◌, ◌>>◌, wrap, fail_if,
}
use encedo_wg_hsm.Netip.{Addr, Prefix}
use encedo_wg_hsm.Wgconf.Lines.{split_list}

-- Go's `int`.
pub data ℤ : Type 0 where
  pos : ℕ → ℤ
  negsuc : ℕ → ℤ

-- Go's parsers: netip.ParsePrefix, netip.ParseAddr, strconv.Atoi and base64.StdEncoding's
-- DecodeString. The number is that of the error.
pub record Parsers : Type 0 where
  pub parse_prefix : Bytes → Result ℕ Prefix
  pub parse_addr : Bytes → Result ℕ Addr
  pub atoi : Bytes → Result ℕ ℤ
  pub decode64 : Bytes → Result ℕ Bytes

-- `Conf`
pub record Conf : Type 0 where
  pub addresses : List Prefix
  pub dns : List Addr
  pub mtu : ℤ
  pub listen_port : ℤ
  pub peer_pub_key : Bytes
  pub peer_endpoint : Bytes
  pub peer_allowed : List Prefix
  pub peer_keepalive : ℤ
  pub had_private_key : Bool

abbrev pub empty_conf : Conf
empty_conf = record {
  addresses = [];
  dns = [];
  mtu = pos 0;
  listen_port = pos 0;
  peer_pub_key = [];
  peer_endpoint = [];
  peer_allowed = [];
  peer_keepalive = pos 0;
  had_private_key = false;
}

abbrev pub conf_key_len : ℕ
conf_key_len = 32

pub data SetError : Type 0 where
  bad_prefix : Bytes → ℕ → SetError
  bad_addr : Bytes → SetError
  bad_number : Bytes → ℕ → SetError
  directive_refused : Bytes → SetError
  bad_pub_key : SetError
  psk_refused : SetError

-- The cases of the two switches of `set`.
pub data InterfaceKey : Type 0 where
  private_key address dns_server mtu_size port directive other_setting : InterfaceKey

pub data PeerKey : Type 0 where
  public_key endpoint allowed_ips keepalive preshared_key other_peer_setting : PeerKey

abbrev pub one_of : Bytes → List Bytes → Bool
one_of key [] = false
one_of key (k ∷ ks) = bytes_eq key k || one_of key ks

abbrev pub directives : List Bytes
directives =
    codes "table"
    ∷ codes "preup"
    ∷ codes "postup"
    ∷ codes "predown"
    ∷ codes "postdown"
    ∷ codes "saveconfig"
    ∷ codes "fwmark"
    ∷ []

unfoldable pub interface_key : Bytes → InterfaceKey
interface_key key =
    if bytes_eq key (codes "privatekey")
    then private_key
    else if bytes_eq key (codes "address")
    then address
    else if bytes_eq key (codes "dns")
    then dns_server
    else if bytes_eq key (codes "mtu")
    then mtu_size
    else if bytes_eq key (codes "listenport")
    then port
    else if one_of key directives
    then directive
    else other_setting

unfoldable pub peer_key : Bytes → PeerKey
peer_key key =
    if bytes_eq key (codes "publickey")
    then public_key
    else if bytes_eq key (codes "endpoint")
    then endpoint
    else if bytes_eq key (codes "allowedips")
    then allowed_ips
    else if bytes_eq key (codes "persistentkeepalive")
    then keepalive
    else if bytes_eq key (codes "presharedkey")
    then preshared_key
    else other_peer_setting

module _ (lib : Parsers) where
  unfoldable pub read_prefixes : List Bytes → Result SetError (List Prefix)
  read_prefixes [] = ok []
  read_prefixes (part ∷ parts) = do
    p ← wrap (bad_prefix part) (lib.parse_prefix part)
    ps ← read_prefixes parts
    ok (p ∷ ps)

  unfoldable pub read_addrs : List Bytes → Result SetError (List Addr)
  read_addrs [] = ok []
  read_addrs (part ∷ parts) = do
    a ← wrap (λ e. bad_addr part) (lib.parse_addr part)
    found ← read_addrs parts
    ok (a ∷ found)

  abbrev pub number : Bytes → Result SetError ℤ
  number value = wrap (bad_number value) (lib.atoi value)

  unfoldable pub set_interface : InterfaceKey → Bytes → Bytes → Conf → Result SetError Conf
  set_interface private_key key value c = ok (record c { had_private_key = true })
  set_interface address key value c = do
    ps ← read_prefixes (split_list value)
    ok (record c { addresses = c.addresses ++ ps })
  set_interface dns_server key value c = do
    found ← read_addrs (split_list value)
    ok (record c { dns = c.dns ++ found })
  set_interface mtu_size key value c = do n ← number value; ok (record c { mtu = n })
  set_interface port key value c = do n ← number value; ok (record c { listen_port = n })
  set_interface directive key value c = err (directive_refused key)
  set_interface other_setting key value c = ok c

  unfoldable pub set_peer : PeerKey → Bytes → Conf → Result SetError Conf
  set_peer public_key value c = do
    raw ← wrap (λ e. bad_pub_key) (lib.decode64 value)
    fail_if (not (length raw == conf_key_len)) bad_pub_key
    ok (record c { peer_pub_key = value })
  set_peer endpoint value c = ok (record c { peer_endpoint = value })
  set_peer allowed_ips value c = do
    ps ← read_prefixes (split_list value)
    ok (record c { peer_allowed = c.peer_allowed ++ ps })
  set_peer keepalive value c = do n ← number value; ok (record c { peer_keepalive = n })
  set_peer preshared_key value c = err psk_refused
  set_peer other_peer_setting value c = ok c

  -- `set`
  unfoldable pub set : Bytes → Bytes → Bytes → Conf → Result SetError Conf
  set name key value c =
      if bytes_eq (to_lower name) (codes "interface")
      then set_interface (interface_key (to_lower key)) key value c
      else if bytes_eq (to_lower name) (codes "peer")
      then set_peer (peer_key (to_lower key)) value c
      else ok c

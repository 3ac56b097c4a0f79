-- ===== src/Descr/Encode.antt =====
-- internal/descr/descr.go: `writer`, `encodePrefixes`, `Interface.Encode`, `Peer.Encode` and
-- `Normalize`. A [Size]byte result is a list of `size` bytes.
use encedo_wg_hsm.Common.{
  ℕ, ◌-◌, ◌%◌, Bool, true, false, not, Option, none, some, List, [], ◌∷◌, ◌++◌, Bytes, length,
  replicate, is_empty, ltb, ◌==◌, if◌then◌else◌, Result, ok, err, ◌>>=◌, ◌>>◌, fail_if,
}
use encedo_wg_hsm.Netip.{Addr, invalid, v4, v6, is_valid, is4, as4, as16, Prefix, prefix_is_valid}
use encedo_wg_hsm.Descr.Tag
use encedo_wg_hsm.Descr.Records.{
  Interface, Endpoint, Peer, DescrError, value_too_long, overflow, invalid_prefix, invalid_dns,
  no_endpoint, bad_psk, bad_hostname, too_long, short, be16, magic_interface, magic_peer, version,
  max_hostname, psk_wrapped_len, header_len, PeerRef,
}

pub record Writer : Type 0 where
  pub buf : Bytes
  pub failure : Option DescrError

-- `tlv` where no earlier call has failed.
unfoldable pub put_tlv : ℕ → Bytes → Writer → Writer
put_tlv tag value w =
    if ltb 255 (length value)
    then record w { failure = some (value_too_long tag (length value)) }
    else record w { buf = w.buf ++ (tag ∷ (length value % 256) ∷ value) }

unfoldable pub tlv : ℕ → Bytes → Writer → Writer
unfolding put_tlv
tlv tag value w = elim w.failure [ some e ↦ w | none ↦ put_tlv tag value w ]

-- `copy` into a zeroed array of `size` bytes.
abbrev pub padded : ℕ → Bytes → Bytes
padded size b = b ++ replicate (size - length b) 0

unfoldable pub finish : ℕ → Writer → Result DescrError Bytes
finish size w = elim w.failure [
  | some e ↦ err e
  | none ↦
      if ltb size (length w.buf)
      then err (overflow (length w.buf) (length w.buf - size))
      else ok (padded size w.buf)
]

unfoldable pub append_prefix4 : ℕ → Prefix → Writer → Writer
append_prefix4 tag p = tlv tag (as4 p.addr ++ ((p.bits % 256) ∷ []))

unfoldable pub append_prefix6 : ℕ → Prefix → Writer → Writer
append_prefix6 tag p = tlv tag (as16 p.addr ++ ((p.bits % 256) ∷ []))

-- The three loops of `encodePrefixes`: the validity check, the IPv4 pass and the IPv6 pass.
unfoldable pub check_prefixes : List Prefix → Result DescrError (Unit {0})
check_prefixes [] = ok tt
check_prefixes (p ∷ ps) = do fail_if (not (prefix_is_valid p)) invalid_prefix; check_prefixes ps

unfoldable pub append_v4s : ℕ → List Prefix → Writer → Writer
append_v4s tag [] w = w
append_v4s tag (p ∷ ps) w = append_v4s tag ps (if is4 p.addr then append_prefix4 tag p w else w)

unfoldable pub append_v6s : ℕ → List Prefix → Writer → Writer
append_v6s tag [] w = w
append_v6s tag (p ∷ ps) w =
    append_v6s tag ps (if not (is4 p.addr) then append_prefix6 tag p w else w)

unfoldable pub encode_prefixes : List Prefix → ℕ → ℕ → Writer → Result DescrError Writer
encode_prefixes prefixes tag4 tag6 w = do
  check_prefixes prefixes
  ok (append_v6s tag6 prefixes (append_v4s tag4 prefixes w))

-- One server of the pass over the DNS servers; the pass `true` writes IPv4.
unfoldable pub append_dns : Bool → Addr → Writer → Writer
append_dns true d w = if is4 d then tlv Tag.dns4 (as4 d) w else w
append_dns false d w = if not (is4 d) then tlv Tag.dns6 (as16 d) w else w

unfoldable pub dns_pass : Bool → List Addr → Writer → Result DescrError Writer
dns_pass pass [] w = ok w
dns_pass pass (d ∷ ds) w = do
  fail_if (not (is_valid d)) invalid_dns
  dns_pass pass ds (append_dns pass d w)

unfoldable pub append_refs : List PeerRef → Writer → Writer
append_refs [] w = w
append_refs (r ∷ rs) w = append_refs rs (tlv Tag.peer_ref r w)

-- An optional number: zero is written as no tag.
abbrev pub tlv_if : Bool → ℕ → Bytes → Writer → Writer
tlv_if b tag value w = if b then tlv tag value w else w

-- `append([]byte(magic), Version)` in a fresh writer.
abbrev pub new_writer : Bytes → Writer
new_writer magic = record { buf = magic ++ (version ∷ []); failure = none }

-- `Interface.Encode`
unfoldable pub encode_interface : ℕ → Interface → Result DescrError Bytes
encode_interface size i = do
  w ← encode_prefixes i.addrs Tag.addr4 Tag.addr6 (new_writer magic_interface)
  w ← dns_pass true i.dns (tlv_if (not (i.mtu == 0)) Tag.mtu (be16 i.mtu) w)
  w ← dns_pass false i.dns w
  let w = append_refs i.peer_refs w
  let w = tlv_if (not (i.listen_port == 0)) Tag.listen_port (be16 i.listen_port) w
  finish size (tlv_if i.has_mac Tag.mac i.mac w)

-- The switch over the endpoint's forms, where no hostname is given.
unfoldable pub encode_ip : Addr → ℕ → Writer → Result DescrError Writer
encode_ip invalid port w = err no_endpoint
encode_ip (v4 b) port w = ok (tlv Tag.endpoint4 (b ++ be16 port) w)
encode_ip (v6 b zone) port w = ok (tlv Tag.endpoint6 (b ++ be16 port) w)

unfoldable pub encode_endpoint : ℕ → Endpoint → Writer → Result DescrError Writer
encode_endpoint size e w =
    if not (is_empty e.host)
    then (if ltb (max_hostname size) (length e.host)
        then err (bad_hostname (length e.host))
        else ok (tlv Tag.endpoint_host (be16 e.port ++ e.host) w))
    else encode_ip e.ip e.port w

unfoldable pub encode_psk : Bytes → Writer → Result DescrError Writer
encode_psk psk w =
    if is_empty psk
    then ok w
    else if not (length psk == psk_wrapped_len)
    then err (bad_psk (length psk))
    else ok (tlv Tag.psk_wrapped psk w)

-- `Peer.Encode`
unfoldable pub encode_peer : ℕ → Peer → Result DescrError Bytes
encode_peer size p = do
  w ← encode_endpoint size p.endpoint (new_writer magic_peer)
  w ← encode_prefixes p.allowed_ips Tag.aip4 Tag.aip6 w
  w ←
      encode_psk p.psk_wrapped
        (tlv_if (not (p.keepalive == 0)) Tag.keepalive (p.keepalive % 256 ∷ []) w)
  finish size w

-- `Normalize`
unfoldable pub normalize : ℕ → Bytes → Result DescrError Bytes
normalize size b =
    if ltb size (length b)
    then err (too_long (length b))
    else if ltb (length b) header_len
    then err short
    else ok (padded size b)

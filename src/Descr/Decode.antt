-- ===== src/Descr/Decode.antt =====
-- internal/descr/descr.go: `parse` and `DecodeInterface`.
use encedo_wg_hsm.Common.{
  ℕ, zero, suc, ◌+◌, Bool, true, false, not, ◌||◌, Option, none, some, List, [], ◌∷◌, ◌++◌, Bytes,
  length, take, drop, get_or, replicate, is_empty, ltb, ◌==◌, if◌then◌else◌, bytes_eq, Result, ok,
  err, ◌>>=◌, ◌>>◌, fail_if,
}
use encedo_wg_hsm.Netip.{Addr, invalid, addr_from_slice, Prefix, prefix_from, prefix_is_valid}
use encedo_wg_hsm.Descr.Tag
use encedo_wg_hsm.Descr.Records.{
  Interface, TlvItem, DescrError, short, too_long, bad_magic, bad_version, non_zero_padding,
  not_ascending, no_length_byte, runs_past_end, bad_length, repeated, explicit_zero,
  malformed_address, bad_prefix, after_mac, mac_not_last, unknown_tag, out_of_fuel, be_uint16,
  magic_interface, magic_len, version, header_len, mac_len, peer_ref_len,
}

-- The loop over `b[j:]` behind an end tag.
unfoldable pub check_padding : ℕ → Bytes → Result DescrError (Unit {0})
check_padding j [] = ok tt
check_padding j (x ∷ xs) = do fail_if (not (x == 0)) (non_zero_padding j); check_padding (j + 1) xs

-- The value that follows a tag at offset `i`: what is read, and what is left.
unfoldable pub take_value : ℕ → ℕ → Bytes → Result DescrError (Bytes × Bytes)
take_value i tag [] = err (no_length_byte tag i)
take_value i tag (n ∷ rest) =
    if ltb (length rest) n
    then err (runs_past_end tag i n (length rest))
    else ok (take n rest, drop n rest)

-- The loop of `parse`, at offset `i` with `b[i:]` still to be read. The items are those that the
-- loop still appends. A round takes two bytes at least, so `length b` rounds are enough.
unfoldable pub parse_loop : ℕ → ℕ → ℕ → Bytes → Result DescrError (List TlvItem)
unfolding take_value
parse_loop fuel i last [] = ok []
parse_loop zero i last (tag ∷ rest) = err out_of_fuel
parse_loop (suc fuel) i last (tag ∷ rest) =
    let next = do
      (value, left) ← take_value i tag rest
      items ← parse_loop fuel (i + 2 + length value) tag left
      ok (record { tag = tag; value = value } ∷ items)
    in if tag == Tag.end
      then check_padding i (tag ∷ rest) >> ok []
      else if ltb tag last
      then err (not_ascending tag last)
      else next

-- `parse`
unfoldable pub parse : ℕ → Bytes → Bytes → Result DescrError (List TlvItem)
parse size b magic = do
  fail_if (ltb (length b) header_len) short
  fail_if (ltb size (length b)) (too_long (length b))
  fail_if (not (bytes_eq (take magic_len b) magic)) bad_magic
  fail_if (not (get_or b magic_len 0 == version)) (bad_version (get_or b magic_len 0))
  parse_loop (length b) header_len 0 (drop header_len b)

abbrev pub expect : ℕ → Bytes → ℕ → Result DescrError (Unit {0})
expect tag value n = fail_if (not (length value == n)) (bad_length tag (length value) n)

-- `seen`, as the list of the tags that `once` has recorded.
unfoldable pub has_seen : List ℕ → ℕ → Bool
has_seen [] tag = false
has_seen (t ∷ ts) tag = t == tag || has_seen ts tag

unfoldable pub once : List ℕ → ℕ → Result DescrError (List ℕ)
once seen tag = if has_seen seen tag then err (repeated tag) else ok (tag ∷ seen)

abbrev pub non_zero : ℕ → ℕ → Result DescrError (Unit {0})
non_zero tag v = fail_if (v == 0) (explicit_zero tag)

-- `prefixFrom`, on a value of at least `addr_len + 1` bytes.
abbrev checked_prefix : ℕ → Option Addr → Result DescrError Prefix
checked_prefix n none = err malformed_address
checked_prefix n (some a) =
    if prefix_is_valid (prefix_from a n) then ok (prefix_from a n) else err (bad_prefix n)

unfoldable pub prefix_of_value : Bytes → ℕ → Result DescrError Prefix
unfolding addr_from_slice
prefix_of_value value addr_len =
    checked_prefix (get_or value addr_len 0) (addr_from_slice (take addr_len value))

-- `a, _ := netip.AddrFromSlice(...)`
abbrev addr_or_invalid : Option Addr → Addr
addr_or_invalid none = invalid
addr_or_invalid (some a) = a

unfoldable pub addr_of_value : Bytes → Addr
unfolding addr_from_slice
addr_of_value value = addr_or_invalid (addr_from_slice value)

-- The variables of the loop of `DecodeInterface`.
pub record InterfaceState : Type 0 where
  pub out : Interface
  pub seen : List ℕ

abbrev pub empty_interface : Interface
empty_interface = record {
  addrs = [];
  mtu = 0;
  dns = [];
  peer_refs = [];
  listen_port = 0;
  mac = replicate mac_len 0;
  has_mac = false;
}

-- The cases of the switch, one function for each. `s.out` is the record read so far.
abbrev pub with_out : InterfaceState → Interface → InterfaceState
with_out s o = record s { out = o }

unfoldable pub read_addr : ℕ → TlvItem → InterfaceState → Result DescrError InterfaceState
read_addr addr_len it s = do
  expect it.tag it.value (addr_len + 1)
  p ← prefix_of_value it.value addr_len
  ok (with_out s (record (s.out) { addrs = s.out.addrs ++ (p ∷ []) }))

unfoldable pub read_mtu : TlvItem → InterfaceState → Result DescrError InterfaceState
read_mtu it s = do
  seen ← once s.seen it.tag
  expect it.tag it.value 2
  non_zero it.tag (be_uint16 it.value)
  ok (record { out = record (s.out) { mtu = be_uint16 it.value }; seen = seen })

unfoldable pub read_dns : ℕ → TlvItem → InterfaceState → Result DescrError InterfaceState
read_dns addr_len it s = do
  expect it.tag it.value addr_len
  ok (with_out s (record (s.out) { dns = s.out.dns ++ (addr_of_value it.value ∷ []) }))

unfoldable pub read_ref : TlvItem → InterfaceState → Result DescrError InterfaceState
read_ref it s = do
  expect it.tag it.value peer_ref_len
  ok (with_out s (record (s.out) { peer_refs = s.out.peer_refs ++ (it.value ∷ []) }))

unfoldable pub read_port : TlvItem → InterfaceState → Result DescrError InterfaceState
read_port it s = do
  seen ← once s.seen it.tag
  expect it.tag it.value 2
  non_zero it.tag (be_uint16 it.value)
  ok (record { out = record (s.out) { listen_port = be_uint16 it.value }; seen = seen })

-- `last` is `n == len(items)-1`.
unfoldable pub read_mac : Bool → TlvItem → InterfaceState → Result DescrError InterfaceState
read_mac last it s = do
  seen ← once s.seen it.tag
  expect it.tag it.value mac_len
  fail_if (not last) mac_not_last
  ok (record { out = record (s.out) { mac = it.value; has_mac = true }; seen = seen })

unfoldable pub interface_switch : Bool → TlvItem → InterfaceState → Result DescrError InterfaceState
interface_switch last it s =
    if it.tag == Tag.addr4
    then read_addr 4 it s
    else if it.tag == Tag.addr6
    then read_addr 16 it s
    else if it.tag == Tag.mtu
    then read_mtu it s
    else if it.tag == Tag.dns4
    then read_dns 4 it s
    else if it.tag == Tag.dns6
    then read_dns 16 it s
    else if it.tag == Tag.peer_ref
    then read_ref it s
    else if it.tag == Tag.listen_port
    then read_port it s
    else if it.tag == Tag.mac
    then read_mac last it s
    else err (unknown_tag it.tag)

unfoldable pub interface_step : Bool → TlvItem → InterfaceState → Result DescrError InterfaceState
interface_step last it s = do
  fail_if (has_seen s.seen Tag.mac) (after_mac it.tag)
  interface_switch last it s

unfoldable pub interface_loop : List TlvItem → InterfaceState → Result DescrError Interface
interface_loop [] s = ok s.out
interface_loop (it ∷ rest) s = do s' ← interface_step (is_empty rest) it s; interface_loop rest s'

-- `DecodeInterface`
unfoldable pub decode_interface : ℕ → Bytes → Result DescrError Interface
decode_interface size b = do
  items ← parse size b magic_interface
  interface_loop items (record { out = empty_interface; seen = [] })

-- ===== src/Netip.antt =====
-- The part of Go's net/netip that the program uses: addresses, prefixes and their validity.
-- A zone belongs to an IPv6 address and is lost by As16 and by PrefixFrom, as in Go.
use encedo_wg_hsm.Common.{
  ℕ, ◌≡◌, Bool, true, false, ◌&&◌, leb, ◌==◌, ◌++◌, [], ◌∷◌, Bytes, length, replicate,
  if◌then◌else◌, Option, none, some, bytes_eq, is_empty, take, drop, ◌-◌, ◌*◌, ◌/◌, ◌^◌,
}

-- `netip.Addr`: the zero value, four bytes, or sixteen bytes with a zone.
pub data Addr : Type 0 where
  invalid : Addr
  v4 : Bytes → Addr
  v6 : Bytes → Bytes → Addr

abbrev pub is_valid : Addr → Bool
is_valid invalid = false
is_valid (v4 b) = true
is_valid (v6 b zone) = true

abbrev pub is4 : Addr → Bool
is4 invalid = false
is4 (v4 b) = true
is4 (v6 b zone) = false

-- Go panics on an address that has no such form. The callers here test first.
abbrev pub as4 : Addr → Bytes
as4 invalid = []
as4 (v4 b) = b
as4 (v6 b zone) = []

abbrev pub as16 : Addr → Bytes
as16 invalid = replicate 16 0
as16 (v4 b) = replicate 10 0 ++ (255 ∷ 255 ∷ b)
as16 (v6 b zone) = b

abbrev pub bit_len : Addr → ℕ
bit_len invalid = 0
bit_len (v4 b) = 32
bit_len (v6 b zone) = 128

abbrev pub without_zone : Addr → Addr
without_zone invalid = invalid
without_zone (v4 b) = v4 b
without_zone (v6 b zone) = v6 b []

unfoldable pub addr_from_slice : Bytes → Option Addr
addr_from_slice b =
    if length b == 4 then some (v4 b) else if length b == 16 then some (v6 b []) else none

-- `netip.Prefix`. A length out of range stands for Go's -1.
pub record Prefix : Type 0 where
  pub addr : Addr
  pub bits : ℕ

abbrev pub prefix_from : Addr → ℕ → Prefix
prefix_from a n = record { addr = without_zone a; bits = n }

abbrev pub prefix_is_valid : Prefix → Bool
prefix_is_valid p = is_valid p.addr && leb p.bits (bit_len p.addr)

-- The byte slices that an address of the type really holds, with no zone.
abbrev pub IsAddr : Addr → Type 0
IsAddr invalid = Unit
IsAddr (v4 b) = length b ≡ 4
IsAddr (v6 b zone) = (length b ≡ 16) × (zone ≡ [])

abbrev pub IsPrefix : Prefix → Type 0
IsPrefix p = IsAddr p.addr × (prefix_is_valid p ≡ true)

-- `==` on addresses.
unfoldable pub addr_eq : Addr → Addr → Bool
addr_eq invalid invalid = true
addr_eq (v4 a) (v4 b) = bytes_eq a b
addr_eq (v6 a zone) (v6 b zone') = bytes_eq a b && bytes_eq zone zone'
addr_eq _ _ = false

-- `Unmap`: an IPv4 address that was written as an IPv6 one.
abbrev pub unmap : Addr → Addr
unmap invalid = invalid
unmap (v4 b) = v4 b
unmap (v6 b zone) =
    if bytes_eq (take 12 b) (replicate 10 0 ++ (255 ∷ 255 ∷ [])) then v4 (drop 12 b) else v6 b zone

abbrev pub zone_of : Addr → Bytes
zone_of invalid = []
zone_of (v4 b) = []
zone_of (v6 b zone) = zone

abbrev pub bytes_of : Addr → Bytes
bytes_of invalid = []
bytes_of (v4 b) = b
bytes_of (v6 b zone) = b

-- Whether the first `n` bits agree.
unfoldable pub bits_agree : ℕ → Bytes → Bytes → Bool
bits_agree n [] bs = true
bits_agree n (a ∷ as') [] = true
bits_agree n (a ∷ as') (b ∷ bs) =
    let rest = bits_agree (n - 8) as' bs in
    if leb 8 n then a == b && rest else a / (2 ^ (8 - n)) == b / (2 ^ (8 - n))

-- `Prefix.Contains`
unfoldable pub prefix_contains : Prefix → Addr → Bool
prefix_contains p a =
    prefix_is_valid p
    && is_empty (zone_of a)
    && is_valid a
    && bit_len p.addr == bit_len a
    && bits_agree p.bits (bytes_of p.addr) (bytes_of a)

unfoldable pub mask_bytes : ℕ → Bytes → Bytes
mask_bytes n [] = []
mask_bytes n (b ∷ bs) =
    (if leb 8 n then b else b / (2 ^ (8 - n)) * 2 ^ (8 - n)) ∷ mask_bytes (n - 8) bs

abbrev pub mask_addr : ℕ → Addr → Addr
mask_addr n invalid = invalid
mask_addr n (v4 b) = v4 (mask_bytes n b)
mask_addr n (v6 b zone) = v6 (mask_bytes n b) []

-- `Prefix.Masked`
abbrev pub masked : Prefix → Prefix
masked p =
    if prefix_is_valid p
    then record { addr = mask_addr p.bits p.addr; bits = p.bits }
    else record { addr = invalid; bits = p.bits }

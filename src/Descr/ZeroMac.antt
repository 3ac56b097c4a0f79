-- ===== src/Descr/ZeroMac.antt =====
-- internal/descr/descr.go: `ZeroMAC`.
pub mod Correct
use encedo_wg_hsm.Common.{
  ℕ, zero, suc, ◌+◌, ◌-◌, ◌%◌, ◌≤◌, ◌<◌, ◌≡◌, ◌≢◌, refl, sym, ap, ◌∙◌, Bool, true, false, not, List,
  [], ◌∷◌, ◌++◌, Bytes, IsByte, All, length, replicate, ltb, ◌==◌, if◌then◌else◌, append-nil,
  append_assoc, length-append, length-replicate, Result, ok, err, arith, Bool-cases, inl, inr,
  ◌>>=◌,
}
use encedo_wg_hsm.Netip.{Addr, invalid, v4, v6, Prefix, is4}
use encedo_wg_hsm.Descr.Tag
use encedo_wg_hsm.Descr.Records.{
  Interface, TlvItem, DescrError, magic_interface, header_len, mac_len, version, PeerRef, be16,
}
use encedo_wg_hsm.Descr.Items.{item, serialize, serialize-append, Tagged}
use encedo_wg_hsm.Descr.Framing.{framed, parse-framed}
use encedo_wg_hsm.Descr.Sorted.{
  interface_items-Ascending, Tagged-v4, Tagged-v6, Tagged-dns4, Tagged-dns6, Tagged-refs,
  Tagged-item_if,
}
use encedo_wg_hsm.Descr.Layout.{
  v4_items, v6_items, dns4_items, dns6_items, ref_items, item_if, interface_items, IsInterface,
  encode_interface-items, written,
}
use encedo_wg_hsm.Descr.Canonical.{decode_interface-frame, padded-append}
use encedo_wg_hsm.Descr.Encode.{padded, finish, encode_interface}
use encedo_wg_hsm.Descr.Decode.{parse, decode_interface}

-- The loop `for j := at; j < at+n; j++ { out[j] = 0 }`, inside the slice.
unfoldable pub zero_range : ℕ → ℕ → Bytes → Bytes
zero_range at n [] = []
zero_range zero zero (x ∷ xs) = x ∷ xs
zero_range zero (suc n) (x ∷ xs) = 0 ∷ zero_range zero n xs
zero_range (suc at) n (x ∷ xs) = x ∷ zero_range at n xs

-- The walk over the items, which recovers the offset of the MAC's value.
unfoldable pub zero_walk : List TlvItem → ℕ → Bytes → Bytes
zero_walk [] off out = out
zero_walk (it ∷ its) off out =
    if it.tag == Tag.mac
    then zero_range (off + 2) (length it.value) out
    else zero_walk its (off + (2 + length it.value)) out

-- `ZeroMAC`
unfoldable pub zero_mac : ℕ → Bytes → Result DescrError Bytes
zero_mac size b = do items ← parse size b magic_interface; ok (zero_walk items header_len b)

-- The configuration as the canonical message has it.
abbrev pub clear_mac : Interface → Interface
clear_mac i = record i { mac = replicate mac_len 0 }

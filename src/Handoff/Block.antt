-- ===== src/Handoff/Block.antt =====
-- internal/handoff/handoff.go: `Peer` with `AllowedIPs`, `ConfBlock` and `SetCommand`.
use encedo_wg_hsm.Common.{
  codes, ℕ, Bool, false, not, ◌&&◌, ◌||◌, List, [], ◌∷◌, ◌++◌, Bytes, bytes_eq, is_empty, contains,
  if◌then◌else◌,
}
use encedo_wg_hsm.Netip.{Addr, Prefix, bit_len}

-- `Peer`
pub record ServerPeer : Type 0 where
  pub public_key : Bytes
  pub addresses : List Prefix
  pub label : Bytes
  pub preshared_key : Bytes

-- `seen[host]`
unfoldable pub has_host : Bytes → List Bytes → Bool
has_host host [] = false
has_host host (h ∷ hs) = bytes_eq h host || has_host host hs

-- The comparison of the sort: what is written with a dot comes first.
abbrev pub has_dot : Bytes → Bool
has_dot host = contains host (codes ".")

abbrev pub comes_before : Bytes → Bytes → Bool
comes_before a b = has_dot a && not (has_dot b)

-- `sort.SliceStable`: equal elements keep their order.
unfoldable pub insert_host : Bytes → List Bytes → List Bytes
insert_host x [] = x ∷ []
insert_host x (y ∷ ys) =
    let rest = insert_host x ys in if comes_before y x then y ∷ rest else x ∷ y ∷ ys

unfoldable pub sort_hosts : List Bytes → List Bytes
sort_hosts [] = []
sort_hosts (x ∷ xs) = insert_host x (sort_hosts xs)

-- `strings.Join`
unfoldable pub join : Bytes → List Bytes → Bytes
join sep [] = []
join sep (x ∷ []) = x
join sep (x ∷ y ∷ ys) = x ++ (sep ++ join sep (y ∷ ys))

-- The text that Go gives a prefix is a parameter.
module _ (prefix_text : Addr → ℕ → Bytes) where
  abbrev pub host_text : Prefix → Bytes
  host_text a = prefix_text a.addr (bit_len a.addr)

  -- The loop over the addresses.
  unfoldable pub unique_hosts : List Prefix → List Bytes → List Bytes
  unique_hosts [] seen = []
  unique_hosts (a ∷ rest) seen =
      let later =
        unique_hosts rest (if has_host (host_text a) seen then seen else host_text a ∷ seen) in
      if has_host (host_text a) seen then later else host_text a ∷ later

  -- `AllowedIPs`
  unfoldable pub allowed_ips_of : ServerPeer → List Bytes
  allowed_ips_of p = sort_hosts (unique_hosts p.addresses [])

  abbrev pub line : Bytes → Bytes → Bytes
  line front value = front ++ (value ++ (10 ∷ []))

  -- `ConfBlock`
  unfoldable pub conf_block : ServerPeer → Bytes
  conf_block p =
      line (codes "[Peer]") []
      ++ ((if is_empty p.label then [] else line (codes "# ") p.label)
          ++ (line (codes "PublicKey = ") p.public_key
              ++ ((if is_empty p.preshared_key
                    then []
                    else line (codes "PresharedKey = ") p.preshared_key)
                  ++ line (codes "AllowedIPs = ") (join (codes ", ") (allowed_ips_of p)))))

  -- `SetCommand`, whose lines but the last of each part end in a backslash.
  unfoldable pub set_command : ServerPeer → Bytes → Bytes
  set_command p iface =
      line (codes "wg set ") (
        (if is_empty iface then codes "wg0" else iface)
        ++ (codes " peer " ++ (p.public_key ++ (codes " " ++ (92 ∷ [])))))
      ++ ((if is_empty p.preshared_key
            then []
            else line (codes "  preshared-key /path/to/psk ") (92 ∷ []))
          ++ (line (codes "  allowed-ips ") (join (codes ",") (allowed_ips_of p))
              ++ (if is_empty p.preshared_key
                  then []
                  else (10
                      ∷ line (codes "# The pre-shared key is read from a file, not from this line:")
                          [])
                    ++ line (codes "#   umask 077; printf %s '")
                        (p.preshared_key ++ codes "' > /path/to/psk"))))

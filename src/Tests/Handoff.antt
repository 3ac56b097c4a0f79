-- ===== src/Tests/Handoff.antt =====
-- A peer with an IPv6 address in front of an IPv4 one that is given twice.
use encedo_wg_hsm.Common.{
  codes, ℕ, ◌≡◌, refl, [], ◌∷◌, ◌++◌, Bytes, All, bytes_eq, contains, has_prefix,
}
use encedo_wg_hsm.Netip.{Addr, v4, v6}
use encedo_wg_hsm.Handoff.Block.{
  ServerPeer, has_host, insert_host, sort_hosts, join, unique_hosts, allowed_ips_of, conf_block,
}
use encedo_wg_hsm.Handoff.Ranges.{
  dotted, undotted, IsUnique, firsts, texts, IsListed, allowed_ips_of-IsUnique,
}

abbrev text_of : Addr → ℕ → Bytes
text_of (v4 b) n = codes "10.0.0.7/32"
text_of _ n = codes "fd00::7/128"

abbrev server_peer : ServerPeer
server_peer = record {
  public_key = codes "KEY";
  addresses =
      record { addr = v6 [] []; bits = 64 }
      ∷ record { addr = v4 []; bits = 24 }
      ∷ record { addr = v4 []; bits = 16 }
      ∷ [];
  label = codes "laptop";
  preshared_key = [];
}

block_of_peer :
    conf_block text_of server_peer
    ≡ codes "[Peer]"
      ++ (10 ∷ codes "# laptop"
          ++ (10 ∷ codes "PublicKey = KEY"
              ++ (10 ∷ codes "AllowedIPs = 10.0.0.7/32, fd00::7/128" ++ (10 ∷ []))))
unfolding conf_block allowed_ips_of sort_hosts insert_host unique_hosts has_host join bytes_eq
    contains has_prefix
block_of_peer = refl

allowed_ips_of-IsUnique_example :
    (allowed_ips_of text_of server_peer
      ≡ dotted (firsts (texts text_of server_peer.addresses))
        ++ undotted (firsts (texts text_of server_peer.addresses)))
    × IsUnique (firsts (texts text_of server_peer.addresses))
    × All (IsListed text_of (firsts (texts text_of server_peer.addresses))) server_peer.addresses
allowed_ips_of-IsUnique_example = allowed_ips_of-IsUnique text_of server_peer

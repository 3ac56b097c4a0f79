-- ===== src/Tests/Spec.antt =====
-- A peer specification with a name for its endpoint.
use encedo_wg_hsm.Common.{
  codes, ℕ, ◌<◌, ◌^◌, ◌≡◌, refl, true, none, some, [], ◌∷◌, Bytes, replicate, ltb, if◌then◌else◌,
  bytes_eq, trim_space, trim_left, trim_right, to_lower, cut, split, ok, arith,
}
use encedo_wg_hsm.Netip.{Addr, invalid, v4, is_valid, mask_bytes}
use encedo_wg_hsm.Provision.Spec.{PeerSpec}
use encedo_wg_hsm.Provision.Text.{
  SpecParsers, parse_endpoint, field_of, set_field, read_field, read_fields, finish_spec,
  parse_peer_spec,
}
use encedo_wg_hsm.Provision.Accepted.{IsSpec, parse_peer_spec-IsSpec}

-- The only number is 25, where it is in range.
abbrev spec_parsers : SpecParsers
spec_parsers = record {
  parse_addr_port = λ s. none;
  split_host_port = λ s. some (codes "vpn.example", codes "25");
  parse_uint = λ s b. if ltb 25 (2 ^ b) then some 25 else none;
  parse_prefix = λ s. ok (record { addr = v4 (10 ∷ 0 ∷ 0 ∷ 9 ∷ []); bits = 24 });
  decode64 = λ s. ok (replicate 32 7);
  encode64 = λ b. codes "BwcHBwcHBwc=";
}

abbrev text : Bytes
text = codes "PubKey = BwcH, endpoint=vpn.example:25,allowed-ips=10.0.0.9/24,,keepalive=25"

abbrev spec : PeerSpec
spec = record {
  pub_key = replicate 32 7;
  label = codes "wg peer BwcHBwcH";
  endpoint = record { ip = invalid; host = codes "vpn.example"; port = 25 };
  allowed_ips = record { addr = v4 (10 ∷ 0 ∷ 0 ∷ 0 ∷ []); bits = 24 } ∷ [];
  keepalive = 25;
}

parse_text : parse_peer_spec 128 spec_parsers text ≡ ok spec
unfolding parse_peer_spec read_fields read_field set_field field_of finish_spec parse_endpoint split
    cut trim_space trim_left trim_right to_lower bytes_eq mask_bytes
parse_text = refl

no_literal :
    (s : Bytes) (a : Addr) (n : ℕ)
    → spec_parsers.parse_addr_port s ≡ some (a, n)
    → (is_valid a ≡ true) × (n < 65536)
no_literal s a n h = cc

in_range : (s : Bytes) (b n : ℕ) → spec_parsers.parse_uint s b ≡ some n → n < 2 ^ b
in_range s b n h = ground arith

parse_peer_spec-IsSpec_example : IsSpec 128 spec
parse_peer_spec-IsSpec_example =
    parse_peer_spec-IsSpec 128 spec_parsers no_literal in_range text spec parse_text

-- ===== src/Tests/Wgconf.antt =====
-- Two configuration files that differ in their private keys.
use encedo_wg_hsm.Common.{
  codes, ℕ, ◌≡◌, refl, true, false, Option, none, List, [], ◌∷◌, Bytes, bytes_eq, is_empty,
  replicate, ok, err, trim_space, trim_left, trim_right, to_lower, cut, split, has_prefix,
  trim_left_brackets, trim_right_brackets,
}
use encedo_wg_hsm.Netip.{v4}
use encedo_wg_hsm.Wgconf.Lines.{before_comment, ends_with, read_text, read_line, split_list}
use encedo_wg_hsm.Wgconf.Settings.{
  Parsers, Conf, pos, interface_key, peer_key, set, set_interface, set_peer, read_prefixes,
}
use encedo_wg_hsm.Wgconf.Parse.{scan_line, scan_lines, checked, parse_conf}
use encedo_wg_hsm.Wgconf.Secret.{
  IsSecret, AgreesUpToSecrets, same_line, secret_line, both_end, parse_conf-secret,
}
use encedo_wg_hsm.Wgconf.Accepted.{count_peers, IsKeyText, parse_conf-IsKeyText}

-- Parsers that know one prefix and one key.
abbrev parsers : Parsers
parsers = record {
  parse_prefix = λ s. ok (record { addr = v4 (10 ∷ 0 ∷ 0 ∷ 7 ∷ []); bits = 24 });
  parse_addr = λ s. err 1;
  atoi = λ s. ok (pos 25);
  decode64 = λ s. ok (replicate 32 7);
}

abbrev file : Bytes → List Bytes
file secret =
    codes "[Interface]"
    ∷ secret
    ∷ codes "Address = 10.0.0.7/24 # ours"
    ∷ []
    ∷ codes "[Peer]"
    ∷ codes "PublicKey=BwcH"
    ∷ codes "PersistentKeepalive = 25"
    ∷ []

abbrev no_failure : Option ℕ
no_failure = none

abbrev conf : Conf
conf = record {
  addresses = record { addr = v4 (10 ∷ 0 ∷ 0 ∷ 7 ∷ []); bits = 24 } ∷ [];
  dns = [];
  mtu = pos 0;
  listen_port = pos 0;
  peer_pub_key = codes "BwcH";
  peer_endpoint = [];
  peer_allowed = [];
  peer_keepalive = pos 25;
  had_private_key = true;
}

parse-file : parse_conf parsers (file (codes "PrivateKey = c2VjcmV0")) none ≡ ok conf
unfolding parse_conf scan_lines scan_line checked read_line read_text before_comment trim_space
    trim_left trim_right trim_left_brackets trim_right_brackets ends_with has_prefix to_lower cut
    set set_interface set_peer interface_key peer_key bytes_eq read_prefixes split_list split
parse-file = refl

parse_conf-IsKeyText_example :
    (is_empty conf.addresses ≡ false)
    × (no_failure ≡ none)
    × (count_peers (file (codes "PrivateKey = c2VjcmV0")) ≡ 1)
    × IsKeyText parsers conf.peer_pub_key
parse_conf-IsKeyText_example =
    parse_conf-IsKeyText parsers (file (codes "PrivateKey = c2VjcmV0")) no_failure conf parse-file

first-IsSecret : IsSecret (codes "PrivateKey = c2VjcmV0")
unfolding read_line read_text before_comment trim_space trim_left trim_right ends_with has_prefix
    to_lower cut
first-IsSecret = record {
  key = codes "PrivateKey";
  value = codes "c2VjcmV0";
  read = refl;
  named = refl;
}

second-IsSecret : IsSecret (codes "  privatekey=b3RoZXI ; x")
unfolding read_line read_text before_comment trim_space trim_left trim_right ends_with has_prefix
    to_lower cut
second-IsSecret = record {
  key = codes "privatekey";
  value = codes "b3RoZXI";
  read = refl;
  named = refl;
}

files_agree :
    AgreesUpToSecrets
      (file (codes "PrivateKey = c2VjcmV0"))
      (file (codes "  privatekey=b3RoZXI ; x"))
files_agree = same_line _ (
    secret_line _ _ first-IsSecret second-IsSecret
      (same_line _ (same_line _ (same_line _ (same_line _ (same_line _ both_end))))))

parse_conf-secret_example :
    parse_conf parsers (file (codes "PrivateKey = c2VjcmV0")) none
    ≡ parse_conf parsers (file (codes "  privatekey=b3RoZXI ; x")) none
parse_conf-secret_example =
    parse_conf-secret parsers (file (codes "PrivateKey = c2VjcmV0"))
      (file (codes "  privatekey=b3RoZXI ; x")) none files_agree

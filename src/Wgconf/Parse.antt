-- ===== src/Wgconf/Parse.antt =====
-- internal/wgconf/wgconf.go: `Parse`. The lines are those that a `bufio.Scanner` gives, and its
-- error is given beside them.
use encedo_wg_hsm.Common.{
  codes, ℕ, ◌+◌, ◌==◌, ltb, Option, none, some, List, [], ◌∷◌, Bytes, bytes_eq, is_empty,
  if◌then◌else◌, Result, ok, err, ◌>>=◌, ◌>>◌, wrap, fail_if,
}
use encedo_wg_hsm.Wgconf.Lines.{Line, blank, section, setting, unreadable, read_line}
use encedo_wg_hsm.Wgconf.Settings.{Parsers, Conf, empty_conf, SetError, set}

pub data ConfError : Type 0 where
  not_setting : ℕ → Bytes → ConfError
  at_line : ℕ → SetError → ConfError
  read_failed : ℕ → ConfError
  no_address no_peer no_pub_key : ConfError
  many_peers : ℕ → ConfError

-- The variables of the loop.
pub record Scan : Type 0 where
  pub conf : Conf
  pub name : Bytes
  pub peers : ℕ

abbrev pub first_scan : Scan
first_scan = record { conf = empty_conf; name = []; peers = 0 }

abbrev pub end_of : Option ℕ → Result ConfError (Unit {0})
end_of none = ok tt
end_of (some e) = err (read_failed e)

-- The checks behind the loop.
unfoldable pub checked : Scan → Result ConfError Conf
checked s = do
  fail_if (is_empty s.conf.addresses) no_address
  fail_if (s.peers == 0) no_peer
  fail_if (ltb 1 s.peers) (many_peers s.peers)
  fail_if (is_empty s.conf.peer_pub_key) no_pub_key
  ok s.conf

module _ (lib : Parsers) where
  unfoldable pub scan_line : ℕ → Line → Scan → Result ConfError Scan
  scan_line n blank s = ok s
  scan_line n (section name) s = ok (record s {
    name = name;
    peers = if bytes_eq name (codes "peer") then s.peers + 1 else s.peers;
  })
  scan_line n (setting key value) s = do
    c ← wrap (at_line n) (set lib s.name key value s.conf)
    ok (record s { conf = c })
  scan_line n (unreadable text) s = err (not_setting n text)

  unfoldable pub scan_lines : ℕ → List Bytes → Scan → Result ConfError Scan
  scan_lines n [] s = ok s
  scan_lines n (line ∷ lines) s = scan_line n (read_line line) s >>= scan_lines (n + 1) lines

  -- `Parse`
  unfoldable pub parse_conf : List Bytes → Option ℕ → Result ConfError Conf
  parse_conf lines failure = do s ← scan_lines 1 lines first_scan; end_of failure; checked s

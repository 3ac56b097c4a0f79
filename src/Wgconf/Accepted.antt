-- ===== src/Wgconf/Accepted.antt =====
-- internal/wgconf: what a configuration that `Parse` accepts is.
use encedo_wg_hsm.Common.{
  codes, ℕ, ◌+◌, ◌≡◌, refl, sym, ap, ◌∙◌, subst, ◌⊎◌, inl, inr, false, not, ◌==◌, ==→eq, ltb,
  Option, none, some, List, [], ◌∷◌, ◌++◌, Bytes, bytes_eq, is_empty, length, to_lower,
  if◌then◌else◌, if_split, not-eq-false, ok, ◌>>◌, wrap, wrap-eq-ok, fail_if, >>=-eq-ok, Holds,
  Holds-bind, fail_if-eq-ok, ok-injective, arith,
}
use encedo_wg_hsm.Wgconf.Lines.{Line, blank, section, setting, unreadable, read_line, split_list}
use encedo_wg_hsm.Wgconf.Settings.{
  Parsers, Conf, conf_key_len, bad_pub_key, InterfaceKey, private_key, address, dns_server,
  mtu_size, port, directive, other_setting, PeerKey, public_key, endpoint, allowed_ips, keepalive,
  preshared_key, other_peer_setting, interface_key, peer_key, set, set_interface, set_peer,
  read_prefixes, read_addrs, number,
}
use encedo_wg_hsm.Wgconf.Parse.{
  at_line, no_address, no_peer, no_pub_key, many_peers, Scan, first_scan, scan_line, scan_lines,
  checked, end_of, parse_conf,
}

-- How many lines start a [Peer] section.
abbrev is_peer_section : Line → ℕ
is_peer_section blank = 0
is_peer_section (section name) = if bytes_eq name (codes "peer") then 1 else 0
is_peer_section (setting key value) = 0
is_peer_section (unreadable text) = 0

abbrev pub count_peers : List Bytes → ℕ
count_peers [] = 0
count_peers (line ∷ lines) = is_peer_section (read_line line) + count_peers lines

module _ (lib : Parsers) where
  -- The text is Base64 for a key of the right length.
  abbrev pub IsKeyText : Bytes → Type 0
  IsKeyText text = (raw : Bytes) × (lib.decode64 text ≡ ok raw) × (length raw ≡ conf_key_len)

  abbrev IsKeyed : Conf → Type 0
  IsKeyed c = (c.peer_pub_key ≡ []) ⊎ IsKeyText c.peer_pub_key

  set_interface-IsKeyed :
      (k : InterfaceKey) (key value : Bytes) (c : Conf)
      → IsKeyed c
      → Holds IsKeyed (set_interface lib k key value c)
  unfolding set_interface
  set_interface-IsKeyed private_key key value c h = h
  set_interface-IsKeyed address key value c h =
      Holds-bind IsKeyed (read_prefixes lib (split_list value))
        (λ ps. ok (record c { addresses = c.addresses ++ ps })) (λ ps e. h)
  set_interface-IsKeyed dns_server key value c h =
      Holds-bind IsKeyed (read_addrs lib (split_list value))
        (λ found. ok (record c { dns = c.dns ++ found })) (λ ps e. h)
  set_interface-IsKeyed mtu_size key value c h =
      Holds-bind IsKeyed (number lib value) (λ n. ok (record c { mtu = n })) (λ n e. h)
  set_interface-IsKeyed port key value c h =
      Holds-bind IsKeyed (number lib value) (λ n. ok (record c { listen_port = n })) (λ n e. h)
  set_interface-IsKeyed directive key value c h = tt
  set_interface-IsKeyed other_setting key value c h = h

  set_peer-IsKeyed :
      (k : PeerKey) (value : Bytes) (c : Conf) → IsKeyed c → Holds IsKeyed (set_peer lib k value c)
  unfolding set_peer
  set_peer-IsKeyed public_key value c h =
      Holds-bind IsKeyed (wrap (λ e. bad_pub_key) (lib.decode64 value))
        (λ raw.
          fail_if (not (length raw == conf_key_len)) bad_pub_key
          >> ok (record c { peer_pub_key = value }))
        (λ raw e.
          Holds-bind IsKeyed (fail_if (not (length raw == conf_key_len)) bad_pub_key)
            (λ done. ok (record c { peer_pub_key = value }))
            (λ u f. inr (
              raw,
              wrap-eq-ok (λ e. bad_pub_key) (lib.decode64 value) e,
              ==→eq (length raw) conf_key_len
                  (not-eq-false (length raw == conf_key_len) (fail_if-eq-ok _ bad_pub_key f)),
            )))
  set_peer-IsKeyed endpoint value c h = h
  set_peer-IsKeyed allowed_ips value c h =
      Holds-bind IsKeyed (read_prefixes lib (split_list value))
        (λ ps. ok (record c { peer_allowed = c.peer_allowed ++ ps })) (λ ps e. h)
  set_peer-IsKeyed keepalive value c h =
      Holds-bind IsKeyed (number lib value) (λ n. ok (record c { peer_keepalive = n })) (λ n e. h)
  set_peer-IsKeyed preshared_key value c h = tt
  set_peer-IsKeyed other_peer_setting value c h = h

  set-IsKeyed :
      (name key value : Bytes) (c : Conf) → IsKeyed c → Holds IsKeyed (set lib name key value c)
  unfolding set
  set-IsKeyed name key value c h =
      if_split (Holds IsKeyed) (bytes_eq (to_lower name) (codes "interface")) _ _
        (λ i. set_interface-IsKeyed (interface_key (to_lower key)) key value c h)
        (λ i.
          if_split (Holds IsKeyed) (bytes_eq (to_lower name) (codes "peer")) _ _
            (λ j. set_peer-IsKeyed (peer_key (to_lower key)) value c h) (λ j. h))

  -- After the lines the key is in order and the sections are counted.
  abbrev IsScanned : ℕ → Scan → Type 0
  IsScanned n s = IsKeyed s.conf × (s.peers ≡ n)

  scan_line-IsScanned :
      (n m : ℕ) (line : Line) (s : Scan)
      → IsScanned m s
      → Holds (IsScanned (m + is_peer_section line)) (scan_line lib n line s)
  unfolding scan_line
  scan_line-IsScanned n m blank s (k, p) = (k, omega (arith, p))
  scan_line-IsScanned n m (section name) s (k, p) = (k, ground arith)
  scan_line-IsScanned n m (setting key value) s (k, p) =
      Holds-bind (IsScanned (m + 0)) (wrap (at_line n) (set lib s.name key value s.conf))
        (λ c. ok (record s { conf = c }))
        (λ c e. (
          subst (Holds IsKeyed) (wrap-eq-ok (at_line n) (set lib s.name key value s.conf) e)
              (set-IsKeyed s.name key value s.conf k),
          omega (arith, p),
        ))
  scan_line-IsScanned n m (unreadable text) s (k, p) = tt

  scan_lines-IsScanned :
      (n m : ℕ) (lines : List Bytes) (s : Scan)
      → IsScanned m s
      → Holds (IsScanned (m + count_peers lines)) (scan_lines lib n lines s)
  unfolding scan_lines
  scan_lines-IsScanned n m [] s (k, p) = (k, omega (arith, p))
  scan_lines-IsScanned n m (line ∷ lines) s h =
      Holds-bind (IsScanned (m + count_peers (line ∷ lines))) (scan_line lib n (read_line line) s)
        (scan_lines lib (n + 1) lines)
        (λ s' e.
          subst (λ k. Holds (IsScanned k) (scan_lines lib (n + 1) lines s')) (sum_lem m _ _)
            (scan_lines-IsScanned (n + 1) (m + is_peer_section (read_line line)) lines s' (
              subst (Holds (IsScanned (m + is_peer_section (read_line line)))) e
                (scan_line-IsScanned n m (read_line line) s h))))
    where
      sum_lem : (a b c : ℕ) → a + b + c ≡ a + (b + c)
      sum_lem a b c = omega arith

  -- A configuration that `Parse` accepts gives an address, comes from a file that was read to its
  -- end and has one [Peer] section, and its public key is Base64 for 32 bytes.
  pub parse_conf-IsKeyText :
      (lines : List Bytes) (failure : Option ℕ) (c : Conf)
      → parse_conf lib lines failure ≡ ok c
      → (is_empty c.addresses ≡ false)
        × (failure ≡ none)
        × (count_peers lines ≡ 1)
        × IsKeyText c.peer_pub_key
  unfolding parse_conf checked
  parse_conf-IsKeyText lines failure c h =
      let (s, scanned, h1) = >>=-eq-ok (scan_lines lib 1 lines first_scan) _ h in
      let (u, ended, h2) = >>=-eq-ok (end_of failure) _ h1 in
      let (u1, some_address, h3) = >>=-eq-ok (fail_if (is_empty s.conf.addresses) _) _ h2 in
      let (u2, a_peer, h4) = >>=-eq-ok (fail_if (s.peers == 0) _) _ h3 in
      let (u3, one_peer, h5) = >>=-eq-ok (fail_if (ltb 1 s.peers) _) _ h4 in
      let (u4, a_key, h6) = >>=-eq-ok (fail_if (is_empty s.conf.peer_pub_key) _) _ h5 in
      let same : s.conf ≡ c = ok-injective h6 in
      let state : IsScanned (0 + count_peers lines) s =
        subst (Holds (IsScanned (0 + count_peers lines))) scanned
          (scan_lines-IsScanned 1 0 lines first_scan (inl refl, refl)) in
      let keyed : IsKeyText s.conf.peer_pub_key =
        key_given s.conf state.0 (fail_if-eq-ok _ no_pub_key a_key) in
      let one : s.peers ≡ 1 =
        one_of_one s.peers (fail_if-eq-ok _ no_peer a_peer)
          (fail_if-eq-ok _ (many_peers s.peers) one_peer) in
      (
        ap (λ (d : Conf). is_empty d.addresses) (sym same)
            ∙ fail_if-eq-ok _ no_address some_address,
        no_failure failure ended,
        omega (arith, state.1, one),
        subst (λ (d : Conf). IsKeyText d.peer_pub_key) same keyed,
      )
    where
      empty_not : (b : Bytes) → b ≡ [] → is_empty b ≡ false → ⊥
      empty_not [] e h = cc
      empty_not (x ∷ xs) e h = cc

      key_given :
          (d : Conf) → IsKeyed d → is_empty d.peer_pub_key ≡ false → IsKeyText d.peer_pub_key
      key_given d (inl none_given) given = absurd (empty_not d.peer_pub_key none_given given)
      key_given d (inr keyed) given = keyed

      one_of_one : (n : ℕ) → (n == 0) ≡ false → ltb 1 n ≡ false → n ≡ 1
      one_of_one n h k = ground arith

      no_failure : (f : Option ℕ) → end_of f ≡ ok tt → f ≡ none
      no_failure none h = refl
      no_failure (some e) h = cc

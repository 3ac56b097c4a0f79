-- ===== src/Wgconf/Secret.antt =====
-- internal/wgconf: the private key of the file.
use encedo_wg_hsm.Common.{
  codes, ℕ, ◌+◌, ◌≡◌, refl, true, Option, List, [], ◌∷◌, Bytes, bytes_eq, to_lower, if◌then◌else◌,
  if_split, ok, >>=-agree,
}
use encedo_wg_hsm.Wgconf.Lines.{setting, read_line}
use encedo_wg_hsm.Wgconf.Settings.{
  Parsers, Conf, interface_key, peer_key, set, set_interface, set_peer,
}
use encedo_wg_hsm.Wgconf.Parse.{Scan, first_scan, scan_line, scan_lines, parse_conf}

-- A line that gives a private key.
pub record IsSecret (line : Bytes) : Type 0 where
  pub key : Bytes
  pub value : Bytes
  pub read : read_line line ≡ setting key value
  pub named : to_lower key ≡ codes "privatekey"

-- Two files that differ in nothing but what their private keys are.
pub data AgreesUpToSecrets : List Bytes → List Bytes → Type 0 where
  both_end : AgreesUpToSecrets [] []
  same_line :
      (line : Bytes) {xs ys : List Bytes}
      → AgreesUpToSecrets xs ys
      → AgreesUpToSecrets (line ∷ xs) (line ∷ ys)
  secret_line :
      (x y : Bytes) {xs ys : List Bytes}
      → IsSecret x
      → IsSecret y
      → AgreesUpToSecrets xs ys
      → AgreesUpToSecrets (x ∷ xs) (y ∷ ys)

module _ (lib : Parsers) where
  -- What a private key leaves behind: that there was one.
  abbrev noted : Bytes → Conf → Conf
  noted name c =
      if bytes_eq (to_lower name) (codes "interface")
      then record c { had_private_key = true }
      else c

  set_private_key :
      (name key value : Bytes) (c : Conf)
      → to_lower key ≡ codes "privatekey"
      → set lib name key value c ≡ ok (noted name c)
  unfolding set set_interface set_peer interface_key peer_key bytes_eq
  set_private_key name key value c h = rw h (
      if_split (λ r. r ≡ ok (noted name c)) (bytes_eq (to_lower name) (codes "interface")) _ _
        (λ i. rw i refl)
        (λ i.
          if_split (λ r. r ≡ ok (noted name c)) (bytes_eq (to_lower name) (codes "peer")) _ _
            (λ j. rw i refl) (λ j. rw i refl)))

  scan_secret :
      (n : ℕ) (line : Bytes) (s : Scan)
      → IsSecret line
      → scan_line lib n (read_line line) s ≡ ok (record s { conf = noted s.name s.conf })
  unfolding scan_line
  scan_secret n line s h = rw (h.read, set_private_key s.name h.key h.value s.conf h.named)

  scan_lines-agree :
      (n : ℕ) {xs ys : List Bytes} (s : Scan)
      → AgreesUpToSecrets xs ys
      → scan_lines lib n xs s ≡ scan_lines lib n ys s
  unfolding scan_lines
  scan_lines-agree n s both_end = refl
  scan_lines-agree n s (same_line line {xs} {ys} rest) =
      >>=-agree (scan_line lib n (read_line line) s) _ _ (λ s'. scan_lines-agree (n + 1) s' rest)
  scan_lines-agree n s (secret_line x y {xs} {ys} h k rest) = rw (
    scan_secret n x s h,
    scan_secret n y s k,
    scan_lines-agree (n + 1) (record s { conf = noted s.name s.conf }) rest,
  )

  -- Two files that differ in nothing but the values and the spelling of their PrivateKey lines
  -- are parsed to the same configuration, or fail with the same error: nothing of a private key gets into
  -- what `Parse` returns.
  pub parse_conf-secret :
      (xs ys : List Bytes) (failure : Option ℕ)
      → AgreesUpToSecrets xs ys
      → parse_conf lib xs failure ≡ parse_conf lib ys failure
  unfolding parse_conf
  parse_conf-secret xs ys failure h = rw (scan_lines-agree 1 first_scan h)

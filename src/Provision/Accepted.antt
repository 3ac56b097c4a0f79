-- ===== src/Provision/Accepted.antt =====
-- internal/provision/peerspec.go: what a peer specification that is accepted says.
use encedo_wg_hsm.Common.{
  codes, ℕ, ◌<◌, ◌^◌, ◌≡◌, refl, sym, ap, ◌∙◌, subst, ◌⊎◌, inl, inr, true, false, not, ◌==◌, ==→eq,
  ltb, Option, none, some, List, [], ◌∷◌, ◌++◌, Bytes, take, drop, replicate, >>=-eq-ok, length,
  is_empty, bytes_eq, trim_space, to_lower, cut, split, if_split, not-eq-false, Result, ok, wrap,
  fail_if, fail_if-eq-ok, ok-injective, arith,
}
use encedo_wg_hsm.Netip.{Addr, invalid, v4, v6, is_valid, unmap}
use encedo_wg_hsm.Descr.Records.{Endpoint, max_hostname}
use encedo_wg_hsm.Provision.Spec.{PeerSpec}
use encedo_wg_hsm.Provision.Text.{
  SpecParsers, pub_key_size, SpecError, empty_spec, not_base64, key_size, no_host_port, bad_port,
  missing_host, long_host, bad_allowed_ip, bad_keepalive, zero_keepalive, missing_key,
  missing_endpoint, missing_allowed_ips, Draft, empty_draft, Field, key_field, label_field,
  endpoint_field, allowed_field, keepalive_field, other_field, field_of, given, literal_or_name,
  parse_endpoint, set_field, set_pair, read_field, read_fields, label_or, finish_spec,
  parse_peer_spec,
}

-- An address, or a name that the record has room for; a name comes with a port that is not zero.
abbrev pub IsDialable : ℕ → Endpoint → Type 0
IsDialable size e =
    (e.port < 65536)
    × ((is_valid e.ip ≡ true)
        ⊎ ((is_empty e.host ≡ false)
            × (ltb (max_hostname size) (length e.host) ≡ false)
            × ((e.port == 0) ≡ false)))

pub record IsSpec (size : ℕ) (p : PeerSpec) : Type 0 where
  pub key : length p.pub_key ≡ pub_key_size
  pub label : is_empty p.label ≡ false
  pub endpoint : IsDialable size p.endpoint
  pub routes : is_empty p.allowed_ips ≡ false
  pub keepalive : p.keepalive < 256

valid-unmap : (a : Addr) → is_valid a ≡ true → is_valid (unmap a) ≡ true
valid-unmap invalid h = h
valid-unmap (v4 b) h = refl
valid-unmap (v6 b zone) h =
    if_split (λ (x : Addr). is_valid x ≡ true)
      (bytes_eq (take 12 b) (replicate 10 0 ++ (255 ∷ 255 ∷ []))) (v4 (drop 12 b)) (v6 b zone)
      (λ c. refl) (λ c. refl)

given-eq-ok : {A : Type 0} (e : SpecError) (o : Option A) {a : A} → given e o ≡ ok a → o ≡ some a
given-eq-ok e (some b) h = ap some (ok-injective h)
given-eq-ok e none h = cc

module _ (size : ℕ) (lib : SpecParsers)
    (addr_port : (s : Bytes) (a : Addr) (n : ℕ)
      → lib.parse_addr_port s ≡ some (a, n)
      → (is_valid a ≡ true) × (n < 65536))
    (uint : (s : Bytes) (b n : ℕ) → lib.parse_uint s b ≡ some n → n < 2 ^ b) where
  literal_or_name-IsDialable :
      (s : Bytes) (o : Option (Addr × ℕ)) {e : Endpoint}
      → lib.parse_addr_port s ≡ o
      → literal_or_name size lib s o ≡ ok e
      → IsDialable size e
  literal_or_name-IsDialable s (some (a, n)) h k =
      let (v, small) = addr_port s a n h in
      subst (IsDialable size) (ok-injective k) (small, inl (valid-unmap a v))
  literal_or_name-IsDialable s none h k =
      let ((host, port_text), e1, k1) =
        >>=-eq-ok (given (no_host_port s) (lib.split_host_port s)) _ k in
      let (port, e2, k2) = >>=-eq-ok (given (bad_port s) (lib.parse_uint port_text 16)) _ k1 in
      let (u1, e3, k3) = >>=-eq-ok (fail_if (port == 0) (bad_port s)) _ k2 in
      let (u2, e4, k4) = >>=-eq-ok (fail_if (is_empty host) (missing_host s)) _ k3 in
      let (u3, e5, k5) =
        >>=-eq-ok (fail_if (ltb (max_hostname size) (length host)) (long_host (length host))) _
          k4 in
      subst (IsDialable size) (ok-injective k5) (
        uint port_text 16 port (given-eq-ok (bad_port s) _ e2),
        inr (
          fail_if-eq-ok _ (missing_host s) e4,
          fail_if-eq-ok _ (long_host (length host)) e5,
          fail_if-eq-ok _ (bad_port s) e3,
        ),
      )

  abbrev IsKeySize : Option Bytes → Type 0
  IsKeySize none = Unit
  IsKeySize (some raw) = length raw ≡ pub_key_size

  -- What the loop keeps: what was read so far is in order.
  record IsDraft (d : Draft) : Type 0 where
    key : IsKeySize d.key
    endpoint : (d.seen_endpoint ≡ false) ⊎ IsDialable size d.endpoint
    keepalive : d.keepalive < 256

  set_field-IsDraft :
      (f : Field) (key value : Bytes) (d : Draft) {d' : Draft}
      → IsDraft d
      → set_field size lib f key value d ≡ ok d'
      → IsDraft d'
  unfolding set_field parse_endpoint
  set_field-IsDraft key_field key value d i h =
      let (raw, e1, h1) = >>=-eq-ok (wrap not_base64 (lib.decode64 value)) _ h in
      let (u, e2, h2) =
        >>=-eq-ok (fail_if (not (length raw == pub_key_size)) (key_size (length raw))) _ h1 in
      subst IsDraft (ok-injective h2) (record {
        key =
            ==→eq (length raw) pub_key_size
              (not-eq-false _ (fail_if-eq-ok _ (key_size (length raw)) e2));
        endpoint = i.endpoint;
        keepalive = i.keepalive;
      })
  set_field-IsDraft label_field key value d i h =
      subst IsDraft (ok-injective h)
        (record { key = i.key; endpoint = i.endpoint; keepalive = i.keepalive })
  set_field-IsDraft endpoint_field key value d i h =
      let (e, e1, h1) = >>=-eq-ok (parse_endpoint size lib value) _ h in
      subst IsDraft (ok-injective h1) (record {
        key = i.key;
        endpoint = inr (literal_or_name-IsDialable value (lib.parse_addr_port value) refl e1);
        keepalive = i.keepalive;
      })
  set_field-IsDraft allowed_field key value d i h =
      let (p, e1, h1) = >>=-eq-ok (wrap (bad_allowed_ip value) (lib.parse_prefix value)) _ h in
      subst IsDraft (ok-injective h1)
        (record { key = i.key; endpoint = i.endpoint; keepalive = i.keepalive })
  set_field-IsDraft keepalive_field key value d i h =
      let (n, e1, h1) = >>=-eq-ok (given (bad_keepalive value) (lib.parse_uint value 8)) _ h in
      let (u, e2, h2) = >>=-eq-ok (fail_if (n == 0) zero_keepalive) _ h1 in
      subst IsDraft (ok-injective h2) (record {
        key = i.key;
        endpoint = i.endpoint;
        keepalive = uint value 8 n (given-eq-ok (bad_keepalive value) _ e1);
      })
  set_field-IsDraft other_field key value d i h = cc

  set_pair-IsDraft :
      (field : Bytes) (o : Option (Bytes × Bytes)) (d : Draft) {d' : Draft}
      → IsDraft d
      → set_pair size lib field o d ≡ ok d'
      → IsDraft d'
  set_pair-IsDraft field none d i h = cc
  set_pair-IsDraft field (some (key, value)) d i h =
      set_field-IsDraft (field_of (trim_space (to_lower key))) (trim_space (to_lower key))
        (trim_space value) d i h

  read_field-IsDraft :
      (field : Bytes) (d : Draft) {d' : Draft}
      → IsDraft d
      → read_field size lib field d ≡ ok d'
      → IsDraft d'
  unfolding read_field
  read_field-IsDraft field d {d'} i =
      if_split (λ (r : Result SpecError Draft). r ≡ ok d' → IsDraft d') (is_empty field) (ok d)
        (set_pair size lib field (cut b'=' field) d) (λ e h. subst IsDraft (ok-injective h) i)
        (λ e h. set_pair-IsDraft field (cut b'=' field) d i h)

  read_fields-IsDraft :
      (fields : List Bytes) (d : Draft) {d' : Draft}
      → IsDraft d
      → read_fields size lib fields d ≡ ok d'
      → IsDraft d'
  unfolding read_fields
  read_fields-IsDraft [] d i h = subst IsDraft (ok-injective h) i
  read_fields-IsDraft (f ∷ fs) d i h =
      let (d1, e, h1) =
        >>=-eq-ok (read_field size lib (trim_space f) d) (read_fields size lib fs) h in
      read_fields-IsDraft fs d1 (read_field-IsDraft (trim_space f) d i e) h1

  label_or-nonempty : (label key : Bytes) → is_empty (label_or size lib label key) ≡ false
  label_or-nonempty label key =
      if_split (λ (l : Bytes). is_empty l ≡ false) (is_empty label)
        (codes "wg peer " ++ take 8 (lib.encode64 key)) label (λ e. refl) (λ e. e)

  -- A peer specification that `ParsePeerSpec` accepts has a public key of 32 bytes, a label, at least one
  -- route, a keepalive below 256, and an endpoint that is a valid address or a name that the record has
  -- room for with a port that is not zero. The numbers that Go's parsers give are in the range asked for, and its
  -- addresses are valid.
  pub parse_peer_spec-IsSpec :
      (s : Bytes) (p : PeerSpec) → parse_peer_spec size lib s ≡ ok p → IsSpec size p
  unfolding parse_peer_spec finish_spec
  parse_peer_spec-IsSpec s p h =
      let (u, e, h1) = >>=-eq-ok (fail_if (is_empty (trim_space s)) empty_spec) _ h in
      let (d, e1, h2) = >>=-eq-ok (read_fields size lib (split b',' s) empty_draft) _ h1 in
      let i =
        read_fields-IsDraft (split b',' s) empty_draft
          (record { key = tt; endpoint = inl refl; keepalive = omega arith }) e1 in
      let (key, e2, h3) = >>=-eq-ok (given missing_key d.key) _ h2 in
      let (u1, e3, h4) = >>=-eq-ok (fail_if (not d.seen_endpoint) missing_endpoint) _ h3 in
      let (u2, e4, h5) = >>=-eq-ok (fail_if (is_empty d.allowed_ips) missing_allowed_ips) _ h4 in
      subst (IsSpec size) (ok-injective h5) (record {
        key = subst IsKeySize (given-eq-ok missing_key d.key e2) i.key;
        label = label_or-nonempty d.label key;
        endpoint =
            seen d i.endpoint (not-eq-false d.seen_endpoint (fail_if-eq-ok _ missing_endpoint e3));
        routes = fail_if-eq-ok _ missing_allowed_ips e4;
        keepalive = i.keepalive;
      })
    where
      seen :
          (d : Draft)
          → (d.seen_endpoint ≡ false) ⊎ IsDialable size d.endpoint
          → d.seen_endpoint ≡ true
          → IsDialable size d.endpoint
      seen d (inl unseen) was_seen = absurd (true_not_false (sym was_seen ∙ unseen))
        where
          true_not_false : true ≡ false → ⊥
          true_not_false e = cc
      seen d (inr e) was_seen = e

-- ===== src/Descr/Peer/Options.antt =====
-- internal/descr/descr.go: the invariant of `DecodePeer` at the tags behind the endpoint.
use encedo_wg_hsm.Descr.Peer.Progress.{PeerProgress}
use encedo_wg_hsm.Common.{
  ℕ, ◌%◌, ◌≤◌, ◌<◌, ◌≡◌, refl, ap, ◌∙◌, true, false, List, [], ◌∷◌, ◌++◌, Bytes, IsByte, All,
  All-append, length, is_empty, ◌==◌, get_or, append-nil, append_assoc, ok, arith, >>=-eq-ok,
  Bool-cases, inl, inr, ==→eq,
}
use encedo_wg_hsm.Netip.{is4, as4, as16, Prefix, IsPrefix}
use encedo_wg_hsm.Descr.Tag
use encedo_wg_hsm.Descr.Records.{TlvItem, psk_wrapped_len}
use encedo_wg_hsm.Descr.Items.{item}
use encedo_wg_hsm.Descr.Inversion.{
  prefix_of_value4-eq-ok, prefix_of_value6-eq-ok, v4_items-snoc4, v6_items-snoc4, v4_items-snoc6,
  v6_items-snoc6,
}
use encedo_wg_hsm.Descr.Progress.{item_if-zero}
use encedo_wg_hsm.Descr.Decode.{has_seen, once, prefix_of_value}
use encedo_wg_hsm.Descr.DecodePeer.{PeerState, read_aip, read_keepalive, read_psk}
use encedo_wg_hsm.Descr.Peer.Layout.{psk_items, peer_items, IsPsk}
use encedo_wg_hsm.Descr.Peer.ReadBack.{add_ips}

read_aip4-eq-ok :
    (v : Bytes) (s : PeerState) {s' : PeerState}
    → read_aip 4 (item Tag.aip4 v) s ≡ ok s'
    → (p : Prefix) × (s' ≡ add_ips s (p ∷ []))
      × (is4 p.addr ≡ true)
      × (as4 p.addr ++ ((p.bits % 256) ∷ []) ≡ v)
      × IsPrefix p
unfolding read_aip
read_aip4-eq-ok v s {s'} h = elim (Bool-cases (length v == 5)) [
  | inl l ↦
      let (p, e, h') = >>=-eq-ok (prefix_of_value v 4) _ (rw l at h) in
      let (a, b, c) = prefix_of_value4-eq-ok v (==→eq (length v) 5 l) e in (p, cc, a, b, c)
  | inr l ↦ cc
]

read_aip6-eq-ok :
    (v : Bytes) (s : PeerState) {s' : PeerState}
    → read_aip 16 (item Tag.aip6 v) s ≡ ok s'
    → (p : Prefix) × (s' ≡ add_ips s (p ∷ []))
      × (is4 p.addr ≡ false)
      × (as16 p.addr ++ ((p.bits % 256) ∷ []) ≡ v)
      × IsPrefix p
unfolding read_aip
read_aip6-eq-ok v s {s'} h = elim (Bool-cases (length v == 17)) [
  | inl l ↦
      let (p, e, h') = >>=-eq-ok (prefix_of_value v 16) _ (rw l at h) in
      let (a, b, c) = prefix_of_value6-eq-ok v (==→eq (length v) 17 l) e in (p, cc, a, b, c)
  | inr l ↦ cc
]

read_keepalive-eq-ok :
    (v : Bytes) (s : PeerState) {s' : PeerState}
    → read_keepalive (item Tag.keepalive v) s ≡ ok s'
    → (s' ≡ record s {
      out = record (s.out) { keepalive = get_or v 0 0 };
      seen = Tag.keepalive ∷ s.seen;
    })
      × (length v ≡ 1)
      × (has_seen s.seen Tag.keepalive ≡ false)
      × ((get_or v 0 0 == 0) ≡ false)
unfolding read_keepalive once
read_keepalive-eq-ok v s h = (ground arith, ground arith, ground arith, ground arith)

read_psk-eq-ok :
    (v : Bytes) (s : PeerState) {s' : PeerState}
    → read_psk (item Tag.psk_wrapped v) s ≡ ok s'
    → (s' ≡ record s { out = record (s.out) { psk_wrapped = v }; seen = Tag.psk_wrapped ∷ s.seen })
      × (length v ≡ psk_wrapped_len)
      × (has_seen s.seen Tag.psk_wrapped ≡ false)
unfolding read_psk once
read_psk-eq-ok v s h = (ground arith, ground arith, ground arith)

one_byte :
    (v : Bytes)
    → length v ≡ 1
    → All IsByte v
    → ((get_or v 0 0 % 256) ∷ [] ≡ v) × (get_or v 0 0 < 256)
one_byte [] l bytes = absurd (omega arith)
one_byte (a ∷ []) l bytes = let e : a % 256 ≡ a = omega arith in (rw e, bytes.0)
one_byte (a ∷ b ∷ v) l bytes = absurd (omega arith)

IsPsk-of_length : (v : Bytes) → length v ≡ psk_wrapped_len → IsPsk v × (is_empty v ≡ false)
IsPsk-of_length [] l = absurd (omega arith)
IsPsk-of_length (c ∷ cs) l = (l, refl)

module _ (size t : ℕ) (before : List TlvItem) (s : PeerState)
    (g : PeerProgress size t before s) where
  pub read_aip4-PeerProgress :
      (v : Bytes) {s' : PeerState}
      → t ≤ 19
      → read_aip 4 (item Tag.aip4 v) s ≡ ok s'
      → PeerProgress size 19 (before ++ (item Tag.aip4 v ∷ [])) s'
  unfolding peer_items has_seen
  read_aip4-PeerProgress v le h =
      let (p, e, four, w, valid) = read_aip4-eq-ok v s h in
      rw e (record {
        layout = λ m. rw (← g.layout m) (
            simp (
              v4_items-snoc4 Tag.aip4 p s.out.allowed_ips four,
              v6_items-snoc4 Tag.aip6 p s.out.allowed_ips four,
              w,
              g.no_aip6 (omega arith),
              item_if-zero s.out.keepalive Tag.keepalive ((s.out.keepalive % 256) ∷ [])
                  (g.no_keepalive (omega arith)),
              ap psk_items (g.no_psk (omega arith)),
              append-nil,
              append_assoc,
            ));
        no_endpoint = g.no_endpoint;
        endpoint = g.endpoint;
        allowed_ips = All-append IsPrefix s.out.allowed_ips (p ∷ []) g.allowed_ips (valid, tt);
        keepalive = g.keepalive;
        psk = g.psk;
        no_aip4 = λ m. absurd (omega arith);
        no_aip6 = λ _. v6_items-snoc4 Tag.aip6 p s.out.allowed_ips four ∙ g.no_aip6 (omega arith);
        no_keepalive = λ _. g.no_keepalive (omega arith);
        no_psk = λ _. g.no_psk (omega arith);
        keepalive_seen = g.keepalive_seen;
        psk_seen = g.psk_seen;
      })

  pub read_aip6-PeerProgress :
      (v : Bytes) {s' : PeerState}
      → t ≤ 20
      → read_aip 16 (item Tag.aip6 v) s ≡ ok s'
      → PeerProgress size 20 (before ++ (item Tag.aip6 v ∷ [])) s'
  unfolding peer_items has_seen
  read_aip6-PeerProgress v le h =
      let (p, e, six, w, valid) = read_aip6-eq-ok v s h in
      rw e (record {
        layout = λ m. rw (← g.layout m) (
            simp (
              v4_items-snoc6 Tag.aip4 p s.out.allowed_ips six,
              v6_items-snoc6 Tag.aip6 p s.out.allowed_ips six,
              w,
              item_if-zero s.out.keepalive Tag.keepalive ((s.out.keepalive % 256) ∷ [])
                  (g.no_keepalive (omega arith)),
              ap psk_items (g.no_psk (omega arith)),
              append-nil,
              append_assoc,
            ));
        no_endpoint = g.no_endpoint;
        endpoint = g.endpoint;
        allowed_ips = All-append IsPrefix s.out.allowed_ips (p ∷ []) g.allowed_ips (valid, tt);
        keepalive = g.keepalive;
        psk = g.psk;
        no_aip4 = λ m. absurd (omega arith);
        no_aip6 = λ m. absurd (omega arith);
        no_keepalive = λ _. g.no_keepalive (omega arith);
        no_psk = λ _. g.no_psk (omega arith);
        keepalive_seen = g.keepalive_seen;
        psk_seen = g.psk_seen;
      })

  pub read_keepalive-PeerProgress :
      (v : Bytes) {s' : PeerState}
      → All IsByte v
      → t ≤ 21
      → read_keepalive (item Tag.keepalive v) s ≡ ok s'
      → PeerProgress size 21 (before ++ (item Tag.keepalive v ∷ [])) s'
  unfolding peer_items has_seen
  read_keepalive-PeerProgress v bytes le h =
      let (e, l, fresh, nz) = read_keepalive-eq-ok v s h in
      let (w, small) = one_byte v l bytes in
      rw e (record {
        layout = λ m. rw (← g.layout m) (
            simp (
              nz,
              w,
              item_if-zero s.out.keepalive Tag.keepalive ((s.out.keepalive % 256) ∷ [])
                  (g.keepalive_seen fresh),
              ap psk_items (g.no_psk (omega arith)),
              append-nil,
              append_assoc,
            ));
        no_endpoint = g.no_endpoint;
        endpoint = g.endpoint;
        allowed_ips = g.allowed_ips;
        keepalive = small;
        psk = g.psk;
        no_aip4 = λ m. absurd (omega arith);
        no_aip6 = λ m. absurd (omega arith);
        no_keepalive = λ m. absurd (omega arith);
        no_psk = λ _. g.no_psk (omega arith);
        keepalive_seen = λ m. cc;
        psk_seen = g.psk_seen;
      })

  pub read_psk-PeerProgress :
      (v : Bytes) {s' : PeerState}
      → t ≤ 22
      → read_psk (item Tag.psk_wrapped v) s ≡ ok s'
      → PeerProgress size 22 (before ++ (item Tag.psk_wrapped v ∷ [])) s'
  unfolding peer_items has_seen
  read_psk-PeerProgress v le h =
      let (e, l, fresh) = read_psk-eq-ok v s h in
      let (whole, full) = IsPsk-of_length v l in
      rw e (record {
        layout = λ m.
            rw (← g.layout m)
              (simp (full, ap psk_items (g.psk_seen fresh), append-nil, append_assoc));
        no_endpoint = g.no_endpoint;
        endpoint = g.endpoint;
        allowed_ips = g.allowed_ips;
        keepalive = g.keepalive;
        psk = whole;
        no_aip4 = λ m. absurd (omega arith);
        no_aip6 = λ m. absurd (omega arith);
        no_keepalive = λ m. absurd (omega arith);
        no_psk = λ m. absurd (omega arith);
        keepalive_seen = g.keepalive_seen;
        psk_seen = λ m. cc;
      })

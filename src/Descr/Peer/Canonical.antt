-- ===== src/Descr/Peer/Canonical.antt =====
-- internal/descr/descr.go: `Peer.Encode` after `DecodePeer`.
use encedo_wg_hsm.Common.{
  ℕ, ◌+◌, ◌≤◌, ◌≡◌, refl, sym, ap, ◌∙◌, subst, false, not, List, [], ◌∷◌, ◌++◌, Bytes, IsByte, All,
  length, replicate, length-append, length-replicate, ltb, ◌==◌, append-nil, append_assoc, ok,
  arith, Bool-cases, inl, inr, ==→eq, ◌>>◌, >>=-eq-ok, fail_if,
}
use encedo_wg_hsm.Descr.Tag
use encedo_wg_hsm.Descr.Records.{Peer, TlvItem, magic_peer, endpoint_count}
use encedo_wg_hsm.Descr.Items.{item, Ascending}
use encedo_wg_hsm.Descr.Framing.{framed, parse-eq-ok}
use encedo_wg_hsm.Descr.Canonical.{ItemBytes, framed-ItemBytes, padded-append}
use encedo_wg_hsm.Descr.Encode.{padded, finish, encode_peer}
use encedo_wg_hsm.Descr.Decode.{parse}
use encedo_wg_hsm.Descr.DecodePeer.{PeerState, empty_peer, peer_step, peer_loop, decode_peer}
use encedo_wg_hsm.Descr.Peer.Layout.{peer_items, IsPeer, encode_peer-items}
use encedo_wg_hsm.Descr.Peer.Progress.{
  PeerProgress, read_ip4-PeerProgress, read_ip6-PeerProgress, read_host-PeerProgress,
}
use encedo_wg_hsm.Descr.Peer.Options.{
  read_aip4-PeerProgress, read_aip6-PeerProgress, read_keepalive-PeerProgress,
  read_psk-PeerProgress,
}

module _ (size : ℕ) (v : Bytes) (t : ℕ) (before : List TlvItem) (s s' : PeerState)
    (g : PeerProgress size t before s) (bytes : All IsByte v) where
  -- What the switch does with the tag `tag`.
  abbrev Keeps : ℕ → Type 0
  Keeps tag =
      t ≤ tag
      → peer_step size (item tag v) s ≡ ok s'
      → PeerProgress size tag (before ++ (item tag v ∷ [])) s'

  endpoint4-Keeps : Keeps Tag.endpoint4
  unfolding peer_step
  endpoint4-Keeps le h = read_ip4-PeerProgress size t before s g v bytes le h

  endpoint6-Keeps : Keeps Tag.endpoint6
  unfolding peer_step
  endpoint6-Keeps le h = read_ip6-PeerProgress size t before s g v bytes le h

  endpoint_host-Keeps : Keeps Tag.endpoint_host
  unfolding peer_step
  endpoint_host-Keeps le h = read_host-PeerProgress size t before s g v bytes le h

  aip4-Keeps : Keeps Tag.aip4
  unfolding peer_step
  aip4-Keeps le h = read_aip4-PeerProgress size t before s g v le h

  aip6-Keeps : Keeps Tag.aip6
  unfolding peer_step
  aip6-Keeps le h = read_aip6-PeerProgress size t before s g v le h

  keepalive-Keeps : Keeps Tag.keepalive
  unfolding peer_step
  keepalive-Keeps le h = read_keepalive-PeerProgress size t before s g v bytes le h

  psk_wrapped-Keeps : Keeps Tag.psk_wrapped
  unfolding peer_step
  psk_wrapped-Keeps le h = read_psk-PeerProgress size t before s g v le h

  other-Keeps :
      (tag : ℕ)
      → (tag == Tag.endpoint4) ≡ false
      → (tag == Tag.endpoint6) ≡ false
      → (tag == Tag.endpoint_host) ≡ false
      → (tag == Tag.aip4) ≡ false
      → (tag == Tag.aip6) ≡ false
      → (tag == Tag.keepalive) ≡ false
      → (tag == Tag.psk_wrapped) ≡ false
      → Keeps tag
  unfolding peer_step
  other-Keeps tag n1 n2 n3 n4 n5 n6 n7 le h = ground arith

  peer_step-Keeps : (tag : ℕ) → Keeps tag
  peer_step-Keeps tag = elim (Bool-cases (tag == Tag.endpoint4)) [
    | inl e ↦ subst Keeps (sym (==→eq tag Tag.endpoint4 e)) endpoint4-Keeps
    | inr n1 ↦ elim (Bool-cases (tag == Tag.endpoint6)) [
      | inl e ↦ subst Keeps (sym (==→eq tag Tag.endpoint6 e)) endpoint6-Keeps
      | inr n2 ↦ elim (Bool-cases (tag == Tag.endpoint_host)) [
        | inl e ↦ subst Keeps (sym (==→eq tag Tag.endpoint_host e)) endpoint_host-Keeps
        | inr n3 ↦ elim (Bool-cases (tag == Tag.aip4)) [
          | inl e ↦ subst Keeps (sym (==→eq tag Tag.aip4 e)) aip4-Keeps
          | inr n4 ↦ elim (Bool-cases (tag == Tag.aip6)) [
            | inl e ↦ subst Keeps (sym (==→eq tag Tag.aip6 e)) aip6-Keeps
            | inr n5 ↦ elim (Bool-cases (tag == Tag.keepalive)) [
              | inl e ↦ subst Keeps (sym (==→eq tag Tag.keepalive e)) keepalive-Keeps
              | inr n6 ↦ elim (Bool-cases (tag == Tag.psk_wrapped)) [
                | inl e ↦ subst Keeps (sym (==→eq tag Tag.psk_wrapped e)) psk_wrapped-Keeps
                | inr n7 ↦ other-Keeps tag n1 n2 n3 n4 n5 n6 n7
              ]
            ]
          ]
        ]
      ]
    ]
  ]

peer_loop-PeerProgress :
    (size : ℕ) (items : List TlvItem) (t : ℕ) (before : List TlvItem) (s : PeerState)
    {s' : PeerState}
    → PeerProgress size t before s
    → Ascending t items
    → All ItemBytes items
    → peer_loop size items s ≡ ok s'
    → (k : ℕ) × PeerProgress size k (before ++ items) s'
unfolding peer_loop
peer_loop-PeerProgress size [] t before s {s'} g asc bytes h =
    let e : s ≡ s' = cc in rw (append-nil, ← e) (t, g)
peer_loop-PeerProgress size (it ∷ rest) t before s g asc bytes h =
    let (s1, step, later) = >>=-eq-ok (peer_step size it s) _ h in
    let g1 = peer_step-Keeps size it.value t before s s1 g bytes.0 it.tag asc.0 step in
    rw (← append_assoc before (it ∷ []) rest)
      (peer_loop-PeerProgress size rest it.tag (before ++ (it ∷ [])) s1 g1 asc.3 bytes.1 later)

PeerProgress-start :
    (size : ℕ) → PeerProgress size 0 [] (record { out = empty_peer; seen = []; endpoints = 0 })
unfolding peer_items
PeerProgress-start size = record {
  layout = λ _. refl;
  no_endpoint = λ _. refl;
  endpoint = λ h. absurd (omega arith);
  allowed_ips = tt;
  keepalive = omega arith;
  psk = tt;
  no_aip4 = λ _. refl;
  no_aip6 = λ _. refl;
  no_keepalive = λ _. refl;
  no_psk = λ _. refl;
  keepalive_seen = λ _. refl;
  psk_seen = λ _. refl;
}

one_endpoint :
    (s : PeerState) {p : Peer}
    → (fail_if (not (s.endpoints == 1)) (endpoint_count s.endpoints) >> ok s.out) ≡ ok p
    → (s.endpoints ≡ 1) × (s.out ≡ p)
one_endpoint s h = (ground arith, ground arith)

-- What an accepted record is: the frame of the peer's own items, and zeros.
pub decode_peer-frame :
    (size : ℕ) (b : Bytes) {p : Peer}
    → All IsByte b
    → decode_peer size b ≡ ok p
    → (k : ℕ) × (b ≡ framed magic_peer (peer_items p) ++ replicate k 0)
      × IsPeer size p
      × (length b ≤ size)
unfolding decode_peer
decode_peer-frame size b {p} bytes h =
    let (items, parsed, loop) = >>=-eq-ok (parse size b magic_peer) _ h in
    let (k, e, asc, fits) = parse-eq-ok size b magic_peer bytes parsed in
    let (s, run, last) = >>=-eq-ok (peer_loop size items _) _ loop in
    let parts = framed-ItemBytes magic_peer items k (rw (← e) bytes) in
    let (t, g) = peer_loop-PeerProgress size items 0 [] _ (PeerProgress-start size) asc parts run in
    let (one, out) = one_endpoint s last in
    let layout : peer_items s.out ≡ items = g.layout (omega arith) in
    let valid : IsPeer size s.out = record {
      endpoint = (g.endpoint one).0;
      port = (g.endpoint one).1;
      allowed_ips = g.allowed_ips;
      keepalive = g.keepalive;
      psk = g.psk;
    } in
    rw (← out) (k, rw layout e, valid, fits)

-- Every peer that the decoder reads from a record of bytes is encoded to that record, padded to
-- the full size.
pub encode_peer-decode_peer :
    (size : ℕ) (b : Bytes) {p : Peer}
    → All IsByte b
    → decode_peer size b ≡ ok p
    → encode_peer size p ≡ ok (padded size b)
unfolding finish
encode_peer-decode_peer size b {p} bytes h =
    let (k, e, valid, fits) = decode_peer-frame size b bytes h in
    let frame = framed magic_peer (peer_items p) in
    let same : length frame + k ≡ length b =
      ground (arith, length-append frame (replicate k 0), length-replicate {A = ℕ} k 0) in
    let room : ltb size (length frame) ≡ false = ground arith in
    encode_peer-items size p valid
    ∙ rw room (ap ok (sym (rw e (padded-append size k frame (rw (← e) fits)))))

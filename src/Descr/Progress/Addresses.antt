-- ===== src/Descr/Progress/Addresses.antt =====
-- internal/descr/descr.go: the invariant of `DecodeInterface` is kept by the tags that repeat.
use encedo_wg_hsm.Descr.Progress.{
  Progress, IsInterface-addrs, IsInterface-dns, IsInterface-peer_refs, none_mtu, none_refs,
  none_port, none_mac,
}
use encedo_wg_hsm.Common.{
  ℕ, ◌%◌, ◌≤◌, ◌≡◌, refl, ◌∙◌, true, false, List, [], ◌∷◌, ◌++◌, Bytes, All-append, length, ◌==◌,
  append-nil, append_assoc, ok, arith, Bool-cases, inl, inr, ==→eq, >>=-eq-ok,
}
use encedo_wg_hsm.Netip.{v4, v6, is4, as4, as16, Prefix, IsPrefix}
use encedo_wg_hsm.Descr.Tag
use encedo_wg_hsm.Descr.Records.{TlvItem}
use encedo_wg_hsm.Descr.Items.{item}
use encedo_wg_hsm.Descr.Layout.{interface_items, IsServer, IsRef}
use encedo_wg_hsm.Descr.Inversion.{
  prefix_of_value4-eq-ok, prefix_of_value6-eq-ok, addr_of_value4, addr_of_value6, v4_items-snoc4,
  v6_items-snoc4, v4_items-snoc6, v6_items-snoc6, dns4_items-snoc4, dns6_items-snoc4,
  dns4_items-snoc6, dns6_items-snoc6, ref_items-snoc,
}
use encedo_wg_hsm.Descr.ReadBack.{add_addrs, add_dns, add_refs}
use encedo_wg_hsm.Descr.Decode.{
  has_seen, prefix_of_value, InterfaceState, read_addr, read_dns, read_ref,
}

read_addr4-eq-ok :
    (v : Bytes) (s : InterfaceState) {s' : InterfaceState}
    → read_addr 4 (item Tag.addr4 v) s ≡ ok s'
    → (p : Prefix) × (s' ≡ add_addrs s (p ∷ []))
      × (is4 p.addr ≡ true)
      × (as4 p.addr ++ ((p.bits % 256) ∷ []) ≡ v)
      × IsPrefix p
unfolding read_addr
read_addr4-eq-ok v s {s'} h = elim (Bool-cases (length v == 5)) [
  | inl l ↦
      let (p, e, h') = >>=-eq-ok (prefix_of_value v 4) _ (rw l at h) in
      let (a, b, c) = prefix_of_value4-eq-ok v (==→eq (length v) 5 l) e in (p, cc, a, b, c)
  | inr l ↦ cc
]

read_addr6-eq-ok :
    (v : Bytes) (s : InterfaceState) {s' : InterfaceState}
    → read_addr 16 (item Tag.addr6 v) s ≡ ok s'
    → (p : Prefix) × (s' ≡ add_addrs s (p ∷ []))
      × (is4 p.addr ≡ false)
      × (as16 p.addr ++ ((p.bits % 256) ∷ []) ≡ v)
      × IsPrefix p
unfolding read_addr
read_addr6-eq-ok v s {s'} h = elim (Bool-cases (length v == 17)) [
  | inl l ↦
      let (p, e, h') = >>=-eq-ok (prefix_of_value v 16) _ (rw l at h) in
      let (a, b, c) = prefix_of_value6-eq-ok v (==→eq (length v) 17 l) e in (p, cc, a, b, c)
  | inr l ↦ cc
]

read_dns4-eq-ok :
    (v : Bytes) (s : InterfaceState) {s' : InterfaceState}
    → read_dns 4 (item Tag.dns4 v) s ≡ ok s'
    → (s' ≡ add_dns s (v4 v ∷ [])) × (length v ≡ 4)
unfolding read_dns
read_dns4-eq-ok v s h = (ground (arith, addr_of_value4 v), ground arith)

read_dns6-eq-ok :
    (v : Bytes) (s : InterfaceState) {s' : InterfaceState}
    → read_dns 16 (item Tag.dns6 v) s ≡ ok s'
    → (s' ≡ add_dns s (v6 v [] ∷ [])) × (length v ≡ 16)
unfolding read_dns
read_dns6-eq-ok v s h = (ground (arith, addr_of_value6 v), ground arith)

read_ref-eq-ok :
    (v : Bytes) (s : InterfaceState) {s' : InterfaceState}
    → read_ref (item Tag.peer_ref v) s ≡ ok s'
    → (s' ≡ add_refs s (v ∷ [])) × (length v ≡ 4)
unfolding read_ref
read_ref-eq-ok v s h = (ground arith, ground arith)

module _ (t : ℕ) (before : List TlvItem) (s : InterfaceState) (g : Progress t before s) where
  pub read_addr4-Progress :
      (v : Bytes) {s' : InterfaceState}
      → t ≤ 1
      → has_seen s.seen Tag.mac ≡ false
      → read_addr 4 (item Tag.addr4 v) s ≡ ok s'
      → Progress 1 (before ++ (item Tag.addr4 v ∷ [])) s'
  unfolding interface_items
  read_addr4-Progress v le o h =
      let (p, e, four, w, valid) = read_addr4-eq-ok v s h in
      rw e (record {
        layout = rw (← g.layout) (
            simp (
              v4_items-snoc4 Tag.addr4 p s.out.addrs four,
              v6_items-snoc4 Tag.addr6 p s.out.addrs four,
              w,
              g.no_addr6 (omega arith),
              none_mtu t before s g (omega arith),
              g.no_dns4 (omega arith),
              g.no_dns6 (omega arith),
              none_refs t before s g (omega arith),
              none_port t before s g (omega arith),
              none_mac t before s g o,
              append-nil,
            ));
        valid =
            IsInterface-addrs g.valid _
              (All-append IsPrefix s.out.addrs (p ∷ []) g.valid.addrs (valid, tt));
        no_addr6 = λ _. v6_items-snoc4 Tag.addr6 p s.out.addrs four ∙ g.no_addr6 (omega arith);
        no_mtu = λ _. g.no_mtu (omega arith);
        no_dns4 = λ _. g.no_dns4 (omega arith);
        no_dns6 = λ _. g.no_dns6 (omega arith);
        no_refs = λ _. g.no_refs (omega arith);
        no_port = λ _. g.no_port (omega arith);
        mtu_seen = g.mtu_seen;
        port_seen = g.port_seen;
        mac_seen = g.mac_seen;
      })

  pub read_addr6-Progress :
      (v : Bytes) {s' : InterfaceState}
      → t ≤ 2
      → has_seen s.seen Tag.mac ≡ false
      → read_addr 16 (item Tag.addr6 v) s ≡ ok s'
      → Progress 2 (before ++ (item Tag.addr6 v ∷ [])) s'
  unfolding interface_items
  read_addr6-Progress v le o h =
      let (p, e, six, w, valid) = read_addr6-eq-ok v s h in
      rw e (record {
        layout = rw (← g.layout) (
            simp (
              v4_items-snoc6 Tag.addr4 p s.out.addrs six,
              v6_items-snoc6 Tag.addr6 p s.out.addrs six,
              w,
              none_mtu t before s g (omega arith),
              g.no_dns4 (omega arith),
              g.no_dns6 (omega arith),
              none_refs t before s g (omega arith),
              none_port t before s g (omega arith),
              none_mac t before s g o,
              append-nil,
              append_assoc,
            ));
        valid =
            IsInterface-addrs g.valid _
              (All-append IsPrefix s.out.addrs (p ∷ []) g.valid.addrs (valid, tt));
        no_addr6 = λ k. absurd (omega arith);
        no_mtu = λ _. g.no_mtu (omega arith);
        no_dns4 = λ _. g.no_dns4 (omega arith);
        no_dns6 = λ _. g.no_dns6 (omega arith);
        no_refs = λ _. g.no_refs (omega arith);
        no_port = λ _. g.no_port (omega arith);
        mtu_seen = g.mtu_seen;
        port_seen = g.port_seen;
        mac_seen = g.mac_seen;
      })

  pub read_dns4-Progress :
      (v : Bytes) {s' : InterfaceState}
      → t ≤ 4
      → has_seen s.seen Tag.mac ≡ false
      → read_dns 4 (item Tag.dns4 v) s ≡ ok s'
      → Progress 4 (before ++ (item Tag.dns4 v ∷ [])) s'
  unfolding interface_items
  read_dns4-Progress v le o h =
      let (e, l) = read_dns4-eq-ok v s h in
      rw e (record {
        layout = rw (← g.layout) (
            simp (
              dns4_items-snoc4 v s.out.dns,
              dns6_items-snoc4 v s.out.dns,
              g.no_dns6 (omega arith),
              none_refs t before s g (omega arith),
              none_port t before s g (omega arith),
              none_mac t before s g o,
              append-nil,
              append_assoc,
            ));
        valid =
            IsInterface-dns g.valid _
              (All-append IsServer s.out.dns (v4 v ∷ []) g.valid.dns ((l, refl), tt));
        no_addr6 = λ k. absurd (omega arith);
        no_mtu = λ k. absurd (omega arith);
        no_dns4 = λ k. absurd (omega arith);
        no_dns6 = λ _. dns6_items-snoc4 v s.out.dns ∙ g.no_dns6 (omega arith);
        no_refs = λ _. g.no_refs (omega arith);
        no_port = λ _. g.no_port (omega arith);
        mtu_seen = g.mtu_seen;
        port_seen = g.port_seen;
        mac_seen = g.mac_seen;
      })

  pub read_dns6-Progress :
      (v : Bytes) {s' : InterfaceState}
      → t ≤ 5
      → has_seen s.seen Tag.mac ≡ false
      → read_dns 16 (item Tag.dns6 v) s ≡ ok s'
      → Progress 5 (before ++ (item Tag.dns6 v ∷ [])) s'
  unfolding interface_items
  read_dns6-Progress v le o h =
      let (e, l) = read_dns6-eq-ok v s h in
      rw e (record {
        layout = rw (← g.layout) (
            simp (
              dns4_items-snoc6 v s.out.dns,
              dns6_items-snoc6 v s.out.dns,
              none_refs t before s g (omega arith),
              none_port t before s g (omega arith),
              none_mac t before s g o,
              append-nil,
              append_assoc,
            ));
        valid =
            IsInterface-dns g.valid _
              (All-append IsServer s.out.dns (v6 v [] ∷ []) g.valid.dns (((l, refl), refl), tt));
        no_addr6 = λ k. absurd (omega arith);
        no_mtu = λ k. absurd (omega arith);
        no_dns4 = λ k. absurd (omega arith);
        no_dns6 = λ k. absurd (omega arith);
        no_refs = λ _. g.no_refs (omega arith);
        no_port = λ _. g.no_port (omega arith);
        mtu_seen = g.mtu_seen;
        port_seen = g.port_seen;
        mac_seen = g.mac_seen;
      })

  pub read_ref-Progress :
      (v : Bytes) {s' : InterfaceState}
      → t ≤ 6
      → has_seen s.seen Tag.mac ≡ false
      → read_ref (item Tag.peer_ref v) s ≡ ok s'
      → Progress 6 (before ++ (item Tag.peer_ref v ∷ [])) s'
  unfolding interface_items
  read_ref-Progress v le o h =
      let (e, l) = read_ref-eq-ok v s h in
      rw e (record {
        layout = rw (← g.layout) (
            simp (
              ref_items-snoc v s.out.peer_refs,
              none_port t before s g (omega arith),
              none_mac t before s g o,
              append-nil,
              append_assoc,
            ));
        valid =
            IsInterface-peer_refs g.valid _
              (All-append IsRef s.out.peer_refs (v ∷ []) g.valid.peer_refs (l, tt));
        no_addr6 = λ k. absurd (omega arith);
        no_mtu = λ k. absurd (omega arith);
        no_dns4 = λ k. absurd (omega arith);
        no_dns6 = λ k. absurd (omega arith);
        no_refs = λ k. absurd (omega arith);
        no_port = λ _. g.no_port (omega arith);
        mtu_seen = g.mtu_seen;
        port_seen = g.port_seen;
        mac_seen = g.mac_seen;
      })

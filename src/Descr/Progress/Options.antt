-- ===== src/Descr/Progress/Options.antt =====
-- internal/descr/descr.go: the invariant of `DecodeInterface` at the tags that stand once: the MTU,
-- the listen port and the MAC.
use encedo_wg_hsm.Descr.Progress.{
  Progress, IsInterface-mtu, IsInterface-listen_port, IsInterface-mac, none_refs, none_port,
  none_mac, item_if-zero,
}
use encedo_wg_hsm.Common.{
  ℕ, ◌≤◌, ◌≡◌, Bool, true, false, List, [], ◌∷◌, ◌++◌, Bytes, IsByte, All, length, ◌==◌, append-nil,
  append_assoc, ok, arith,
}
use encedo_wg_hsm.Descr.Tag
use encedo_wg_hsm.Descr.Records.{TlvItem, be16, be_uint16, mac_len}
use encedo_wg_hsm.Descr.Items.{item}
use encedo_wg_hsm.Descr.Layout.{interface_items, IsInterface}
use encedo_wg_hsm.Descr.Inversion.{be16-be_uint16}
use encedo_wg_hsm.Descr.Decode.{has_seen, once, InterfaceState, read_mtu, read_port, read_mac}

read_mtu-eq-ok :
    (v : Bytes) (s : InterfaceState) {s' : InterfaceState}
    → read_mtu (item Tag.mtu v) s ≡ ok s'
    → (s' ≡ record { out = record (s.out) { mtu = be_uint16 v }; seen = Tag.mtu ∷ s.seen })
      × (length v ≡ 2)
      × (has_seen s.seen Tag.mtu ≡ false)
      × ((be_uint16 v == 0) ≡ false)
unfolding read_mtu once
read_mtu-eq-ok v s h = (ground arith, ground arith, ground arith, ground arith)

read_port-eq-ok :
    (v : Bytes) (s : InterfaceState) {s' : InterfaceState}
    → read_port (item Tag.listen_port v) s ≡ ok s'
    → (s' ≡ record {
      out = record (s.out) { listen_port = be_uint16 v };
      seen = Tag.listen_port ∷ s.seen;
    })
      × (length v ≡ 2)
      × (has_seen s.seen Tag.listen_port ≡ false)
      × ((be_uint16 v == 0) ≡ false)
unfolding read_port once
read_port-eq-ok v s h = (ground arith, ground arith, ground arith, ground arith)

read_mac-eq-ok :
    (last : Bool) (v : Bytes) (s : InterfaceState) {s' : InterfaceState}
    → read_mac last (item Tag.mac v) s ≡ ok s'
    → (s' ≡ record { out = record (s.out) { mac = v; has_mac = true }; seen = Tag.mac ∷ s.seen })
      × (length v ≡ mac_len)
      × (last ≡ true)
unfolding read_mac once
read_mac-eq-ok last v s h = (ground arith, ground arith, ground arith)

module _ (t : ℕ) (before : List TlvItem) (s : InterfaceState) (g : Progress t before s) where
  pub read_mtu-Progress :
      (v : Bytes) {s' : InterfaceState}
      → All IsByte v
      → t ≤ 3
      → has_seen s.seen Tag.mac ≡ false
      → read_mtu (item Tag.mtu v) s ≡ ok s'
      → Progress 3 (before ++ (item Tag.mtu v ∷ [])) s'
  unfolding interface_items has_seen
  read_mtu-Progress v bytes le o h =
      let (e, l, fresh, nz) = read_mtu-eq-ok v s h in
      let (w, small) = be16-be_uint16 v l bytes in
      rw e (record {
        layout = rw (← g.layout) (
            simp (
              nz,
              w,
              item_if-zero s.out.mtu Tag.mtu (be16 s.out.mtu) (g.mtu_seen fresh),
              g.no_dns4 (omega arith),
              g.no_dns6 (omega arith),
              none_refs t before s g (omega arith),
              none_port t before s g (omega arith),
              none_mac t before s g o,
              append-nil,
              append_assoc,
            ));
        valid = IsInterface-mtu g.valid _ small;
        no_addr6 = λ k. absurd (omega arith);
        no_mtu = λ k. absurd (omega arith);
        no_dns4 = λ _. g.no_dns4 (omega arith);
        no_dns6 = λ _. g.no_dns6 (omega arith);
        no_refs = λ _. g.no_refs (omega arith);
        no_port = λ _. g.no_port (omega arith);
        mtu_seen = λ k. cc;
        port_seen = g.port_seen;
        mac_seen = g.mac_seen;
      })

  pub read_port-Progress :
      (v : Bytes) {s' : InterfaceState}
      → All IsByte v
      → t ≤ 7
      → has_seen s.seen Tag.mac ≡ false
      → read_port (item Tag.listen_port v) s ≡ ok s'
      → Progress 7 (before ++ (item Tag.listen_port v ∷ [])) s'
  unfolding interface_items has_seen
  read_port-Progress v bytes le o h =
      let (e, l, fresh, nz) = read_port-eq-ok v s h in
      let (w, small) = be16-be_uint16 v l bytes in
      rw e (record {
        layout = rw (← g.layout) (
            simp (
              nz,
              w,
              item_if-zero s.out.listen_port Tag.listen_port (be16 s.out.listen_port)
                  (g.port_seen fresh),
              none_mac t before s g o,
              append-nil,
              append_assoc,
            ));
        valid = IsInterface-listen_port g.valid _ small;
        no_addr6 = λ k. absurd (omega arith);
        no_mtu = λ k. absurd (omega arith);
        no_dns4 = λ k. absurd (omega arith);
        no_dns6 = λ k. absurd (omega arith);
        no_refs = λ k. absurd (omega arith);
        no_port = λ k. absurd (omega arith);
        mtu_seen = g.mtu_seen;
        port_seen = λ k. cc;
        mac_seen = g.mac_seen;
      })

  pub read_mac-layout :
      (last : Bool) (v : Bytes) {s' : InterfaceState}
      → has_seen s.seen Tag.mac ≡ false
      → read_mac last (item Tag.mac v) s ≡ ok s'
      → (interface_items s'.out ≡ before ++ (item Tag.mac v ∷ []))
        × IsInterface s'.out
        × (last ≡ true)
  unfolding interface_items
  read_mac-layout last v o h =
      let (e, l, end) = read_mac-eq-ok last v s h in
      rw e (
        rw (← g.layout) (simp (none_mac t before s g o, append-nil, append_assoc)),
        IsInterface-mac g.valid v l,
        end,
      )

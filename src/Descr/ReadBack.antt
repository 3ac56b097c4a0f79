-- ===== src/Descr/ReadBack.antt =====
-- internal/descr/descr.go: the loop of `DecodeInterface` on the items that `Interface.Encode`
-- writes, one lemma for each group of items.
use encedo_wg_hsm.Common.{
  ℕ, ◌%◌, ◌<◌, ◌≡◌, ◌∙◌, Bool, true, false, List, [], ◌∷◌, ◌++◌, Bytes, All, length, is_empty,
  if◌then◌else◌, take, get_or, append-nil, append_assoc, take-length_append, get_or-length_append,
  ok, arith, leb→le, Bool-cases, inl, inr,
}
use encedo_wg_hsm.Netip.{
  Addr, invalid, v4, v6, is_valid, is4, as4, as16, Prefix, IsPrefix, addr_from_slice,
}
use encedo_wg_hsm.Descr.Tag
use encedo_wg_hsm.Descr.Records.{TlvItem, peer_ref_len, PeerRef}
use encedo_wg_hsm.Descr.Items.{item}
use encedo_wg_hsm.Descr.Layout.{
  v4_items, v6_items, dns4_items, dns6_items, ref_items, IsServer, IsRef, length-as4, length-as16,
}
use encedo_wg_hsm.Descr.Decode.{
  has_seen, prefix_of_value, addr_of_value, InterfaceState, with_out, read_addr, read_dns, read_ref,
  interface_switch, interface_step, interface_loop,
}

abbrev pub v4_prefixes : List Prefix → List Prefix
v4_prefixes [] = []
v4_prefixes (p ∷ ps) = if is4 p.addr then p ∷ v4_prefixes ps else v4_prefixes ps

abbrev pub v6_prefixes : List Prefix → List Prefix
v6_prefixes [] = []
v6_prefixes (p ∷ ps) = if is4 p.addr then v6_prefixes ps else p ∷ v6_prefixes ps

abbrev pub v4_addrs : List Addr → List Addr
v4_addrs [] = []
v4_addrs (d ∷ ds) = if is4 d then d ∷ v4_addrs ds else v4_addrs ds

abbrev pub v6_addrs : List Addr → List Addr
v6_addrs [] = []
v6_addrs (d ∷ ds) = if is4 d then v6_addrs ds else d ∷ v6_addrs ds

-- A written prefix reads back as itself.
prefix_of_value_bytes :
    (b : Bytes) (n : ℕ)
    → n < 256
    → (take (length b) (b ++ ((n % 256) ∷ [])) ≡ b)
      × (get_or (b ++ ((n % 256) ∷ [])) (length b) 0 ≡ n)
prefix_of_value_bytes b n h =
    (take-length_append b _, get_or-length_append b [] (n % 256) 0 ∙ omega arith)

pub prefix_of_value4 :
    (a : Addr) (n : ℕ)
    → IsPrefix (record { addr = a; bits = n })
    → is4 a ≡ true
    → prefix_of_value (as4 a ++ ((n % 256) ∷ [])) 4 ≡ ok (record { addr = a; bits = n })
unfolding prefix_of_value
prefix_of_value4 invalid n h e = cc
prefix_of_value4 (v4 b) n h e =
    let small : n < 256 = omega (arith, leb→le n 32 h.1) in
    let (front, last) = prefix_of_value_bytes b n small in
    let front' : take 4 (b ++ ((n % 256) ∷ [])) ≡ b = rw (h.0) at front in
    let last' : get_or (b ++ ((n % 256) ∷ [])) 4 0 ≡ n = rw (h.0) at last in ground arith
prefix_of_value4 (v6 b zone) n h e = cc

pub prefix_of_value6 :
    (a : Addr) (n : ℕ)
    → IsPrefix (record { addr = a; bits = n })
    → is4 a ≡ false
    → prefix_of_value (as16 a ++ ((n % 256) ∷ [])) 16 ≡ ok (record { addr = a; bits = n })
unfolding prefix_of_value
prefix_of_value6 invalid n h e = cc
prefix_of_value6 (v4 b) n h e = cc
prefix_of_value6 (v6 b zone) n h e =
    let small : n < 256 = omega (arith, leb→le n 128 h.1) in
    let (front, last) = prefix_of_value_bytes b n small in
    let front' : take 16 (b ++ ((n % 256) ∷ [])) ≡ b = rw (h.0.0) at front in
    let last' : get_or (b ++ ((n % 256) ∷ [])) 16 0 ≡ n = rw (h.0.0) at last in ground arith

-- The state after some addresses, servers and references.
abbrev pub add_addrs : InterfaceState → List Prefix → InterfaceState
add_addrs s ps = with_out s (record (s.out) { addrs = s.out.addrs ++ ps })

abbrev pub add_dns : InterfaceState → List Addr → InterfaceState
add_dns s ds = with_out s (record (s.out) { dns = s.out.dns ++ ds })

abbrev pub add_refs : InterfaceState → List PeerRef → InterfaceState
add_refs s rs = with_out s (record (s.out) { peer_refs = s.out.peer_refs ++ rs })

abbrev pub Open : InterfaceState → Type 0
Open s = has_seen s.seen Tag.mac ≡ false

-- One step on each tag.
module _ (last : Bool) (v : Bytes) (s : InterfaceState) (o : Open s) where
  interface_step-addr4 :
      (p : Prefix)
      → length v ≡ 5
      → prefix_of_value v 4 ≡ ok p
      → interface_step last (item Tag.addr4 v) s ≡ ok (add_addrs s (p ∷ []))
  unfolding interface_step interface_switch read_addr
  interface_step-addr4 p l h = rw (o, l, h)

  interface_step-addr6 :
      (p : Prefix)
      → length v ≡ 17
      → prefix_of_value v 16 ≡ ok p
      → interface_step last (item Tag.addr6 v) s ≡ ok (add_addrs s (p ∷ []))
  unfolding interface_step interface_switch read_addr
  interface_step-addr6 p l h = rw (o, l, h)

  interface_step-dns4 :
      length v ≡ 4 → interface_step last (item Tag.dns4 v) s ≡ ok (add_dns s (v4 v ∷ []))
  unfolding interface_step interface_switch read_dns addr_of_value addr_from_slice
  interface_step-dns4 l = rw (o, l)

  interface_step-dns6 :
      length v ≡ 16 → interface_step last (item Tag.dns6 v) s ≡ ok (add_dns s (v6 v [] ∷ []))
  unfolding interface_step interface_switch read_dns addr_of_value addr_from_slice
  interface_step-dns6 l = rw (o, l)

  interface_step-peer_ref :
      length v ≡ peer_ref_len
      → interface_step last (item Tag.peer_ref v) s ≡ ok (add_refs s (v ∷ []))
  unfolding interface_step interface_switch read_ref
  interface_step-peer_ref l = rw (o, l)

pub interface_loop-v4 :
    (ps : List Prefix) (rest : List TlvItem) (s : InterfaceState)
    → All IsPrefix ps
    → Open s
    → interface_loop (v4_items Tag.addr4 ps ++ rest) s
      ≡ interface_loop rest (add_addrs s (v4_prefixes ps))
unfolding interface_loop
interface_loop-v4 [] rest s h o = rw append-nil
interface_loop-v4 (p ∷ ps) rest s h o = elim (Bool-cases (is4 p.addr)) [
  | inl e ↦
      let v = as4 p.addr ++ ((p.bits % 256) ∷ []) in
      let step =
        interface_step-addr4 (is_empty (v4_items Tag.addr4 ps ++ rest)) v s o p
          (length-as4 p.addr _ h.0.0 e) (prefix_of_value4 p.addr p.bits h.0 e) in
      rw e (rw step (interface_loop-v4 ps rest (add_addrs s (p ∷ [])) h.1 o ∙ rw append_assoc))
  | inr e ↦ rw e (interface_loop-v4 ps rest s h.1 o)
]

pub interface_loop-v6 :
    (ps : List Prefix) (rest : List TlvItem) (s : InterfaceState)
    → All IsPrefix ps
    → Open s
    → interface_loop (v6_items Tag.addr6 ps ++ rest) s
      ≡ interface_loop rest (add_addrs s (v6_prefixes ps))
unfolding interface_loop
interface_loop-v6 [] rest s h o = rw append-nil
interface_loop-v6 (p ∷ ps) rest s h o = elim (Bool-cases (is4 p.addr)) [
  | inl e ↦ rw e (interface_loop-v6 ps rest s h.1 o)
  | inr e ↦
      let v = as16 p.addr ++ ((p.bits % 256) ∷ []) in
      let valid : is_valid p.addr ≡ true = ground arith in
      let step =
        interface_step-addr6 (is_empty (v6_items Tag.addr6 ps ++ rest)) v s o p
          (length-as16 p.addr _ h.0.0 valid e) (prefix_of_value6 p.addr p.bits h.0 e) in
      rw e (rw step (interface_loop-v6 ps rest (add_addrs s (p ∷ [])) h.1 o ∙ rw append_assoc))
]

pub interface_loop-dns4 :
    (ds : List Addr) (rest : List TlvItem) (s : InterfaceState)
    → All IsServer ds
    → Open s
    → interface_loop (dns4_items ds ++ rest) s ≡ interface_loop rest (add_dns s (v4_addrs ds))
unfolding interface_loop
interface_loop-dns4 [] rest s h o = rw append-nil
interface_loop-dns4 (invalid ∷ ds) rest s h o = cc
interface_loop-dns4 (v4 b ∷ ds) rest s h o =
    rw (interface_step-dns4 (is_empty (dns4_items ds ++ rest)) b s o h.0.0)
      (interface_loop-dns4 ds rest (add_dns s (v4 b ∷ [])) h.1 o ∙ rw append_assoc)
interface_loop-dns4 (v6 b zone ∷ ds) rest s h o = interface_loop-dns4 ds rest s h.1 o

pub interface_loop-dns6 :
    (ds : List Addr) (rest : List TlvItem) (s : InterfaceState)
    → All IsServer ds
    → Open s
    → interface_loop (dns6_items ds ++ rest) s ≡ interface_loop rest (add_dns s (v6_addrs ds))
unfolding interface_loop
interface_loop-dns6 [] rest s h o = rw append-nil
interface_loop-dns6 (invalid ∷ ds) rest s h o = cc
interface_loop-dns6 (v4 b ∷ ds) rest s h o = interface_loop-dns6 ds rest s h.1 o
interface_loop-dns6 (v6 b zone ∷ ds) rest s h o = rw (h.0.0.1) (
    rw (interface_step-dns6 (is_empty (dns6_items ds ++ rest)) b s o h.0.0.0)
      (interface_loop-dns6 ds rest (add_dns s (v6 b [] ∷ [])) h.1 o ∙ rw append_assoc))

pub interface_loop-refs :
    (rs : List PeerRef) (rest : List TlvItem) (s : InterfaceState)
    → All IsRef rs
    → Open s
    → interface_loop (ref_items rs ++ rest) s ≡ interface_loop rest (add_refs s rs)
unfolding interface_loop
interface_loop-refs [] rest s h o = rw append-nil
interface_loop-refs (r ∷ rs) rest s h o =
    rw (interface_step-peer_ref (is_empty (ref_items rs ++ rest)) r s o h.0)
      (interface_loop-refs rs rest (add_refs s (r ∷ [])) h.1 o ∙ rw append_assoc)

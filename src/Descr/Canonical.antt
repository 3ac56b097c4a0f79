-- ===== src/Descr/Canonical.antt =====
-- internal/descr/descr.go: `Interface.Encode` after `DecodeInterface`.
use encedo_wg_hsm.Common.{
  ℕ, ◌+◌, ◌-◌, ◌≤◌, ◌≡◌, refl, sym, ap, ◌∙◌, subst, Bool, true, false, List, [], ◌∷◌, ◌++◌, Bytes,
  IsByte, All, All-left, All-right, length, replicate, replicate-add, length-append,
  length-replicate, is_empty, ltb, ◌==◌, append-nil, append_assoc, ok, arith, Bool-cases, inl, inr,
  ==→eq, >>=-eq-ok, ◌⊎◌,
}
use encedo_wg_hsm.Descr.Tag
use encedo_wg_hsm.Descr.Records.{Interface, TlvItem, magic_interface, version}
use encedo_wg_hsm.Descr.Items.{item, serialize, Ascending}
use encedo_wg_hsm.Descr.Framing.{framed, parse-eq-ok}
use encedo_wg_hsm.Descr.Layout.{interface_items, IsInterface, encode_interface-items}
use encedo_wg_hsm.Descr.Encode.{padded, finish, encode_interface}
use encedo_wg_hsm.Descr.Progress.{Progress}
use encedo_wg_hsm.Descr.Progress.Addresses.{
  read_addr4-Progress, read_addr6-Progress, read_dns4-Progress, read_dns6-Progress,
  read_ref-Progress,
}
use encedo_wg_hsm.Descr.Progress.Options.{read_mtu-Progress, read_port-Progress, read_mac-layout}
use encedo_wg_hsm.Descr.Decode.{
  parse, has_seen, InterfaceState, empty_interface, interface_switch, interface_step,
  interface_loop, decode_interface,
}

-- Every item holds bytes.
abbrev pub ItemBytes : TlvItem → Type 0
ItemBytes it = All IsByte it.value

serialize-ItemBytes : (items : List TlvItem) → All IsByte (serialize items) → All ItemBytes items
unfolding serialize
serialize-ItemBytes [] h = tt
serialize-ItemBytes (it ∷ its) h = (
  All-left IsByte it.value (serialize its) h.1.1,
  serialize-ItemBytes its (All-right IsByte it.value (serialize its) h.1.1),
)

pub framed-ItemBytes :
    (magic : Bytes) (items : List TlvItem) (k : ℕ)
    → All IsByte (framed magic items ++ replicate k 0)
    → All ItemBytes items
unfolding framed
framed-ItemBytes magic items k h =
    let front = All-left IsByte (magic ++ (version ∷ serialize items)) (replicate k 0) h in
    serialize-ItemBytes items (All-right IsByte magic (version ∷ serialize items) front).1

-- The outcome of one step: the invariant goes on, or the MAC has ended the list.
abbrev Stepped : Bool → TlvItem → List TlvItem → InterfaceState → Type 0
Stepped last it before s =
    Progress it.tag (before ++ (it ∷ [])) s
    ⊎ (interface_items s.out ≡ before ++ (it ∷ [])) × IsInterface s.out × (last ≡ true)

module _ (last : Bool) (v : Bytes) (t : ℕ) (before : List TlvItem) (s s' : InterfaceState)
    (g : Progress t before s) (bytes : All IsByte v) (o : has_seen s.seen Tag.mac ≡ false) where
  -- What the switch does with the tag `tag`.
  abbrev Keeps : ℕ → Type 0
  Keeps tag =
      t ≤ tag → interface_switch last (item tag v) s ≡ ok s' → Stepped last (item tag v) before s'

  addr4-Keeps : Keeps Tag.addr4
  unfolding interface_switch
  addr4-Keeps le h = inl (read_addr4-Progress t before s g v le o h)

  addr6-Keeps : Keeps Tag.addr6
  unfolding interface_switch
  addr6-Keeps le h = inl (read_addr6-Progress t before s g v le o h)

  mtu-Keeps : Keeps Tag.mtu
  unfolding interface_switch
  mtu-Keeps le h = inl (read_mtu-Progress t before s g v bytes le o h)

  dns4-Keeps : Keeps Tag.dns4
  unfolding interface_switch
  dns4-Keeps le h = inl (read_dns4-Progress t before s g v le o h)

  dns6-Keeps : Keeps Tag.dns6
  unfolding interface_switch
  dns6-Keeps le h = inl (read_dns6-Progress t before s g v le o h)

  peer_ref-Keeps : Keeps Tag.peer_ref
  unfolding interface_switch
  peer_ref-Keeps le h = inl (read_ref-Progress t before s g v le o h)

  listen_port-Keeps : Keeps Tag.listen_port
  unfolding interface_switch
  listen_port-Keeps le h = inl (read_port-Progress t before s g v bytes le o h)

  mac-Keeps : Keeps Tag.mac
  unfolding interface_switch
  mac-Keeps le h = inr (read_mac-layout t before s g last v o h)

  other-Keeps :
      (tag : ℕ)
      → (tag == Tag.addr4) ≡ false
      → (tag == Tag.addr6) ≡ false
      → (tag == Tag.mtu) ≡ false
      → (tag == Tag.dns4) ≡ false
      → (tag == Tag.dns6) ≡ false
      → (tag == Tag.peer_ref) ≡ false
      → (tag == Tag.listen_port) ≡ false
      → (tag == Tag.mac) ≡ false
      → Keeps tag
  unfolding interface_switch
  other-Keeps tag n1 n2 n3 n4 n5 n6 n7 n8 le h = ground arith

  switch-Keeps : (tag : ℕ) → Keeps tag
  switch-Keeps tag = elim (Bool-cases (tag == Tag.addr4)) [
    | inl e ↦ subst Keeps (sym (==→eq tag Tag.addr4 e)) addr4-Keeps
    | inr n1 ↦ elim (Bool-cases (tag == Tag.addr6)) [
      | inl e ↦ subst Keeps (sym (==→eq tag Tag.addr6 e)) addr6-Keeps
      | inr n2 ↦ elim (Bool-cases (tag == Tag.mtu)) [
        | inl e ↦ subst Keeps (sym (==→eq tag Tag.mtu e)) mtu-Keeps
        | inr n3 ↦ elim (Bool-cases (tag == Tag.dns4)) [
          | inl e ↦ subst Keeps (sym (==→eq tag Tag.dns4 e)) dns4-Keeps
          | inr n4 ↦ elim (Bool-cases (tag == Tag.dns6)) [
            | inl e ↦ subst Keeps (sym (==→eq tag Tag.dns6 e)) dns6-Keeps
            | inr n5 ↦ elim (Bool-cases (tag == Tag.peer_ref)) [
              | inl e ↦ subst Keeps (sym (==→eq tag Tag.peer_ref e)) peer_ref-Keeps
              | inr n6 ↦ elim (Bool-cases (tag == Tag.listen_port)) [
                | inl e ↦ subst Keeps (sym (==→eq tag Tag.listen_port e)) listen_port-Keeps
                | inr n7 ↦ elim (Bool-cases (tag == Tag.mac)) [
                  | inl e ↦ subst Keeps (sym (==→eq tag Tag.mac e)) mac-Keeps
                  | inr n8 ↦ other-Keeps tag n1 n2 n3 n4 n5 n6 n7 n8
                ]
              ]
            ]
          ]
        ]
      ]
    ]
  ]

interface_step-Stepped :
    (last : Bool) (it : TlvItem) (t : ℕ) (before : List TlvItem) (s s' : InterfaceState)
    → Progress t before s
    → All IsByte it.value
    → t ≤ it.tag
    → interface_step last it s ≡ ok s'
    → Stepped last it before s'
unfolding interface_step
interface_step-Stepped last it t before s s' g bytes le h =
    elim (Bool-cases (has_seen s.seen Tag.mac)) [
      | inl e ↦ ground arith
      | inr o ↦ switch-Keeps last it.value t before s s' g bytes o it.tag le (ground arith)
    ]

pub interface_loop-layout :
    (items : List TlvItem) (t : ℕ) (before : List TlvItem) (s : InterfaceState) {i : Interface}
    → Progress t before s
    → Ascending t items
    → All ItemBytes items
    → interface_loop items s ≡ ok i
    → (interface_items i ≡ before ++ items) × IsInterface i
unfolding interface_loop
interface_loop-layout [] t before s {i} g asc bytes h =
    let e : s.out ≡ i = cc in rw (← e) (g.layout ∙ sym (append-nil before), g.valid)
interface_loop-layout (it ∷ rest) t before s {i} g asc bytes h =
    let (s', step, later) = >>=-eq-ok (interface_step (is_empty rest) it s) _ h in
    elim (interface_step-Stepped (is_empty rest) it t before s s' g bytes.0 asc.0 step) [
      | inl g' ↦
          let (layout, valid) =
            interface_loop-layout rest it.tag (before ++ (it ∷ [])) s' g' asc.3 bytes.1 later in
          (layout ∙ append_assoc before (it ∷ []) rest, valid)
      | inr (layout, valid, end) ↦ ends s' rest end later layout valid
    ]
  where
    ends :
        (s' : InterfaceState) (xs : List TlvItem)
        → is_empty xs ≡ true
        → interface_loop xs s' ≡ ok i
        → interface_items s'.out ≡ before ++ (it ∷ [])
        → IsInterface s'.out
        → (interface_items i ≡ before ++ (it ∷ xs)) × IsInterface i
    ends s' [] end h' layout valid = let e : s'.out ≡ i = cc in rw (← e) (layout, valid)
    ends s' (x ∷ xs) end h' layout valid = cc

Progress-start : Progress 0 [] (record { out = empty_interface; seen = [] })
unfolding interface_items
Progress-start = record {
  layout = refl;
  valid = record {
    addrs = tt;
    mtu = omega arith;
    dns = tt;
    peer_refs = tt;
    listen_port = omega arith;
    mac = refl;
    no_mac = λ _. refl;
  };
  no_addr6 = λ _. refl;
  no_mtu = λ _. refl;
  no_dns4 = λ _. refl;
  no_dns6 = λ _. refl;
  no_refs = λ _. refl;
  no_port = λ _. refl;
  mtu_seen = λ _. refl;
  port_seen = λ _. refl;
  mac_seen = λ _. refl;
}

-- What an accepted record is: the frame of the configuration's own items, and zeros.
pub decode_interface-frame :
    (size : ℕ) (b : Bytes) {i : Interface}
    → All IsByte b
    → decode_interface size b ≡ ok i
    → (k : ℕ) × (b ≡ framed magic_interface (interface_items i) ++ replicate k 0)
      × IsInterface i
      × (length b ≤ size)
unfolding decode_interface
decode_interface-frame size b {i} bytes h =
    let (items, parsed, loop) = >>=-eq-ok (parse size b magic_interface) _ h in
    let (k, e, asc, fits) = parse-eq-ok size b magic_interface bytes parsed in
    let (layout, valid) =
      interface_loop-layout items 0 [] _ Progress-start asc
        (framed-ItemBytes magic_interface items k (rw (← e) bytes)) loop in
    (k, rw layout e, valid, fits)

pub padded-append :
    (size k : ℕ) (xs : Bytes)
    → length (xs ++ replicate k 0) ≤ size
    → padded size (xs ++ replicate k 0) ≡ padded size xs
padded-append size k xs h =
    let long : length (xs ++ replicate k 0) ≡ length xs + k =
      omega (arith, length-append xs (replicate k 0), length-replicate {A = ℕ} k 0) in
    let rest : k + (size - length (xs ++ replicate k 0)) ≡ size - length xs = omega arith in
    append_assoc xs (replicate k 0) _
    ∙ ap (◌++◌ xs) (replicate-add k (size - length (xs ++ replicate k 0)) 0)
    ∙ rw rest

-- Every configuration that the decoder reads from a record of bytes is encoded to that record,
-- padded to the full size.
pub encode_interface-decode_interface :
    (size : ℕ) (b : Bytes) {i : Interface}
    → All IsByte b
    → decode_interface size b ≡ ok i
    → encode_interface size i ≡ ok (padded size b)
unfolding finish
encode_interface-decode_interface size b {i} bytes h =
    let (k, e, valid, fits) = decode_interface-frame size b bytes h in
    let frame = framed magic_interface (interface_items i) in
    let same : length frame + k ≡ length b =
      ground (arith, length-append frame (replicate k 0), length-replicate {A = ℕ} k 0) in
    let room : ltb size (length frame) ≡ false = ground arith in
    encode_interface-items size i valid
    ∙ rw room (ap ok (sym (rw e (padded-append size k frame (rw (← e) fits)))))

-- ===== src/Descr/ZeroMac/Correct.antt =====
-- internal/descr/descr.go: `ZeroMAC` beside the encoder run on the configuration with its MAC
-- cleared.
use encedo_wg_hsm.Descr.ZeroMac.{zero_range, zero_walk, zero_mac, clear_mac}
use encedo_wg_hsm.Common.{
  ℕ, ◌+◌, ◌-◌, ◌≡◌, refl, sym, ap, ◌∙◌, Bool, true, false, not, List, [], ◌∷◌, ◌++◌, Bytes, IsByte,
  All, length, replicate, ltb, ◌==◌, append-nil, append_assoc, length-append, length-replicate, ok,
  arith, Bool-cases, inl, inr,
}
use encedo_wg_hsm.Descr.Tag
use encedo_wg_hsm.Descr.Records.{
  Interface, TlvItem, magic_interface, header_len, mac_len, version, be16,
}
use encedo_wg_hsm.Descr.Items.{item, serialize, serialize-append, Tagged}
use encedo_wg_hsm.Descr.Framing.{framed, parse-framed}
use encedo_wg_hsm.Descr.Sorted.{
  interface_items-Ascending, Tagged-v4, Tagged-v6, Tagged-dns4, Tagged-dns6, Tagged-refs,
  Tagged-item_if,
}
use encedo_wg_hsm.Descr.Layout.{
  item_if, interface_items, IsInterface, encode_interface-items, written,
}
use encedo_wg_hsm.Descr.Canonical.{decode_interface-frame}
use encedo_wg_hsm.Descr.Encode.{finish, encode_interface}
use encedo_wg_hsm.Descr.Decode.{parse, decode_interface}

zero_range-append :
    (xs ys zs : Bytes)
    → zero_range (length xs) (length ys) (xs ++ (ys ++ zs)) ≡ xs ++ (replicate (length ys) 0 ++ zs)
unfolding zero_range
zero_range-append [] [] [] = refl
zero_range-append [] [] (z ∷ zs) = refl
zero_range-append [] (y ∷ ys) zs = ap (◌∷◌ 0) (zero_range-append [] ys zs)
zero_range-append (x ∷ xs) ys zs = ap (◌∷◌ x) (zero_range-append xs ys zs)

-- No item but the last can carry the MAC's tag.
abbrev NoMac : List TlvItem → Type 0
NoMac [] = Unit
NoMac (it ∷ its) = ((it.tag == Tag.mac) ≡ false) × NoMac its

zero_walk-NoMac :
    (xs ys : List TlvItem) (off : ℕ) (out : Bytes)
    → NoMac xs
    → zero_walk (xs ++ ys) off out ≡ zero_walk ys (off + length (serialize xs)) out
unfolding zero_walk serialize
zero_walk-NoMac [] ys off out h = let e : off + 0 ≡ off = omega arith in rw e
zero_walk-NoMac (x ∷ xs) ys off out h =
    let e : off + (2 + length x.value) + length (serialize xs) ≡ off + length (serialize (x ∷ xs)) =
      omega (arith, length-append x.value (serialize xs)) in
    rw (h.0) (zero_walk-NoMac xs ys (off + (2 + length x.value)) out h.1 ∙ rw e)

NoMac-append : (xs ys : List TlvItem) → NoMac xs → NoMac ys → NoMac (xs ++ ys)
NoMac-append [] ys h k = k
NoMac-append (x ∷ xs) ys h k = (h.0, NoMac-append xs ys h.1 k)

NoMac-Tagged : (t : ℕ) (xs : List TlvItem) → (t == Tag.mac) ≡ false → Tagged t xs → NoMac xs
NoMac-Tagged t [] n h = tt
NoMac-Tagged t (x ∷ xs) n h = (rw (h.0) n, NoMac-Tagged t xs n h.2)

-- The items in front of the MAC.
front_items : Interface → List TlvItem
front_items i = interface_items (record i { has_mac = false })

interface_items-front :
    (i : Interface) → interface_items i ≡ front_items i ++ item_if i.has_mac Tag.mac i.mac
unfolding front_items interface_items
interface_items-front i = simp (append_assoc, append-nil)

front_items-clear_mac : (i : Interface) → front_items (clear_mac i) ≡ front_items i
unfolding front_items interface_items
front_items-clear_mac i = refl

front_items-NoMac : (i : Interface) → IsInterface i → NoMac (front_items i)
unfolding front_items interface_items
front_items-NoMac i h =
    let number = λ (n t : ℕ). Tagged-item_if (not (n == 0)) t (be16 n) (omega arith) in
    NoMac-append _ _ (NoMac-Tagged Tag.addr4 _ refl (Tagged-v4 Tag.addr4 i.addrs h.addrs)) (
      NoMac-append _ _ (NoMac-Tagged Tag.addr6 _ refl (Tagged-v6 Tag.addr6 i.addrs h.addrs)) (
        NoMac-append _ _ (NoMac-Tagged Tag.mtu _ refl (number i.mtu Tag.mtu)) (
          NoMac-append _ _ (NoMac-Tagged Tag.dns4 _ refl (Tagged-dns4 i.dns h.dns)) (
            NoMac-append _ _ (NoMac-Tagged Tag.dns6 _ refl (Tagged-dns6 i.dns h.dns)) (
              NoMac-append _ _
                (NoMac-Tagged Tag.peer_ref _ refl (Tagged-refs i.peer_refs h.peer_refs))
                (NoMac-append _ []
                  (NoMac-Tagged Tag.listen_port _ refl (number i.listen_port Tag.listen_port))
                  tt))))))

-- What stands in front of the MAC's value, and the whole frame with a MAC.
before_mac : List TlvItem → Bytes
before_mac front = magic_interface ++ (version ∷ (serialize front ++ (Tag.mac ∷ mac_len ∷ [])))

length-before_mac :
    (front : List TlvItem) → length (before_mac front) ≡ header_len + length (serialize front) + 2
unfolding before_mac
length-before_mac front = omega (arith, length-append (serialize front) (Tag.mac ∷ mac_len ∷ []))

framed-mac :
    (front : List TlvItem) (m : Bytes)
    → length m ≡ mac_len
    → framed magic_interface (front ++ (item Tag.mac m ∷ [])) ≡ before_mac front ++ m
unfolding framed before_mac serialize
framed-mac front m h =
    let grown : serialize (front ++ (item Tag.mac m ∷ []))
        ≡ serialize front ++ (Tag.mac ∷ length m ∷ (m ++ [])) =
      serialize-append front (item Tag.mac m ∷ []) in
    rw (grown, h) (simp (append_assoc, append-nil))

zero_walk-front :
    (front : List TlvItem) (m rest : Bytes)
    → NoMac front
    → length m ≡ mac_len
    → zero_walk (front ++ (item Tag.mac m ∷ [])) header_len ((before_mac front ++ m) ++ rest)
      ≡ (before_mac front ++ replicate mac_len 0) ++ rest
unfolding zero_walk
zero_walk-front front m rest free l =
    let at : header_len + length (serialize front) + 2 ≡ length (before_mac front) =
      sym (length-before_mac front) in
    zero_walk-NoMac front (item Tag.mac m ∷ []) header_len ((before_mac front ++ m) ++ rest) free
    ∙ rw (at, append_assoc (before_mac front) m rest)
        (zero_range-append (before_mac front) m rest
          ∙ rw (l, append_assoc (before_mac front) (replicate mac_len 0) rest))

pub IsInterface-clear_mac : (i : Interface) → IsInterface i → IsInterface (clear_mac i)
IsInterface-clear_mac i h = record {
  addrs = h.addrs;
  mtu = h.mtu;
  dns = h.dns;
  peer_refs = h.peer_refs;
  listen_port = h.listen_port;
  mac = refl;
  no_mac = λ _. refl;
}

items-has_mac :
    (i : Interface)
    → i.has_mac ≡ true
    → interface_items i ≡ front_items i ++ (item Tag.mac i.mac ∷ [])
items-has_mac i has =
    interface_items-front i ∙ ap (λ (b : Bool). front_items i ++ item_if b Tag.mac i.mac) has

-- The frame with and without its padding.
pub finish-full :
    (size k : ℕ) (magic : Bytes) (items : List TlvItem)
    → length (framed magic items) + k ≡ size
    → finish size (written magic items) ≡ ok (framed magic items ++ replicate k 0)
unfolding finish
finish-full size k magic items full =
    let room : ltb size (length (framed magic items)) ≡ false = ground arith in
    let rest : size - length (framed magic items) ≡ k = omega arith in rw (room, rest)

-- The walk over a record with a MAC, and the encoder on the cleared configuration.
pub zero_mac-some :
    (size k : ℕ) (i : Interface)
    → IsInterface i
    → i.has_mac ≡ true
    → length (framed magic_interface (interface_items i)) + k ≡ size
    → zero_mac size (framed magic_interface (interface_items i) ++ replicate k 0)
      ≡ encode_interface size (clear_mac i)
unfolding zero_mac
zero_mac-some size k i h has full =
    let front = front_items i in
    let cleared = interface_items (clear_mac i) in
    let frame = framed magic_interface (interface_items i) in
    let parsed =
      parse-framed size k magic_interface (interface_items i) refl (interface_items-Ascending i h)
        (omega arith) in
    let items' : cleared ≡ front ++ (item Tag.mac (replicate mac_len 0) ∷ []) =
      rw (front_items-clear_mac i) at (items-has_mac (clear_mac i) has) in
    let body : frame ≡ before_mac front ++ i.mac =
      ap (framed magic_interface) (items-has_mac i has) ∙ framed-mac front i.mac h.mac in
    let body' : framed magic_interface cleared ≡ before_mac front ++ replicate mac_len 0 =
      ap (framed magic_interface) items' ∙ framed-mac front (replicate mac_len 0) refl in
    let same : length (framed magic_interface cleared) ≡ length frame = omega (
      arith,
      ap length body,
      ap length body',
      h.mac,
      length-append (before_mac front) i.mac,
      length-append (before_mac front) (replicate mac_len 0),
    ) in
    rw parsed (
      ap ok (
        ap (λ (xs : List TlvItem). zero_walk xs header_len (frame ++ replicate k 0))
          (items-has_mac i has)
        ∙ ap
            (λ (b : Bytes).
              zero_walk (front ++ (item Tag.mac i.mac ∷ [])) header_len (b ++ replicate k 0))
            body
        ∙ zero_walk-front front i.mac (replicate k 0) (front_items-NoMac i h) h.mac
        ∙ ap (λ (b : Bytes). b ++ replicate k 0) (sym body'))
      ∙ sym (
          encode_interface-items size (clear_mac i) (IsInterface-clear_mac i h)
          ∙ finish-full size k magic_interface cleared (omega arith)))

pub zero_walk-none :
    (i : Interface) (out : Bytes)
    → IsInterface i
    → i.has_mac ≡ false
    → zero_walk (interface_items i) header_len out ≡ out
unfolding zero_walk
zero_walk-none i out h has =
    let items : interface_items i ≡ front_items i ++ [] =
      interface_items-front i ∙ ap (λ (b : Bool). front_items i ++ item_if b Tag.mac i.mac) has in
    rw items (zero_walk-NoMac (front_items i) [] header_len out (front_items-NoMac i h))

-- On every record of full size that decodes, `ZeroMAC` is the encoder run on the same configuration
-- with its MAC cleared; whether there is a MAC is left as it is.
pub zero_mac-encode_interface :
    (size : ℕ) (b : Bytes) {i : Interface}
    → All IsByte b
    → length b ≡ size
    → decode_interface size b ≡ ok i
    → zero_mac size b ≡ encode_interface size (clear_mac i)
unfolding zero_mac
zero_mac-encode_interface size b {i} bytes full d =
    let (k, e, valid, fits) = decode_interface-frame size b bytes d in
    let frame = framed magic_interface (interface_items i) in
    let long : length frame + k ≡ size =
      omega
        (arith, ap length e, length-append frame (replicate k 0), length-replicate {A = ℕ} k 0) in
    let parsed : parse size b magic_interface ≡ ok (interface_items i) = rw e (
      parse-framed size k magic_interface (interface_items i) refl
        (interface_items-Ascending i valid) (omega arith)) in
    elim (Bool-cases i.has_mac) [
      | inl has ↦ rw e (zero_mac-some size k i valid has long)
      | inr has ↦
          let unchanged : zero_mac size b ≡ ok b =
            rw parsed (ap ok (zero_walk-none i b valid has)) in
          let same : i ≡ clear_mac i =
            ap (λ (m : Bytes). record i { mac = m }) (valid.no_mac has) in
          unchanged
          ∙ sym (
              ap (encode_interface size) (sym same)
              ∙ encode_interface-items size i valid
              ∙ finish-full size k magic_interface (interface_items i) long
              ∙ ap ok (sym e))
    ]

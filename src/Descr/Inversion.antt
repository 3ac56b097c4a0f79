-- ===== src/Descr/Inversion.antt =====
-- internal/descr/descr.go: what the value of an item must be for the decoders to accept it, and
-- that the encoders write that same value again.
use encedo_wg_hsm.Common.{
  ℕ, suc, ◌+◌, ◌*◌, ◌/◌, ◌%◌, ◌<◌, ◌≡◌, refl, ap, ◌∙◌, true, false, List, [], ◌∷◌, ◌++◌, Bytes,
  IsByte, All, length, take, drop, get_or, leb, leb→le, take-append-drop, length-take_le,
  drop-get_or, length-drop, ok, arith,
}
use encedo_wg_hsm.Netip.{Addr, v4, v6, is4, as4, as16, Prefix, IsPrefix, addr_from_slice}
use encedo_wg_hsm.Descr.Records.{be16, be_uint16, PeerRef}
use encedo_wg_hsm.Descr.Items.{item}
use encedo_wg_hsm.Descr.Tag
use encedo_wg_hsm.Descr.Layout.{v4_items, v6_items, dns4_items, dns6_items, ref_items}
use encedo_wg_hsm.Descr.Decode.{prefix_of_value, addr_of_value}

-- A slice of `n + 1` bytes is its first `n` and the last one.
split_last :
    (n : ℕ) (v : Bytes)
    → length v ≡ suc n
    → (take n v ++ (get_or v n 0 ∷ []) ≡ v) × (length (take n v) ≡ n)
split_last n v h =
    let none_left : drop (suc n) v ≡ [] = ground (arith, length-drop (suc n) v) in
    let last : drop n v ≡ get_or v n 0 ∷ [] =
      drop-get_or n v 0 (omega arith) ∙ ap (◌∷◌ (get_or v n 0)) none_left in
    (rw (← last) (take-append-drop n v), length-take_le n v (omega arith))

prefix_of_value4_is :
    (v : Bytes) {p : Prefix}
    → length (take 4 v) ≡ 4
    → prefix_of_value v 4 ≡ ok p
    → (p ≡ record { addr = v4 (take 4 v); bits = get_or v 4 0 }) × (leb (get_or v 4 0) 32 ≡ true)
unfolding prefix_of_value addr_from_slice
prefix_of_value4_is v long e = (ground arith, ground arith)

-- An accepted IPv4 prefix is written as the value that it was read from.
pub prefix_of_value4-eq-ok :
    (v : Bytes) {p : Prefix}
    → length v ≡ 5
    → prefix_of_value v 4 ≡ ok p
    → (is4 p.addr ≡ true) × (as4 p.addr ++ ((p.bits % 256) ∷ []) ≡ v) × IsPrefix p
prefix_of_value4-eq-ok v h e =
    let (split, long) = split_last 4 v h in
    let (same, le) = prefix_of_value4_is v long e in
    let small : get_or v 4 0 % 256 ≡ get_or v 4 0 = omega (arith, leb→le (get_or v 4 0) 32 le) in
    rw same (refl, rw small split, (long, le))

prefix_of_value6_is :
    (v : Bytes) {p : Prefix}
    → length (take 16 v) ≡ 16
    → prefix_of_value v 16 ≡ ok p
    → (p ≡ record { addr = v6 (take 16 v) []; bits = get_or v 16 0 })
      × (leb (get_or v 16 0) 128 ≡ true)
unfolding prefix_of_value addr_from_slice
prefix_of_value6_is v long e = (ground arith, ground arith)

pub prefix_of_value6-eq-ok :
    (v : Bytes) {p : Prefix}
    → length v ≡ 17
    → prefix_of_value v 16 ≡ ok p
    → (is4 p.addr ≡ false) × (as16 p.addr ++ ((p.bits % 256) ∷ []) ≡ v) × IsPrefix p
prefix_of_value6-eq-ok v h e =
    let (split, long) = split_last 16 v h in
    let (same, le) = prefix_of_value6_is v long e in
    let small : get_or v 16 0 % 256 ≡ get_or v 16 0 =
      omega (arith, leb→le (get_or v 16 0) 128 le) in
    rw same (refl, rw small split, ((long, refl), le))

pub addr_of_value4 : (v : Bytes) → length v ≡ 4 → addr_of_value v ≡ v4 v
unfolding addr_of_value addr_from_slice
addr_of_value4 v h = rw h

pub addr_of_value6 : (v : Bytes) → length v ≡ 16 → addr_of_value v ≡ v6 v []
unfolding addr_of_value addr_from_slice
addr_of_value6 v h = rw h

-- Two bytes are the big-endian form of the number that is read from them.
pub be16-be_uint16 :
    (v : Bytes) → length v ≡ 2 → All IsByte v → (be16 (be_uint16 v) ≡ v) × (be_uint16 v < 65536)
be16-be_uint16 [] h bytes = absurd (omega arith)
be16-be_uint16 (a ∷ []) h bytes = absurd (omega arith)
be16-be_uint16 (a ∷ b ∷ []) h bytes =
    let high : (a * 256 + b) / 256 % 256 ≡ a = omega arith in
    let low : (a * 256 + b) % 256 ≡ b = omega arith in (rw (high, low), omega arith)
be16-be_uint16 (a ∷ b ∷ c ∷ v) h bytes = absurd (omega arith)

-- The layout of a list with one more element.
module _ (tag : ℕ) (p : Prefix) where
  pub v4_items-snoc4 :
      (ps : List Prefix)
      → is4 p.addr ≡ true
      → v4_items tag (ps ++ (p ∷ []))
        ≡ v4_items tag ps ++ (item tag (as4 p.addr ++ ((p.bits % 256) ∷ [])) ∷ [])
  v4_items-snoc4 [] h = rw h
  v4_items-snoc4 (q ∷ ps) h = ground (arith, v4_items-snoc4 ps h)

  pub v6_items-snoc4 :
      (ps : List Prefix) → is4 p.addr ≡ true → v6_items tag (ps ++ (p ∷ [])) ≡ v6_items tag ps
  v6_items-snoc4 [] h = rw h
  v6_items-snoc4 (q ∷ ps) h = ground (arith, v6_items-snoc4 ps h)

  pub v4_items-snoc6 :
      (ps : List Prefix) → is4 p.addr ≡ false → v4_items tag (ps ++ (p ∷ [])) ≡ v4_items tag ps
  v4_items-snoc6 [] h = rw h
  v4_items-snoc6 (q ∷ ps) h = ground (arith, v4_items-snoc6 ps h)

  pub v6_items-snoc6 :
      (ps : List Prefix)
      → is4 p.addr ≡ false
      → v6_items tag (ps ++ (p ∷ []))
        ≡ v6_items tag ps ++ (item tag (as16 p.addr ++ ((p.bits % 256) ∷ [])) ∷ [])
  v6_items-snoc6 [] h = rw h
  v6_items-snoc6 (q ∷ ps) h = ground (arith, v6_items-snoc6 ps h)

pub dns4_items-snoc4 :
    (v : Bytes) (ds : List Addr)
    → dns4_items (ds ++ (v4 v ∷ [])) ≡ dns4_items ds ++ (item Tag.dns4 v ∷ [])
dns4_items-snoc4 v [] = refl
dns4_items-snoc4 v (d ∷ ds) = ground (arith, dns4_items-snoc4 v ds)

pub dns6_items-snoc4 : (v : Bytes) (ds : List Addr) → dns6_items (ds ++ (v4 v ∷ [])) ≡ dns6_items ds
dns6_items-snoc4 v [] = refl
dns6_items-snoc4 v (d ∷ ds) = ground (arith, dns6_items-snoc4 v ds)

pub dns4_items-snoc6 :
    (v : Bytes) (ds : List Addr) → dns4_items (ds ++ (v6 v [] ∷ [])) ≡ dns4_items ds
dns4_items-snoc6 v [] = refl
dns4_items-snoc6 v (d ∷ ds) = ground (arith, dns4_items-snoc6 v ds)

pub dns6_items-snoc6 :
    (v : Bytes) (ds : List Addr)
    → dns6_items (ds ++ (v6 v [] ∷ [])) ≡ dns6_items ds ++ (item Tag.dns6 v ∷ [])
dns6_items-snoc6 v [] = refl
dns6_items-snoc6 v (d ∷ ds) = ground (arith, dns6_items-snoc6 v ds)

pub ref_items-snoc :
    (v : Bytes) (rs : List PeerRef)
    → ref_items (rs ++ (v ∷ [])) ≡ ref_items rs ++ (item Tag.peer_ref v ∷ [])
ref_items-snoc v [] = refl
ref_items-snoc v (r ∷ rs) = ground (arith, ref_items-snoc v rs)

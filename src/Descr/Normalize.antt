-- ===== src/Descr/Normalize.antt =====
-- internal/descr/descr.go: `Normalize` on the records that decode.
use encedo_wg_hsm.Common.{
  ◌≤◌, refl, zero, suc, ◌-◌, replicate, length-append, length-replicate, All-append, ℕ, ◌≡◌, sym,
  ltb, false, Bytes, IsByte, All, length, ok, >>=-eq-ok, arith,
}
use encedo_wg_hsm.Descr.Records.{Interface, header_len, magic_interface}
use encedo_wg_hsm.Descr.Encode.{padded, normalize, encode_interface}
use encedo_wg_hsm.Descr.Decode.{parse, decode_interface}
use encedo_wg_hsm.Descr.Framing.{parse_checks}
use encedo_wg_hsm.Descr.Canonical.{encode_interface-decode_interface}

-- On a byte string that decodes, a trimmed record or a whole one, `Normalize` gives the record that
-- encoding the same configuration gives.
pub normalize-decode_interface :
    (size : ℕ) (b : Bytes) {i : Interface}
    → All IsByte b
    → decode_interface size b ≡ ok i
    → normalize size b ≡ encode_interface size i
unfolding normalize decode_interface
normalize-decode_interface size b bytes h =
    let (items, parsed, _) = >>=-eq-ok (parse size b magic_interface) _ h in
    let (long, fits, _, _, _) = parse_checks size b magic_interface parsed in
    let within : ltb size (length b) ≡ false = ground arith in
    let whole : ltb (length b) header_len ≡ false = ground arith in
    rw (within, whole) (sym (encode_interface-decode_interface size b bytes h))

replicate-IsByte : (n : ℕ) → All IsByte (replicate n 0)
replicate-IsByte zero = tt
replicate-IsByte (suc n) = (omega arith, replicate-IsByte n)

-- What `Normalize` gives is a whole record of bytes.
pub normalize-eq-ok :
    (size : ℕ) (b : Bytes) {r : Bytes}
    → normalize size b ≡ ok r
    → (length r ≡ size) × (r ≡ padded size b)
unfolding normalize
normalize-eq-ok size b {r} h =
    let same : padded size b ≡ r = ground arith in
    let fits : length b ≤ size = ground arith in
    rw (← same) (
      omega (
        arith,
        length-append b (replicate (size - length b) 0),
        length-replicate {A = ℕ} (size - length b) 0,
      ),
      refl,
    )

pub normalize-IsByte :
    (size : ℕ) (b : Bytes) {r : Bytes} → All IsByte b → normalize size b ≡ ok r → All IsByte r
normalize-IsByte size b bytes h =
    rw ((normalize-eq-ok size b h).1) (
      All-append IsByte b (replicate (size - length b) 0) bytes
        (replicate-IsByte (size - length b)))

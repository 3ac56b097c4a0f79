-- ===== src/Descr/Framing.antt =====
-- internal/descr/descr.go: `parse` as a whole: the frame of a record, which is the magic, the
-- version byte and the layout of the items, and the padding behind it.
use encedo_wg_hsm.Common.{
  ℕ, zero, suc, ◌+◌, ◌≤◌, ◌≡◌, ◌≢◌, sym, ◌∙◌, true, List, [], ◌∷◌, ◌++◌, Bytes, IsByte, All,
  All-right, length, take, drop, get_or, replicate, bytes_eq, bytes_eq→eq, bytes_eq_refl,
  length-append, length-replicate, take-length_append, take-append-drop, length-drop, drop-get_or,
  get_or-length_append, drop-suc-length, append_assoc, ok, err, arith,
}
use encedo_wg_hsm.Descr.Records.{TlvItem, out_of_fuel, version, header_len}
use encedo_wg_hsm.Descr.Items.{serialize, Ascending}
use encedo_wg_hsm.Descr.Decode.{check_padding, parse_loop, parse}
use encedo_wg_hsm.Descr.Parse.{parse_loop-serialize, parse_loop-eq-ok}

-- The bytes of a record before its padding.
unfoldable pub framed : Bytes → List TlvItem → Bytes
framed magic items = magic ++ (version ∷ serialize items)

check_padding-ne-out_of_fuel : (j : ℕ) (xs : Bytes) → check_padding j xs ≢ err out_of_fuel
unfolding check_padding
check_padding-ne-out_of_fuel j [] h = cc
check_padding-ne-out_of_fuel j (x ∷ xs) h = ground (arith, check_padding-ne-out_of_fuel (j + 1) xs)

parse_loop-ne-out_of_fuel :
    (fuel i last : ℕ) (b : Bytes) → length b ≤ fuel → parse_loop fuel i last b ≢ err out_of_fuel
unfolding parse_loop
parse_loop-ne-out_of_fuel fuel i last [] le h = cc
parse_loop-ne-out_of_fuel zero i last (tag ∷ rest) le h = absurd (omega arith)
parse_loop-ne-out_of_fuel (suc fuel) i last (tag ∷ []) le h =
    ground (arith, check_padding-ne-out_of_fuel i (tag ∷ []))
parse_loop-ne-out_of_fuel (suc fuel) i last (tag ∷ n ∷ rest) le h = ground (
  arith,
  check_padding-ne-out_of_fuel i (tag ∷ n ∷ rest),
  length-drop n rest,
  parse_loop-ne-out_of_fuel fuel (i + 2 + length (take n rest)) tag (drop n rest),
)

-- The loop of `parse` ends on every input: its fuel, the length of the record, is never used up.
pub parse-ne-out_of_fuel : (size : ℕ) (b magic : Bytes) → parse size b magic ≢ err out_of_fuel
unfolding parse
parse-ne-out_of_fuel size b magic h = ground (
  arith,
  length-drop header_len b,
  parse_loop-ne-out_of_fuel (length b) header_len 0 (drop header_len b),
)

pub parse_checks :
    (size : ℕ) (b magic : Bytes) {items : List TlvItem}
    → parse size b magic ≡ ok items
    → (header_len ≤ length b)
      × (length b ≤ size)
      × (bytes_eq (take 6 b) magic ≡ true)
      × (get_or b 6 0 ≡ version)
      × (parse_loop (length b) header_len 0 (drop header_len b) ≡ ok items)
unfolding parse
parse_checks size b magic h = (ground arith, ground arith, ground arith, ground arith, ground arith)

-- A byte string that `parse` accepts is the frame of the items it returns, padded with zeros, and
-- at most `size` bytes long; the tags of the items ascend.
pub parse-eq-ok :
    (size : ℕ) (b magic : Bytes) {items : List TlvItem}
    → All IsByte b
    → parse size b magic ≡ ok items
    → (k : ℕ) × (b ≡ framed magic items ++ replicate k 0) × Ascending 0 items × (length b ≤ size)
unfolding framed
parse-eq-ok size b magic bytes h =
    let (long, fits, same, v, loop) = parse_checks size b magic h in
    let front : take 6 b ≡ magic = bytes_eq→eq (take 6 b) magic same in
    let behind : drop 6 b ≡ version ∷ drop 7 b = drop-get_or 6 b 0 (omega arith) ∙ rw v in
    let split : magic ++ drop 6 b ≡ b = rw (← front) (take-append-drop 6 b) in
    let split' : magic ++ (version ∷ drop 7 b) ≡ b = rw (← behind) split in
    let rest : All IsByte (version ∷ drop 7 b) =
      All-right IsByte magic (version ∷ drop 7 b) (rw split' bytes) in
    let (k, e, asc) = parse_loop-eq-ok (length b) header_len 0 (drop 7 b) rest.1 loop in
    (
      k,
      sym split' ∙ rw e (sym (append_assoc magic (version ∷ serialize _) (replicate k 0))),
      asc,
      fits,
    )

parse_frame :
    (size : ℕ) (magic body : Bytes)
    → length magic ≡ 6
    → 7 + length body ≤ size
    → parse size (magic ++ (version ∷ body)) magic ≡ parse_loop (7 + length body) header_len 0 body
unfolding parse
parse_frame size magic body six fits =
    let b = magic ++ (version ∷ body) in
    let long : length b ≡ 7 + length body = omega (arith, length-append magic (version ∷ body)) in
    let front : take 6 b ≡ magic = rw six at (take-length_append magic (version ∷ body)) in
    let v : get_or b 6 0 ≡ version = rw six at (get_or-length_append magic body version 0) in
    let rest : drop 7 b ≡ body = rw six at (drop-suc-length magic body version) in
    ground (arith, long, front, v, rest, bytes_eq_refl magic)

-- `parse` reads back every frame of ascending items that fits the record, padded or not.
pub parse-framed :
    (size k : ℕ) (magic : Bytes) (items : List TlvItem)
    → length magic ≡ 6
    → Ascending 0 items
    → length (framed magic items) + k ≤ size
    → parse size (framed magic items ++ replicate k 0) magic ≡ ok items
unfolding framed
parse-framed size k magic items six asc fits =
    let pad = replicate k 0 in
    let long : length (serialize items ++ pad) ≡ length (serialize items) + k =
      omega (arith, length-append (serialize items) pad, length-replicate {A = ℕ} k 0) in
    rw (append_assoc magic (version ∷ serialize items) pad) (
      parse_frame size magic (serialize items ++ pad) six
        (omega (arith, length-append magic (version ∷ serialize items)))
      ∙ parse_loop-serialize items _ header_len 0 k asc (omega arith))

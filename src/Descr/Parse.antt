-- ===== src/Descr/Parse.antt =====
-- internal/descr/descr.go: the loop of `parse` beside the layout of a list of items.
use encedo_wg_hsm.Common.{
  ℕ, zero, suc, ◌+◌, ◌≤◌, ◌<◌, ◌≡◌, refl, ap, ◌⊎◌, inl, inr, List, [], ◌∷◌, ◌++◌, Bytes, IsByte,
  All, All-right, length, take, drop, replicate, ◌==◌, Bool-cases, length-append,
  take-length_append, drop-length_append, take-append-drop, length-take_le, append_assoc, Result,
  ok, ◌>>=◌, >>=-eq-ok, arith,
}
use encedo_wg_hsm.Descr.Records.{TlvItem, DescrError}
use encedo_wg_hsm.Descr.Tag
use encedo_wg_hsm.Descr.Items.{serialize, Ascending, item}
use encedo_wg_hsm.Descr.Decode.{check_padding, take_value, parse_loop}

check_padding-replicate : (j k : ℕ) → check_padding j (replicate k 0) ≡ ok tt
unfolding check_padding
check_padding-replicate j zero = refl
check_padding-replicate j (suc k) = check_padding-replicate (j + 1) k

check_padding-eq-ok :
    (j : ℕ) (xs : Bytes) {u : Unit} → check_padding j xs ≡ ok u → xs ≡ replicate (length xs) 0
unfolding check_padding
check_padding-eq-ok j [] h = refl
check_padding-eq-ok j (x ∷ xs) h = ground (arith, check_padding-eq-ok (j + 1) xs)

take_value-append :
    (i tag : ℕ) (value rest : Bytes)
    → take_value i tag (length value ∷ (value ++ rest)) ≡ ok (value, rest)
unfolding take_value
take_value-append i tag value rest =
    ground (
      arith,
      length-append value rest,
      take-length_append value rest,
      drop-length_append value rest,
    )

-- One round on a tag and its value.
parse_loop_item :
    (fuel i last : ℕ) (it : TlvItem) (rest : Bytes) {items : List TlvItem}
    → last ≤ it.tag
    → 0 < it.tag
    → parse_loop fuel (i + 2 + length it.value) it.tag rest ≡ ok items
    → parse_loop (suc fuel) i last (it.tag ∷ length it.value ∷ (it.value ++ rest)) ≡ ok (it ∷ items)
unfolding parse_loop
parse_loop_item fuel i last it rest le pos h =
    ground (arith, take_value-append i it.tag it.value rest)

pub parse_loop-serialize :
    (items : List TlvItem) (fuel i last k : ℕ)
    → Ascending last items
    → length (serialize items) + k ≤ fuel
    → parse_loop fuel i last (serialize items ++ replicate k 0) ≡ ok items
unfolding serialize
parse_loop-serialize [] fuel i last zero asc h = unfold parse_loop in refl
parse_loop-serialize [] zero i last (suc k) asc h = absurd (omega arith)
parse_loop-serialize [] (suc fuel) i last (suc k) asc h =
    unfold parse_loop in rw (check_padding-replicate i (suc k))
parse_loop-serialize (it ∷ its) zero i last k asc h = absurd (omega arith)
parse_loop-serialize (it ∷ its) (suc fuel) i last k asc h =
    rw (append_assoc it.value (serialize its) (replicate k 0)) (
      parse_loop_item fuel i last it (serialize its ++ replicate k 0) asc.0 asc.1 (
        parse_loop-serialize its fuel (i + 2 + length it.value) it.tag k asc.3
          (omega (arith, length-append it.value (serialize its)))))

-- What a successful round has read.
take_value_fields :
    (i tag n : ℕ) (rest : Bytes) {value left : Bytes}
    → take_value i tag (n ∷ rest) ≡ ok (value, left)
    → (n ≤ length rest) × (take n rest ≡ value) × (drop n rest ≡ left)
unfolding take_value
take_value_fields i tag n rest h = ground arith

take_value-eq-ok :
    (i tag : ℕ) (rest : Bytes) {value left : Bytes}
    → take_value i tag rest ≡ ok (value, left)
    → All IsByte rest
    → (rest ≡ length value ∷ (value ++ left))
      × (length value < 256)
      × All IsByte left
      × (length left < length rest)
take_value-eq-ok i tag [] h bytes = unfold take_value in cc
take_value-eq-ok i tag (n ∷ rest) {value} {left} h bytes =
    let (fits, front, back) = take_value_fields i tag n rest h in
    let long : length value ≡ n = rw (← front) (length-take_le n rest fits) in
    let split : value ++ left ≡ rest = rw (← front, ← back) (take-append-drop n rest) in
    let parts : All IsByte (value ++ left) = rw split bytes.1 in
    (
      cc,
      omega (arith, bytes.0),
      All-right IsByte value left parts,
      omega (arith, ap length split, length-append value left),
    )

-- What a successful round of the loop has done: stopped at the padding, or read one item.
data Round (fuel i last tag : ℕ) (rest : Bytes) : List TlvItem → Type 0 where
  stop : tag ≡ 0 → check_padding i (tag ∷ rest) ≡ ok tt → Round fuel i last tag rest []
  read :
      {value left : Bytes} {items : List TlvItem}
      → last ≤ tag
      → 0 < tag
      → take_value i tag rest ≡ ok (value, left)
      → parse_loop fuel (i + 2 + length value) tag left ≡ ok items
      → Round fuel i last tag rest (item tag value ∷ items)

abbrev next_item : ℕ → ℕ → ℕ → Bytes → Result DescrError (List TlvItem)
next_item fuel i tag rest = do
  (value, left) ← take_value i tag rest
  items ← parse_loop fuel (i + 2 + length value) tag left
  ok (item tag value ∷ items)

parse_loop_round :
    (fuel i last tag : ℕ) (rest : Bytes) {items : List TlvItem}
    → parse_loop (suc fuel) i last (tag ∷ rest) ≡ ok items
    → ((tag ≡ 0) × (check_padding i (tag ∷ rest) ≡ ok tt) × (items ≡ []))
      ⊎ ((last ≤ tag) × (0 < tag) × (next_item fuel i tag rest ≡ ok items))
unfolding parse_loop
parse_loop_round fuel i last tag rest h = elim (Bool-cases (tag == Tag.end)) [
  | inl end ↦ inl (ground arith, ground arith, ground arith)
  | inr more ↦ inr (ground arith, ground arith, ground arith)
]

parse_loop-Round :
    (fuel i last tag : ℕ) (rest : Bytes) {items : List TlvItem}
    → parse_loop (suc fuel) i last (tag ∷ rest) ≡ ok items
    → Round fuel i last tag rest items
parse_loop-Round fuel i last tag rest {items} h = elim (parse_loop_round fuel i last tag rest h) [
  | inl (end, pad, e) ↦ rw e (stop end pad)
  | inr (le, pos, more) ↦
      let ((value, left), taken, more') = >>=-eq-ok (take_value i tag rest) _ more in
      let (its, later, e) = >>=-eq-ok (parse_loop fuel (i + 2 + length value) tag left) _ more' in
      let e' : items ≡ item tag value ∷ its = cc in rw e' (read le pos taken later)
]

-- Every input that the loop accepts is the layout of what it returns, and zeros.
pub parse_loop-eq-ok :
    (fuel i last : ℕ) (b : Bytes) {items : List TlvItem}
    → All IsByte b
    → parse_loop fuel i last b ≡ ok items
    → (k : ℕ) × (b ≡ serialize items ++ replicate k 0) × Ascending last items
parse_loop-eq-ok fuel i last [] {items} bytes h =
    let e : items ≡ [] = unfold parse_loop in cc in (0, rw e (unfold serialize in refl), rw e tt)
parse_loop-eq-ok zero i last (tag ∷ rest) bytes h = unfold parse_loop in cc
parse_loop-eq-ok (suc fuel) i last (tag ∷ rest) bytes h =
    go (parse_loop-Round fuel i last tag rest h) (λ j t left its. parse_loop-eq-ok fuel j t left)
  where
    go :
        {items : List TlvItem}
        → Round fuel i last tag rest items
        → ((j t : ℕ) (left : Bytes) (its : List TlvItem)
            → All IsByte left
            → parse_loop fuel j t left ≡ ok its
            → (k : ℕ) × (left ≡ serialize its ++ replicate k 0) × Ascending t its)
        → (k : ℕ) × (tag ∷ rest ≡ serialize items ++ replicate k 0) × Ascending last items
    go (stop end pad) ih =
        (suc (length rest), unfold serialize in check_padding-eq-ok i (tag ∷ rest) pad, tt)
    go (read {value} {left} {items = its} le pos taken later) ih =
        let (split, short, parts, _) = take_value-eq-ok i tag rest taken bytes.1 in
        let (k, e, asc) = ih (i + 2 + length value) tag left its parts later in
        (
          k,
          unfold serialize in
              rw (split, e) (rw (append_assoc value (serialize its) (replicate k 0))),
          (le, pos, short, asc),
        )

-- ===== src/Common/Text.antt =====
-- Go's package strings on ASCII text, a list of byte values, and its package encoding/hex.
use Prim.Native.Char.{code}
use Prim.Native.Nat.{ℕ, ◌+◌, ◌-◌, ◌*◌, ◌/◌, ◌%◌, ◌<◌}
use Prim.Native.String.{String}
use mathlib.Core.Path.{◌≡◌, refl}
use mathlib.Core.Bool.{Bool, true, false, ◌&&◌, ◌||◌}
use mathlib.Core.Option.{Option, none, some}
use mathlib.Core.List.{List, [], ◌∷◌}
use native.Mathlib.Omega.{arith}
use encedo_wg_hsm.Common.Tests.{◌==◌, ltb, leb, if◌then◌else◌}
use encedo_wg_hsm.Common.Lists.{Bytes, IsByte, All, is_empty}

-- The code points of an ASCII literal, which are its bytes.
abbrev pub codes : String → Bytes
codes String.[] = []
codes (String.◌∷◌ c s) = code c ∷ codes s

abbrev pub is_space : ℕ → Bool
is_space c = c == b' ' || leb 9 c && leb c 13

unfoldable pub trim_left : Bytes → Bytes
trim_left [] = []
trim_left (c ∷ cs) = if is_space c then trim_left cs else c ∷ cs

unfoldable pub trim_right : Bytes → Bytes
trim_right [] = []
trim_right (c ∷ cs) =
    let rest = trim_right cs in if is_space c && is_empty rest then [] else c ∷ rest

-- `strings.TrimSpace`
unfoldable pub trim_space : Bytes → Bytes
unfolding trim_left trim_right
trim_space s = trim_right (trim_left s)

abbrev pub lower : ℕ → ℕ
lower c = if leb b'A' c && leb c b'Z' then c + 32 else c

-- `strings.ToLower`
unfoldable pub to_lower : Bytes → Bytes
to_lower [] = []
to_lower (c ∷ cs) = lower c ∷ to_lower cs

-- `strings.Cut` at a byte: what stands before the first one, and after it.
unfoldable pub cut : ℕ → Bytes → Option (Bytes × Bytes)
cut sep [] = none
cut sep (c ∷ cs) =
    if c == sep
    then some ([], cs)
    else elim (cut sep cs) [ none ↦ none | some (before, behind) ↦ some (c ∷ before, behind) ]

-- `strings.Split` at a byte.
abbrev pub onto_first : ℕ → List Bytes → List Bytes
onto_first c [] = (c ∷ []) ∷ []
onto_first c (part ∷ parts) = (c ∷ part) ∷ parts

unfoldable pub split : ℕ → Bytes → List Bytes
split sep [] = [] ∷ []
split sep (c ∷ cs) = let rest = split sep cs in if c == sep then [] ∷ rest else onto_first c rest

-- `strings.HasPrefix` and `strings.Contains`
unfoldable pub has_prefix : Bytes → Bytes → Bool
has_prefix s [] = true
has_prefix [] (c ∷ cs) = false
has_prefix (d ∷ ds) (c ∷ cs) = d == c && has_prefix ds cs

unfoldable pub contains : Bytes → Bytes → Bool
contains [] part = is_empty part
contains (c ∷ cs) part = has_prefix (c ∷ cs) part || contains cs part

-- `strings.Trim(s, "[]")`
abbrev is_bracket : ℕ → Bool
is_bracket c = c == b'[' || c == b']'

unfoldable pub trim_left_brackets : Bytes → Bytes
trim_left_brackets [] = []
trim_left_brackets (c ∷ cs) = if is_bracket c then trim_left_brackets cs else c ∷ cs

unfoldable pub trim_right_brackets : Bytes → Bytes
trim_right_brackets [] = []
trim_right_brackets (c ∷ cs) =
    let rest = trim_right_brackets cs in if is_bracket c && is_empty rest then [] else c ∷ rest

abbrev pub trim_brackets : Bytes → Bytes
trim_brackets s = trim_right_brackets (trim_left_brackets s)

-- `hex.EncodeToString`
abbrev pub hex_digit : ℕ → ℕ
hex_digit n = if ltb n 10 then b'0' + n else (b'a' - 10) + n

unfoldable pub hex_encode : Bytes → Bytes
hex_encode [] = []
hex_encode (b ∷ bs) = hex_digit (b / 16) ∷ hex_digit (b % 16) ∷ hex_encode bs

-- `hex.DecodeString`, which takes digits of both cases.
abbrev pub hex_value : ℕ → Option ℕ
hex_value c =
    if leb b'0' c && leb c b'9'
    then some (c - b'0')
    else if leb b'a' c && leb c b'f'
    then some (c - b'a' + 10)
    else if leb b'A' c && leb c b'F'
    then some (c - b'A' + 10)
    else none

abbrev hex_byte : Option ℕ → Option ℕ → Option Bytes → Option Bytes
hex_byte (some h) (some l) (some rest) = some ((h * 16 + l) ∷ rest)
hex_byte (some h) (some l) none = none
hex_byte (some h) none rest = none
hex_byte none l rest = none

unfoldable pub hex_decode : Bytes → Option Bytes
hex_decode [] = some []
hex_decode (c ∷ []) = none
hex_decode (c ∷ d ∷ cs) = hex_byte (hex_value c) (hex_value d) (hex_decode cs)

abbrev pub NotSpace : ℕ → Type 0
NotSpace c = is_space c ≡ false

trim_left-NotSpace : (s : Bytes) → All NotSpace s → trim_left s ≡ s
unfolding trim_left
trim_left-NotSpace [] h = refl
trim_left-NotSpace (c ∷ cs) h = rw h.0

trim_right-NotSpace : (s : Bytes) → All NotSpace s → trim_right s ≡ s
unfolding trim_right
trim_right-NotSpace [] h = refl
trim_right-NotSpace (c ∷ cs) h = rw (h.0, trim_right-NotSpace cs h.1)

pub trim_space-NotSpace : (s : Bytes) → All NotSpace s → trim_space s ≡ s
unfolding trim_space
trim_space-NotSpace s h = rw (trim_left-NotSpace s h, trim_right-NotSpace s h)

pub hex_encode-NotSpace : (bs : Bytes) → All IsByte bs → All NotSpace (hex_encode bs)
unfolding hex_encode
hex_encode-NotSpace [] h = tt
hex_encode-NotSpace (b ∷ bs) (small, more) = (
  digit-NotSpace (b / 16) (omega arith),
  (digit-NotSpace (b % 16) (omega arith), hex_encode-NotSpace bs more),
)
  where
    digit-NotSpace : (n : ℕ) → n < 16 → NotSpace (hex_digit n)
    digit-NotSpace n h = ground arith

hex_value-digit : (n : ℕ) → n < 16 → hex_value (hex_digit n) ≡ some n
hex_value-digit n h = ground arith

pub hex_decode-encode : (bs : Bytes) → All IsByte bs → hex_decode (hex_encode bs) ≡ some bs
unfolding hex_decode hex_encode
hex_decode-encode [] h = refl
hex_decode-encode (b ∷ bs) (small, more) =
    let whole : b / 16 * 16 + b % 16 ≡ b = omega arith in
    rw (hex_value-digit (b / 16) (omega arith))
      (rw (hex_value-digit (b % 16) (omega arith)) (rw (hex_decode-encode bs more) (rw whole)))

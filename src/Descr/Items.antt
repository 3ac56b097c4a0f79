-- ===== src/Descr/Items.antt =====
-- The TLV stream of internal/descr/descr.go as a list of items: how it is laid out in bytes, and
-- which lists of items a strict reader accepts.
use encedo_wg_hsm.Common.{
  ℕ, ◌≤◌, ◌<◌, ◌≡◌, refl, List, [], ◌∷◌, ◌++◌, Bytes, length, append_assoc, arith,
}
use encedo_wg_hsm.Descr.Records.{TlvItem}

abbrev pub item : ℕ → Bytes → TlvItem
item t v = record { tag = t; value = v }

unfoldable pub serialize : List TlvItem → Bytes
serialize [] = []
serialize (it ∷ its) = it.tag ∷ length it.value ∷ (it.value ++ serialize its)

-- Tags other than the end tag, that do not fall below `last` or each other, with lengths that
-- fit a byte.
abbrev pub Ascending : ℕ → List TlvItem → Type 0
Ascending last [] = Unit
Ascending last (it ∷ its) =
    (last ≤ it.tag) × (0 < it.tag) × (length it.value < 256) × Ascending it.tag its

pub serialize-append : (xs ys : List TlvItem) → serialize (xs ++ ys) ≡ serialize xs ++ serialize ys
unfolding serialize
serialize-append [] ys = refl
serialize-append (x ∷ xs) ys =
    rw (serialize-append xs ys) (rw (append_assoc x.value (serialize xs) (serialize ys)))

-- The items of `xs` have the tag `t`.
abbrev pub Tagged : ℕ → List TlvItem → Type 0
Tagged t [] = Unit
Tagged t (it ∷ its) = (it.tag ≡ t) × (length it.value < 256) × Tagged t its

-- A run of one tag may stand in front of a list that ascends from that tag.
pub Ascending-Tagged :
    (t last : ℕ) (xs ys : List TlvItem)
    → Tagged t xs
    → last ≤ t
    → 0 < t
    → Ascending t ys
    → Ascending last (xs ++ ys)
Ascending-Tagged t last [] ys h le pos asc = Ascending-weaken last t ys le asc
  where
    Ascending-weaken : (k m : ℕ) (zs : List TlvItem) → k ≤ m → Ascending m zs → Ascending k zs
    Ascending-weaken k m [] le a = tt
    Ascending-weaken k m (z ∷ zs) le a = (omega arith, a.1, a.2, a.3)
Ascending-Tagged t last (x ∷ xs) ys h le pos asc =
    (omega arith, omega arith, h.1, Ascending-Tagged t x.tag xs ys h.2 (omega arith) pos asc)

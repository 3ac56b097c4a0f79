-- ===== src/Tunnel/Wiped.antt =====
-- internal/tunnel: the buffers of the pre-shared keys that are zeroed.
use encedo_wg_hsm.Common.{
  ℕ, zero, suc, ◌≡◌, refl, ap, Option, none, some, All, length, replicate, ◌++◌, List, [], ◌∷◌,
  Bytes,
}
use encedo_wg_hsm.Tunnel.Life.{zero_at, zero_key}

-- Every byte is zero.
abbrev pub IsWiped : Bytes → Type 0
IsWiped b = All (λ x. x ≡ 0) b

replicate-IsWiped : (n : ℕ) → IsWiped (replicate n 0)
replicate-IsWiped zero = tt
replicate-IsWiped (suc n) = (refl, replicate-IsWiped n)

IsWiped-last :
    (bs : List Bytes) (b : Bytes)
    → All IsWiped bs
    → All IsWiped (zero_at (length bs) (bs ++ (b ∷ [])))
unfolding zero_at
IsWiped-last [] b h = (replicate-IsWiped (length b), tt)
IsWiped-last (c ∷ bs) b (h, hs) = (h, IsWiped-last bs b hs)

-- A new buffer is the only one that is not zeroed, beside the one in use.
pub IsWiped-but_last :
    (used : Option ℕ) (bs : List Bytes) (b : Bytes)
    → All IsWiped (zero_key used bs)
    → All IsWiped (zero_at (length bs) (zero_key used (bs ++ (b ∷ []))))
unfolding zero_at
IsWiped-but_last none bs b h = IsWiped-last bs b h
IsWiped-but_last (some zero) [] b h = (replicate-IsWiped _, tt)
IsWiped-but_last (some (suc p)) [] b h = (replicate-IsWiped _, tt)
IsWiped-but_last (some zero) (c ∷ bs) b (h, hs) = (h, IsWiped-last bs b hs)
IsWiped-but_last (some (suc p)) (c ∷ bs) b (h, hs) = (h, IsWiped-but_last (some p) bs b hs)

zero_at-zero_at : (p q : ℕ) (bs : List Bytes) → zero_at p (zero_at q bs) ≡ zero_at q (zero_at p bs)
unfolding zero_at
zero_at-zero_at p q [] = refl
zero_at-zero_at zero zero (b ∷ bs) = refl
zero_at-zero_at zero (suc q) (b ∷ bs) = refl
zero_at-zero_at (suc p) zero (b ∷ bs) = refl
zero_at-zero_at (suc p) (suc q) (b ∷ bs) = ap (b ∷◌) (zero_at-zero_at p q bs)

pub zero_key-zero_at :
    (used : Option ℕ) (q : ℕ) (bs : List Bytes)
    → zero_key used (zero_at q bs) ≡ zero_at q (zero_key used bs)
zero_key-zero_at none q bs = refl
zero_key-zero_at (some p) q bs = zero_at-zero_at p q bs

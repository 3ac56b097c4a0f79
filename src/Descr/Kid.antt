-- ===== src/Descr/Kid.antt =====
-- internal/descr/descr.go: `KID` and `PeerRefFromKID`, the identifier that the device gives to a
-- public key. SHA-1 is a parameter.
use encedo_wg_hsm.Common.{
  ℕ, zero, suc, ◌≤◌, ◌≡◌, refl, ap, true, not, Option, none, some, [], ◌∷◌, Bytes, IsByte, All,
  length, take, length-take_le, ◌==◌, trim_space, trim_space-NotSpace, hex_encode, hex_decode,
  hex_encode-NotSpace, hex_decode-encode, Result, ok, err, ◌>>=◌, ◌>>◌, fail_if, arith,
}
use encedo_wg_hsm.Descr.Records.{PeerRef, kid_len, peer_ref_len}
use encedo_wg_hsm.Mac.Message.{make_peer_ref}

pub data KidError : Type 0 where
  not_hex : KidError
  bad_kid_len : ℕ → KidError

-- `KID`
unfoldable pub kid_of : (Bytes → Bytes) → Bytes → Bytes
kid_of sha1 pub_key = hex_encode (take kid_len (sha1 pub_key))

abbrev decoded : Option Bytes → Result KidError Bytes
decoded none = err not_hex
decoded (some raw) = ok raw

-- `PeerRefFromKID`
unfoldable pub peer_ref_from_kid : Bytes → Result KidError PeerRef
peer_ref_from_kid kid = do
  raw ← decoded (hex_decode (trim_space kid))
  fail_if (not (length raw == kid_len)) (bad_kid_len (length raw))
  ok (take peer_ref_len raw)

take-All : (n : ℕ) (xs : Bytes) → All IsByte xs → All IsByte (take n xs)
take-All zero xs h = tt
take-All (suc n) [] h = tt
take-All (suc n) (x ∷ xs) h = (h.0, take-All n xs h.1)

take-take : (k n : ℕ) (xs : Bytes) → k ≤ n → take k (take n xs) ≡ take k xs
take-take zero n xs h = refl
take-take (suc k) zero xs h = absurd (omega arith)
take-take (suc k) (suc n) [] h = refl
take-take (suc k) (suc n) (x ∷ xs) h = ap (◌∷◌ x) (take-take k n xs (omega arith))

-- What SHA-1 gives: twenty bytes.
abbrev pub sha1_len : ℕ
sha1_len = 20

pub record IsDigest (sum : Bytes) : Type 0 where
  pub bytes : All IsByte sum
  pub full : length sum ≡ sha1_len

-- The reference that is read off the identifier of a public key, which the device's search
-- returns, is the reference made from the key itself, if the digest of the key is a digest.
pub peer_ref_from_kid-kid_of :
    (sha1 : Bytes → Bytes) (pub_key : Bytes)
    → IsDigest (sha1 pub_key)
    → peer_ref_from_kid (kid_of sha1 pub_key) ≡ ok (make_peer_ref sha1 pub_key)
unfolding peer_ref_from_kid kid_of make_peer_ref
peer_ref_from_kid-kid_of sha1 pub_key d =
    let sum = sha1 pub_key in
    let bytes = take-All kid_len sum d.bytes in
    let long : length (take kid_len sum) ≡ kid_len =
      length-take_le kid_len sum (omega (arith, d.full)) in
    let text =
      trim_space-NotSpace (hex_encode (take kid_len sum))
        (hex_encode-NotSpace (take kid_len sum) bytes) in
    let checked : (length (take kid_len sum) == kid_len) ≡ true = ground (arith, long) in
    rw (text, hex_decode-encode (take kid_len sum) bytes)
      (rw checked (ap ok (take-take peer_ref_len kid_len sum (omega arith))))

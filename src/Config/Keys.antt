-- ===== src/Config/Keys.antt =====
-- internal/config/keys.go: where public keys come from, and the check that each one meets.
use encedo_wg_hsm.Common.{
  codes, ◌≡◌, true, not, List, [], ◌∷◌, Bytes, bytes_eq, bytes_eq→eq, length, ◌==◌, if◌then◌else◌,
  Result, ok, err, ◌>>=◌, ◌>>◌, fail_if, wrap, >>=-eq-ok, arith,
}
use encedo_wg_hsm.Descr.Kid.{kid_of}
use encedo_wg_hsm.Mac.Message.{pub_key_len}
use encedo_wg_hsm.Hem.{Hem}
use encedo_wg_hsm.Config.Records.{
  ConfigError, get_failed, not_supplied, bad_key_len, wrong_kid, TokenFunc,
}

abbrev pub Keyring : Type 0
Keyring = Bytes → Result ConfigError Bytes

-- `fromDevice`. The token that it keeps is the one that asking again would give.
unfoldable pub from_device : Hem → TokenFunc → Keyring
from_device hem tok kid = do
  token ← tok (codes "keymgmt:get")
  wrap get_failed (hem.get_pub_key token kid)

-- `fromSupplied`, over the map as a list of its entries.
unfoldable pub from_supplied : List (Bytes × Bytes) → Keyring
from_supplied [] kid = err (not_supplied kid)
from_supplied ((k, key) ∷ keys) kid = if bytes_eq k kid then ok key else from_supplied keys kid

-- `resolve`
unfoldable pub resolve : (Bytes → Bytes) → Keyring → Bytes → Result ConfigError Bytes
resolve sha1 ring kid = do
  raw ← ring kid
  fail_if (not (length raw == pub_key_len)) (bad_key_len (length raw))
  fail_if (not (bytes_eq (kid_of sha1 raw) kid)) (wrong_kid kid (kid_of sha1 raw))
  ok raw

-- What a key that was resolved is: whoever offered it, it has the identifier asked for.
pub resolve-eq-ok :
    (sha1 : Bytes → Bytes) (ring : Keyring) (kid : Bytes) {key : Bytes}
    → resolve sha1 ring kid ≡ ok key
    → (kid_of sha1 key ≡ kid) × (length key ≡ pub_key_len)
unfolding resolve
resolve-eq-ok sha1 ring kid {key} h =
    let (raw, offered, h1) = >>=-eq-ok (ring kid) _ h in
    let same : raw ≡ key = ground arith in
    let known : bytes_eq (kid_of sha1 raw) kid ≡ true = ground arith in
    let long : length raw ≡ pub_key_len = ground arith in
    rw (← same) (bytes_eq→eq (kid_of sha1 raw) kid known, long)

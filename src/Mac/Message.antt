-- ===== src/Mac/Message.antt =====
-- internal/mac/mac.go: `Canonical`, `matchRefs`, `Sign` and `Verify`; and `MakePeerRef` of
-- internal/descr/descr.go. SHA-1 and the device's HMAC are parameters.
use encedo_wg_hsm.Common.{
  codes, ℕ, ◌+◌, ◌-◌, ◌/◌, Bool, true, false, not, ◌||◌, List, [], ◌∷◌, ◌++◌, Bytes, length, take,
  ltb, ◌==◌, if◌then◌else◌, is_empty, bytes_eq, Result, ok, ◌>>=◌, ◌>>◌, fail_if, wrap,
}
use encedo_wg_hsm.Descr.Records.{DescrError, PeerRef, peer_ref_len, mac_len}
use encedo_wg_hsm.Descr.Decode.{decode_interface}
use encedo_wg_hsm.Descr.ZeroMac.{zero_mac}

abbrev pub domain : Bytes
domain = codes "ENC-WG-MAC-v2"

abbrev pub pub_key_len : ℕ
pub_key_len = 32

abbrev pub device_msg_limit : ℕ
device_msg_limit = 2048

abbrev pub per_peer : ℕ → ℕ
per_peer size = pub_key_len + size

abbrev pub fixed_len : ℕ → ℕ
fixed_len size = length domain + pub_key_len + size

abbrev pub max_peers : ℕ → ℕ
max_peers size = (device_msg_limit - fixed_len size) / per_peer size

-- The arrays are lists; that they have their lengths is `IsRecord`.
pub record PeerRecord : Type 0 where
  pub pub_key : Bytes
  pub descr : Bytes

-- A device error is kept as the number of the device's own code.
pub data MacError : Type 0 where
  bad_record : DescrError → MacError
  wrong_count : ℕ → ℕ → MacError
  shared_ref : PeerRef → MacError
  unresolved_ref : PeerRef → MacError
  unreferenced : ℕ → MacError
  too_many_peers : ℕ → MacError
  device_failed : ℕ → MacError
  bad_mac_len : ℕ → MacError
  not_authentic : MacError

-- `MakePeerRef`, over the digest.
unfoldable pub make_peer_ref : (Bytes → Bytes) → Bytes → PeerRef
make_peer_ref sha1 pub_key = take peer_ref_len (sha1 pub_key)

-- `byRef`, as the list of its keys; the positions that it maps to are never read.
unfoldable pub has_ref : PeerRef → List PeerRef → Bool
has_ref r [] = false
has_ref r (x ∷ xs) = bytes_eq x r || has_ref r xs

unfoldable pub delete_ref : PeerRef → List PeerRef → List PeerRef
delete_ref r [] = []
delete_ref r (x ∷ xs) = if bytes_eq x r then xs else x ∷ delete_ref r xs

-- The loop over the peers.
unfoldable pub collect_refs :
    (Bytes → Bytes) → List PeerRecord → List PeerRef → Result MacError (List PeerRef)
collect_refs sha1 [] by_ref = ok by_ref
collect_refs sha1 (p ∷ ps) by_ref = do
  let ref = make_peer_ref sha1 p.pub_key
  fail_if (has_ref ref by_ref) (shared_ref ref)
  collect_refs sha1 ps (ref ∷ by_ref)

-- The loop over the references.
unfoldable pub resolve_refs : List PeerRef → List PeerRef → Result MacError (List PeerRef)
resolve_refs [] by_ref = ok by_ref
resolve_refs (r ∷ rs) by_ref = do
  fail_if (not (has_ref r by_ref)) (unresolved_ref r)
  resolve_refs rs (delete_ref r by_ref)

-- `matchRefs`
unfoldable pub match_refs :
    (Bytes → Bytes) → List PeerRef → List PeerRecord → Result MacError (Unit {0})
match_refs sha1 refs peers = do
  fail_if (not (length refs == length peers)) (wrong_count (length refs) (length peers))
  by_ref ← collect_refs sha1 peers []
  left ← resolve_refs refs by_ref
  fail_if (not (is_empty left)) (unreferenced (length left))
  ok tt

-- `bytes.Compare(a, b) < 0`
unfoldable pub bytes_lt : Bytes → Bytes → Bool
bytes_lt xs [] = false
bytes_lt [] (y ∷ ys) = true
bytes_lt (x ∷ xs) (y ∷ ys) = if x == y then bytes_lt xs ys else ltb x y

-- `sort.Slice` by public key. The keys of matched peers are distinct, so every sort gives this list.
unfoldable pub insert_record : PeerRecord → List PeerRecord → List PeerRecord
insert_record p [] = p ∷ []
insert_record p (q ∷ qs) =
    if bytes_lt p.pub_key q.pub_key then p ∷ q ∷ qs else q ∷ insert_record p qs

unfoldable pub sort_records : List PeerRecord → List PeerRecord
sort_records [] = []
sort_records (p ∷ ps) = insert_record p (sort_records ps)

-- The loop that appends each peer's key and record.
unfoldable pub append_records : Bytes → List PeerRecord → Bytes
append_records msg [] = msg
append_records msg (p ∷ ps) = append_records ((msg ++ p.pub_key) ++ p.descr) ps

-- `Canonical`
unfoldable pub canonical :
    ℕ → (Bytes → Bytes) → Bytes → Bytes → List PeerRecord → Result MacError Bytes
canonical size sha1 if_pub_key if_descr peers = do
  rec ← wrap bad_record (decode_interface size if_descr)
  match_refs sha1 rec.peer_refs peers
  fail_if (ltb (max_peers size) (length peers)) (too_many_peers (length peers))
  zeroed ← wrap bad_record (zero_mac size if_descr)
  ok (append_records ((domain ++ if_pub_key) ++ zeroed) (sort_records peers))

-- The device's HMAC under one key: `HmacHash` and `HmacVerify`.
pub record Hmac : Type 0 where
  pub hash : Bytes → Result ℕ Bytes
  pub verify : Bytes → Bytes → Result ℕ (Unit {0})

-- `Sign`
unfoldable pub sign :
    ℕ → (Bytes → Bytes) → Hmac → Bytes → Bytes → List PeerRecord → Result MacError Bytes
sign size sha1 hmac if_pub_key if_descr peers = do
  msg ← canonical size sha1 if_pub_key if_descr peers
  sum ← wrap device_failed (hmac.hash msg)
  fail_if (not (length sum == mac_len)) (bad_mac_len (length sum))
  ok sum

-- `Verify`. Whatever the device refuses is reported as `ErrNotAuthentic`.
unfoldable pub verify :
    ℕ → (Bytes → Bytes) → Hmac → Bytes → Bytes → List PeerRecord → Result MacError (Unit {0})
verify size sha1 hmac if_pub_key if_descr peers = do
  rec ← wrap bad_record (decode_interface size if_descr)
  fail_if (not rec.has_mac) not_authentic
  msg ← canonical size sha1 if_pub_key if_descr peers
  wrap (λ _. not_authentic) (hmac.verify msg rec.mac)

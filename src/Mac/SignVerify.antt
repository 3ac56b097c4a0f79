-- ===== src/Mac/SignVerify.antt =====
-- internal/mac/mac.go: `Sign` over the record with its MAC tag present, then `Verify` over the
-- record that carries the result.
use encedo_wg_hsm.Common.{
  wrap-eq-ok, ℕ, ◌+◌, ◌-◌, ◌≡◌, sym, ◌∙◌, true, not, List, ◌++◌, Bytes, length, replicate, ltb,
  ◌==◌, Result, ok, err, ◌>>=◌, ◌>>◌, >>=-eq-ok, fail_if, wrap, arith,
}
use encedo_wg_hsm.Descr.Records.{Interface, mac_len, magic_interface}
use encedo_wg_hsm.Descr.Encode.{encode_interface}
use encedo_wg_hsm.Descr.Framing.{framed}
use encedo_wg_hsm.Descr.Layout.{IsInterface, interface_items, encode_interface-items}
use encedo_wg_hsm.Descr.Decode.{decode_interface}
use encedo_wg_hsm.Descr.RoundTrip.{decode_interface-encode_interface, finish-written}
use encedo_wg_hsm.Descr.ZeroMac.{zero_mac, clear_mac}
use encedo_wg_hsm.Descr.ZeroMac.Correct.{zero_mac-some}
use encedo_wg_hsm.Mac.Message.{
  not_authentic, PeerRecord, bad_record, too_many_peers, device_failed, bad_mac_len, domain,
  max_peers, match_refs, sort_records, append_records, canonical, Hmac, sign, verify,
}

-- An encoded record is a padded frame of exactly `size` bytes.
pub encoded-frame :
    (size : ℕ) (i : Interface) {b : Bytes}
    → IsInterface i
    → encode_interface size i ≡ ok b
    → (k : ℕ) × (length (framed magic_interface (interface_items i)) + k ≡ size)
      × (b ≡ framed magic_interface (interface_items i) ++ replicate k 0)
encoded-frame size i h e =
    let (fits, same) =
      finish-written size magic_interface (interface_items i)
        (sym (encode_interface-items size i h) ∙ e) in
    (size - length (framed magic_interface (interface_items i)), omega arith, same)

pub zero_mac-encoded :
    (size : ℕ) (i : Interface) {b : Bytes}
    → IsInterface i
    → i.has_mac ≡ true
    → encode_interface size i ≡ ok b
    → zero_mac size b ≡ encode_interface size (clear_mac i)
zero_mac-encoded size i h has e =
    let (k, full, same) = encoded-frame size i h e in rw same (zero_mac-some size k i h has full)

-- The message of an encoded record with a MAC does not depend on the MAC.
canonical-encoded :
    (size : ℕ) (sha1 : Bytes → Bytes) (key : Bytes) (i : Interface) (peers : List PeerRecord)
    {b : Bytes}
    → IsInterface i
    → i.has_mac ≡ true
    → encode_interface size i ≡ ok b
    → canonical size sha1 key b peers ≡ (do
      match_refs sha1 i.peer_refs peers
      fail_if (ltb (max_peers size) (length peers)) (too_many_peers (length peers))
      zeroed ← wrap bad_record (encode_interface size (clear_mac i))
      ok (append_records ((domain ++ key) ++ zeroed) (sort_records peers)))
unfolding canonical
canonical-encoded size sha1 key i peers h has e =
    rw (decode_interface-encode_interface size i h e) (rw (zero_mac-encoded size i h has e))

pub IsInterface-signed :
    (i : Interface) (sum : Bytes)
    → IsInterface i
    → i.has_mac ≡ true
    → length sum ≡ mac_len
    → IsInterface (record i { mac = sum })
IsInterface-signed i sum h has l = record {
  addrs = h.addrs;
  mtu = h.mtu;
  dns = h.dns;
  peer_refs = h.peer_refs;
  listen_port = h.listen_port;
  mac = l;
  no_mac = λ e. cc;
}

sign-eq-ok :
    (size : ℕ) (sha1 : Bytes → Bytes) (hmac : Hmac) (key b : Bytes) (peers : List PeerRecord)
    {sum : Bytes}
    → sign size sha1 hmac key b peers ≡ ok sum
    → (msg : Bytes) × (canonical size sha1 key b peers ≡ ok msg)
      × (hmac.hash msg ≡ ok sum)
      × (length sum ≡ mac_len)
unfolding sign
sign-eq-ok size sha1 hmac key b peers {sum} h =
    let (msg, built, h1) = >>=-eq-ok (canonical size sha1 key b peers) _ h in
    let (hashed, long) = hash_checked (hmac.hash msg) h1 in (msg, built, hashed, long)
  where
    hash_checked :
        (r : Result ℕ Bytes)
        → (wrap device_failed r >>= λ s.
            fail_if (not (length s == mac_len)) (bad_mac_len (length s)) >> ok s)
          ≡ ok sum
        → (r ≡ ok sum) × (length sum ≡ mac_len)
    hash_checked (ok s) e = (ground arith, ground arith)
    hash_checked (err e') e = cc

-- What was signed verifies. The record of a well-formed configuration is encoded with its MAC tag
-- present, signed, and encoded again with the MAC that the device returned; `Verify` then accepts
-- it with the same peers, if the device verifies every MAC that it has computed itself.
pub verify-sign :
    (size : ℕ) (sha1 : Bytes → Bytes) (hmac : Hmac) (key : Bytes) (i : Interface)
    (peers : List PeerRecord) {unsigned sum signed : Bytes}
    → ((msg mac : Bytes) → hmac.hash msg ≡ ok mac → hmac.verify msg mac ≡ ok tt)
    → IsInterface i
    → i.has_mac ≡ true
    → encode_interface size i ≡ ok unsigned
    → sign size sha1 hmac key unsigned peers ≡ ok sum
    → encode_interface size (record i { mac = sum }) ≡ ok signed
    → verify size sha1 hmac key signed peers ≡ ok tt
unfolding verify
verify-sign size sha1 hmac key i peers {sum} {signed} honest h has enc s enc' =
    let (msg, built, hashed, long) = sign-eq-ok size sha1 hmac key _ peers s in
    let h' = IsInterface-signed i sum h has long in
    let read = decode_interface-encode_interface size (record i { mac = sum }) h' enc' in
    let same : canonical size sha1 key signed peers ≡ ok msg =
      canonical-encoded size sha1 key (record i { mac = sum }) peers h' has enc'
      ∙ sym (canonical-encoded size sha1 key i peers h has enc)
      ∙ built in
    rw read (rw has (rw same (rw (honest msg sum hashed))))

-- What a MAC that was accepted is over: the message of the tree, under the MAC of the record.
pub verify-eq-ok :
    (size : ℕ) (sha1 : Bytes → Bytes) (hmac : Hmac) (key b : Bytes) (peers : List PeerRecord)
    → verify size sha1 hmac key b peers ≡ ok tt
    → (msg : Bytes) × (mac : Bytes) × (canonical size sha1 key b peers ≡ ok msg)
      × (hmac.verify msg mac ≡ ok tt)
unfolding verify
verify-eq-ok size sha1 hmac key b peers h =
    let (rec, _, h1) = >>=-eq-ok (wrap bad_record (decode_interface size b)) _ h in
    let (_, _, h2) = >>=-eq-ok (fail_if (not rec.has_mac) not_authentic) _ h1 in
    let (msg, built, h3) = >>=-eq-ok (canonical size sha1 key b peers) _ h2 in
    (msg, rec.mac, built, wrap-eq-ok _ (hmac.verify msg rec.mac) h3)

-- ===== src/Config/Provisioned.antt =====
-- internal/config and internal/mac together: which configuration a load can return.
use mathlib.Core.List.{Perm}
use encedo_wg_hsm.Common.{ℕ, ◌≡◌, ap, ◌∙◌, List, [], ◌∷◌, Bytes, IsByte, All, ok}
use encedo_wg_hsm.Descr.Records.{Interface}
use encedo_wg_hsm.Descr.Decode.{decode_interface}
use encedo_wg_hsm.Descr.ZeroMac.{clear_mac}
use encedo_wg_hsm.Descr.Kid.{IsDigest}
use encedo_wg_hsm.Descr.Normalize.{normalize-eq-ok, normalize-IsByte}
use encedo_wg_hsm.Mac.Message.{PeerRecord, canonical}
use encedo_wg_hsm.Mac.Refs.{refs_of}
use encedo_wg_hsm.Mac.Records.{IsPeerRecord, IsTree}
use encedo_wg_hsm.Mac.Injective.{canonical-injective}
use encedo_wg_hsm.Mac.SignVerify.{verify-eq-ok}
use encedo_wg_hsm.Hem.{Hem, KeyEntry}
use encedo_wg_hsm.Config.Records.{ConfigPeer, Tree, TokenFunc}
use encedo_wg_hsm.Config.Keys.{Keyring}
use encedo_wg_hsm.Config.Load.{records_of, load_from}
use encedo_wg_hsm.Config.Authentic.{IsLoaded, IsAuthentic, load_from-IsAuthentic}

records_of-IsPeerRecord :
    (size : ℕ) (sha1 : Bytes → Bytes) (ps : List ConfigPeer)
    → All (IsLoaded size sha1) ps
    → All (IsPeerRecord size) (records_of ps)
records_of-IsPeerRecord size sha1 [] h = tt
records_of-IsPeerRecord size sha1 (p ∷ ps) (one, more) =
    ((one.key_len, one.full), records_of-IsPeerRecord size sha1 ps more)

authentic-IsTree :
    (size : ℕ) (sha1 : Bytes → Bytes) (hem : Hem) (tok : TokenFunc) (entry : KeyEntry) (t : Tree)
    → All IsByte entry.descr
    → IsAuthentic size sha1 hem tok entry t
    → IsTree size t.if_pub_key t.if_raw (records_of t.peers)
authentic-IsTree size sha1 hem tok entry t bytes a = record {
  key = a.key_len;
  full = (normalize-eq-ok size entry.descr a.raw).0;
  bytes = normalize-IsByte size entry.descr bytes a.raw;
  records = records_of-IsPeerRecord size sha1 t.peers a.peers;
}

-- If the device accepts a MAC under the identity's key only over the message of the tree that was
-- provisioned, then a load of that identity returns that configuration and no other, whatever else
-- the device holds and whoever supplied the public keys: the same interface key, the same interface
-- record but for its MAC, and the same peers and records, which stand in the order of the references
-- that were provisioned. SHA-1 gives digests.
pub load_from-provisioned :
    (fuel size : ℕ) (sha1 : Bytes → Bytes) (hem : Hem) (tok : TokenFunc) (entry : KeyEntry)
    (ring : Keyring) (t : Tree) (key descr msg : Bytes) (i : Interface) (peers : List PeerRecord)
    → ((k : Bytes) → IsDigest (sha1 k))
    → ((token m mac : Bytes) → (hem.hmac token entry.kid).verify m mac ≡ ok tt → m ≡ msg)
    → IsTree size key descr peers
    → decode_interface size descr ≡ ok i
    → canonical size sha1 key descr peers ≡ ok msg
    → All IsByte entry.descr
    → load_from fuel size sha1 hem tok entry ring ≡ ok t
    → (t.if_pub_key ≡ key)
      × (clear_mac t.iface ≡ clear_mac i)
      × Perm (records_of t.peers) peers
      × (refs_of sha1 (records_of t.peers) ≡ i.peer_refs)
load_from-provisioned fuel size sha1 hem tok entry ring t key descr msg i peers digest only tree
      read built bytes h =
    let a = load_from-IsAuthentic fuel size sha1 hem tok entry ring digest h in
    let hmac = hem.hmac a.token t.if_kid in
    let (m, mac, built', accepted) =
      verify-eq-ok size sha1 hmac t.if_pub_key t.if_raw (records_of t.peers) a.verified in
    let accepted' : (hem.hmac a.token entry.kid).verify m mac ≡ ok tt = rw (← a.if_kid) accepted in
    let same : m ≡ msg = only a.token m mac accepted' in
    let (keys, configs, same_peers) =
      canonical-injective size sha1 t.if_pub_key key t.if_raw descr (records_of t.peers) peers
        t.iface i (authentic-IsTree size sha1 hem tok entry t bytes a) tree a.decoded read
        (rw same at built') built in
    (keys, configs, same_peers, a.refs ∙ ap (λ (c : Interface). c.peer_refs) configs)

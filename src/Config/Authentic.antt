-- ===== src/Config/Authentic.antt =====
-- internal/config/config.go: what is known of a tree that `loadFrom` returns.
use encedo_wg_hsm.Common.{
  ℕ, ◌≡◌, refl, sym, ap, ◌∙◌, Option, none, some, List, [], ◌∷◌, Bytes, bytes_eq, bytes_eq→eq, All,
  length, is_empty, Result, ok, err, fail_if, wrap, wrap-eq-ok, ok-injective, >>=-eq-ok, arith,
  Bool-cases, inl, inr,
}
use encedo_wg_hsm.Descr.Records.{PeerRef, magic_peer}
use encedo_wg_hsm.Descr.Encode.{normalize}
use encedo_wg_hsm.Descr.Decode.{decode_interface}
use encedo_wg_hsm.Descr.DecodePeer.{decode_peer}
use encedo_wg_hsm.Descr.Normalize.{normalize-eq-ok}
use encedo_wg_hsm.Descr.Kid.{
  KidError, kid_of, peer_ref_from_kid, IsDigest, peer_ref_from_kid-kid_of,
}
use encedo_wg_hsm.Mac.Message.{pub_key_len, make_peer_ref, verify}
use encedo_wg_hsm.Mac.Refs.{refs_of}
use encedo_wg_hsm.Hem.{Hem, KeyEntry}
use encedo_wg_hsm.Config.Records.{ConfigPeer, Tree, Sizes, TokenFunc, new_sizes}
use encedo_wg_hsm.Config.Keys.{Keyring, resolve, resolve-eq-ok}
use encedo_wg_hsm.Config.Search.{search}
use encedo_wg_hsm.Config.Load.{
  RefMap, lookup_ref, add_candidate, candidates, found_peer, load_peer, load_peers, records_of,
  use_scope, load_from,
}

-- A peer whose key has its identifier, and whose record decodes to it.
pub record IsLoaded (size : ℕ) (sha1 : Bytes → Bytes) (p : ConfigPeer) : Type 0 where
  pub kid : kid_of sha1 p.pub_key ≡ p.kid
  pub key_len : length p.pub_key ≡ pub_key_len
  pub full : length p.raw ≡ size
  pub decoded : decode_peer size p.raw ≡ ok p.peer

-- A tree whose keys have their identifiers, whose records decode to what it holds, whose peers are
-- those that the interface record names, in its order, and which the device has authenticated.
pub record IsAuthentic (size : ℕ) (sha1 : Bytes → Bytes) (hem : Hem) (tok : TokenFunc)
    (entry : KeyEntry) (t : Tree) : Type 0 where
  pub if_kid : t.if_kid ≡ entry.kid
  pub key : kid_of sha1 t.if_pub_key ≡ t.if_kid
  pub key_len : length t.if_pub_key ≡ pub_key_len
  pub raw : normalize size entry.descr ≡ ok t.if_raw
  pub decoded : decode_interface size t.if_raw ≡ ok t.iface
  pub peers : All (IsLoaded size sha1) t.peers
  pub refs : refs_of sha1 (records_of t.peers) ≡ t.iface.peer_refs
  pub token : Bytes
  pub scoped : tok (use_scope t.if_kid) ≡ ok token
  pub verified :
      verify size sha1 (hem.hmac token t.if_kid) t.if_pub_key t.if_raw (records_of t.peers) ≡ ok tt

-- Each entry stands under the reference of its own identifier.
abbrev IsIndexed : RefMap → Type 0
IsIndexed m = All (λ (c : PeerRef × KeyEntry). peer_ref_from_kid c.1.kid ≡ ok c.0) m

add_candidate-eq-ok :
    (e : KeyEntry) (ref : PeerRef) (m : RefMap) {m' : RefMap}
    → add_candidate e (ok ref) m ≡ ok m'
    → m' ≡ (ref, e) ∷ m
unfolding add_candidate
add_candidate-eq-ok e ref m h = ground arith

add_candidate-IsIndexed :
    (e : KeyEntry) (r : Result KidError PeerRef) (m : RefMap) {m' : RefMap}
    → peer_ref_from_kid e.kid ≡ r
    → IsIndexed m
    → add_candidate e r m ≡ ok m'
    → IsIndexed m'
add_candidate-IsIndexed e (err w) m {m'} k i h =
    let same : m ≡ m' = unfold add_candidate in cc in rw (← same) i
add_candidate-IsIndexed e (ok ref) m k i h = rw (add_candidate-eq-ok e ref m h) (k, i)

candidates-IsIndexed :
    (es : List KeyEntry) (m : RefMap) {m' : RefMap}
    → IsIndexed m
    → candidates es m ≡ ok m'
    → IsIndexed m'
unfolding candidates
candidates-IsIndexed [] m {m'} i h = let same : m ≡ m' = cc in rw (← same) i
candidates-IsIndexed (e ∷ es) m i h =
    let (more, added, rest) = >>=-eq-ok (add_candidate e (peer_ref_from_kid e.kid) m) _ h in
    candidates-IsIndexed es more
      (add_candidate-IsIndexed e (peer_ref_from_kid e.kid) m refl i added) rest

lookup_ref-IsIndexed :
    (ref : PeerRef) (m : RefMap) {e : KeyEntry}
    → IsIndexed m
    → lookup_ref ref m ≡ some e
    → peer_ref_from_kid e.kid ≡ ok ref
unfolding lookup_ref
lookup_ref-IsIndexed ref [] i h = cc
lookup_ref-IsIndexed ref ((r, e') ∷ m) {e} i h = elim (Bool-cases (bytes_eq r ref)) [
  | inl here ↦
      let same : e' ≡ e = ground arith in rw (← same) (i.0 ∙ ap ok (bytes_eq→eq r ref here))
  | inr there ↦
      let more : lookup_ref ref m ≡ some e = ground arith in lookup_ref-IsIndexed ref m i.1 more
]

module _ (size : ℕ) (sha1 : Bytes → Bytes) (ring : Keyring) (m : RefMap)
    (indexed : IsIndexed m) where
  load_peer-eq-ok :
      (ref : PeerRef) (seen : Sizes) {p : ConfigPeer} {seen' : Sizes}
      → load_peer size sha1 ring m ref seen ≡ ok (p, seen')
      → IsLoaded size sha1 p × (peer_ref_from_kid p.kid ≡ ok ref)
  unfolding load_peer
  load_peer-eq-ok ref seen {p} h =
      let (e, found, h1) = >>=-eq-ok (found_peer ref (lookup_ref ref m)) _ h in
      let (key, resolved, h2) = >>=-eq-ok (resolve sha1 ring e.kid) _ h1 in
      let (raw, widened, h3) = >>=-eq-ok (wrap _ (normalize size e.descr)) _ h2 in
      let (peer, decoded, h4) = >>=-eq-ok (wrap _ (decode_peer size raw)) _ h3 in
      let same : record { kid = e.kid; label = e.label; pub_key = key; raw = raw; peer = peer }
          ≡ p =
        ap (λ (q : ConfigPeer × Sizes). q.0) (ok-injective h4) in
      let known = resolve-eq-ok sha1 ring e.kid resolved in
      rw (← same) (
        record {
          kid = known.0;
          key_len = known.1;
          full = (normalize-eq-ok size e.descr (wrap-eq-ok _ (normalize size e.descr) widened)).0;
          decoded = wrap-eq-ok _ (decode_peer size raw) decoded;
        },
        lookup_ref-IsIndexed ref m indexed (was_found (lookup_ref ref m) found),
      )
    where
      was_found : (o : Option KeyEntry) {e : KeyEntry} → found_peer ref o ≡ ok e → o ≡ some e
      was_found none f = cc
      was_found (some e') f = cc

  load_peers-eq-ok :
      ((key : Bytes) → IsDigest (sha1 key))
      → (refs : List PeerRef) (seen : Sizes) {ps : List ConfigPeer} {seen' : Sizes}
      → load_peers size sha1 ring m refs seen ≡ ok (ps, seen')
      → All (IsLoaded size sha1) ps × (refs_of sha1 (records_of ps) ≡ refs)
  unfolding load_peers
  load_peers-eq-ok digest [] seen {ps} h =
      let same : [] ≡ ps = ap (λ (q : List ConfigPeer × Sizes). q.0) (ok-injective h) in
      rw (← same) (tt, refl)
  load_peers-eq-ok digest (ref ∷ refs) seen {ps} h =
      let ((p, seen'), one, h1) = >>=-eq-ok (load_peer size sha1 ring m ref seen) _ h in
      let ((qs, seen''), rest, h2) = >>=-eq-ok (load_peers size sha1 ring m refs seen') _ h1 in
      let same : p ∷ qs ≡ ps = ap (λ (q : List ConfigPeer × Sizes). q.0) (ok-injective h2) in
      let (loaded, named) = load_peer-eq-ok ref seen one in
      let (more, order) = load_peers-eq-ok digest refs seen' rest in
      let own : peer_ref_from_kid p.kid ≡ ok (make_peer_ref sha1 p.pub_key) =
        ap peer_ref_from_kid (sym loaded.kid)
        ∙ peer_ref_from_kid-kid_of sha1 p.pub_key (digest p.pub_key) in
      let first : make_peer_ref sha1 p.pub_key ≡ ref = cc in
      rw (← same) ((loaded, more), rw (first, order) refl)

-- A tree that `loadFrom` returns is authentic, if SHA-1 gives digests: every key has the identifier
-- that was asked for, whoever supplied it; every record decodes to what the tree holds; the peers
-- are those that the interface record names, in its order; and the device has verified the MAC over
-- all of them under the identity's own key.
pub load_from-IsAuthentic :
    (fuel size : ℕ) (sha1 : Bytes → Bytes) (hem : Hem) (tok : TokenFunc) (entry : KeyEntry)
    (ring : Keyring) {t : Tree}
    → ((key : Bytes) → IsDigest (sha1 key))
    → load_from fuel size sha1 hem tok entry ring ≡ ok t
    → IsAuthentic size sha1 hem tok entry t
unfolding load_from
load_from-IsAuthentic fuel size sha1 hem tok entry ring {t} digest h =
    let (raw, h_raw, h1) = >>=-eq-ok (wrap _ (normalize size entry.descr)) _ h in
    let (iface, h_iface, h2) = >>=-eq-ok (wrap _ (decode_interface size raw)) _ h1 in
    let (_, _, h3) = >>=-eq-ok (fail_if (is_empty iface.peer_refs) _) _ h2 in
    let (key, h_key, h4) = >>=-eq-ok (resolve sha1 ring entry.kid) _ h3 in
    let (entries, _, h5) = >>=-eq-ok (search fuel hem tok magic_peer) _ h4 in
    let (m, h_m, h6) = >>=-eq-ok (candidates entries []) _ h5 in
    let ((ps, seen), h_ps, h7) =
      >>=-eq-ok (load_peers size sha1 ring m iface.peer_refs (new_sizes (length entry.descr))) _
        h6 in
    let (token, h_token, h8) = >>=-eq-ok (tok (use_scope entry.kid)) _ h7 in
    let check = verify size sha1 (hem.hmac token entry.kid) key raw (records_of ps) in
    let (_, h_check, h9) = >>=-eq-ok (wrap _ check) _ h8 in
    let known = resolve-eq-ok sha1 ring entry.kid h_key in
    let (loaded, order) =
      load_peers-eq-ok size sha1 ring m (candidates-IsIndexed entries [] tt h_m) digest
        iface.peer_refs (new_sizes (length entry.descr)) h_ps in
    let same : record {
      if_kid = entry.kid;
      if_label = entry.label;
      if_pub_key = key;
      if_raw = raw;
      iface = iface;
      peers = ps;
    }
        ≡ t =
      ok-injective h9 in
    rw (← same) (record {
      if_kid = refl;
      key = known.0;
      key_len = known.1;
      raw = wrap-eq-ok _ (normalize size entry.descr) h_raw;
      decoded = wrap-eq-ok _ (decode_interface size raw) h_iface;
      peers = loaded;
      refs = order;
      token = token;
      scoped = h_token;
      verified = wrap-eq-ok _ check h_check;
    })

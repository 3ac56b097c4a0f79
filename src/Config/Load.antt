-- ===== src/Config/Load.antt =====
-- internal/config/config.go: `loadFrom` and `Load`, `UnwrapPSK` and `MTU`; and the three ways to load
-- a named identity, of internal/config/identity.go.
use encedo_wg_hsm.Common.{
  codes, ℕ, not, Option, none, some, List, [], ◌∷◌, ◌++◌, Bytes, bytes_eq, length, is_empty, ◌==◌,
  if◌then◌else◌, Result, ok, err, ◌>>=◌, ◌>>◌, fail_if, wrap,
}
use encedo_wg_hsm.Descr.Records.{PeerRef, magic_interface, magic_peer}
use encedo_wg_hsm.Descr.Encode.{normalize}
use encedo_wg_hsm.Descr.Decode.{decode_interface}
use encedo_wg_hsm.Descr.DecodePeer.{decode_peer}
use encedo_wg_hsm.Descr.Kid.{KidError, peer_ref_from_kid}
use encedo_wg_hsm.Mac.Message.{PeerRecord, verify}
use encedo_wg_hsm.Hem.{Hem, KeyEntry}
use encedo_wg_hsm.Config.Records.{
  ConfigPeer, Tree, Sizes, new_sizes, add_size, explain, ConfigError, bad_size, bad_interface,
  bad_peer, names_no_peers, refs_collide, missing_peer, not_verified, unwrap_failed, bad_psk_len,
  psk_context, psk_len, default_mtu, TokenFunc,
}
use encedo_wg_hsm.Config.Keys.{Keyring, from_device, from_supplied, resolve}
use encedo_wg_hsm.Config.Search.{search}
use encedo_wg_hsm.Config.Identity.{ChooseFunc, pick, find_entry, found_entry}

-- `byRef`
abbrev pub RefMap : Type 0
RefMap = List (PeerRef × KeyEntry)

unfoldable pub lookup_ref : PeerRef → RefMap → Option KeyEntry
lookup_ref ref [] = none
lookup_ref ref ((r, e) ∷ m) = if bytes_eq r ref then some e else lookup_ref ref m

-- One candidate: an identifier that is none is passed over, a reference that is taken is refused.
unfoldable pub add_candidate :
    KeyEntry → Result KidError PeerRef → RefMap → Result ConfigError RefMap
add_candidate e (err _) m = ok m
add_candidate e (ok ref) m = elim (lookup_ref ref m) [
  | some prev ↦ err (refs_collide prev.kid e.kid ref)
  | none ↦ ok ((ref, e) ∷ m)
]

-- The loop over the peer records that the search returned.
unfoldable pub candidates : List KeyEntry → RefMap → Result ConfigError RefMap
candidates [] m = ok m
candidates (e ∷ es) m = do m' ← add_candidate e (peer_ref_from_kid e.kid) m; candidates es m'

abbrev pub found_peer : PeerRef → Option KeyEntry → Result ConfigError KeyEntry
found_peer ref none = err (missing_peer ref)
found_peer ref (some e) = ok e

-- One round of the loop over the references: the peer, and the sizes with its record's.
unfoldable pub load_peer :
    ℕ
    → (Bytes → Bytes)
    → Keyring
    → RefMap
    → PeerRef
    → Sizes
    → Result ConfigError (ConfigPeer × Sizes)
load_peer size sha1 ring m ref seen = do
  e ← found_peer ref (lookup_ref ref m)
  pub_key ← resolve sha1 ring e.kid
  let seen' = add_size (length e.descr) seen
  raw ← wrap (λ why. bad_size why (explain size seen')) (normalize size e.descr)
  peer ← wrap (bad_peer e.kid) (decode_peer size raw)
  ok (record { kid = e.kid; label = e.label; pub_key = pub_key; raw = raw; peer = peer }, seen')

-- The loop over the references.
unfoldable pub load_peers :
    ℕ
    → (Bytes → Bytes)
    → Keyring
    → RefMap
    → List PeerRef
    → Sizes
    → Result ConfigError (List ConfigPeer × Sizes)
load_peers size sha1 ring m [] seen = ok ([], seen)
load_peers size sha1 ring m (ref ∷ refs) seen = do
  (p, seen') ← load_peer size sha1 ring m ref seen
  (ps, seen'') ← load_peers size sha1 ring m refs seen'
  ok (p ∷ ps, seen'')

-- `records`, which the loop collects beside the peers.
abbrev pub records_of : List ConfigPeer → List PeerRecord
records_of [] = []
records_of (p ∷ ps) = record { pub_key = p.pub_key; descr = p.raw } ∷ records_of ps

abbrev pub use_scope : Bytes → Bytes
use_scope kid = codes "keymgmt:use:" ++ kid

-- `loadFrom`. `fuel` bounds the calls of the search.
unfoldable pub load_from :
    ℕ → ℕ → (Bytes → Bytes) → Hem → TokenFunc → KeyEntry → Keyring → Result ConfigError Tree
load_from fuel size sha1 hem tok entry ring = do
  let seen = new_sizes (length entry.descr)
  if_raw ← wrap (λ why. bad_size why (explain size seen)) (normalize size entry.descr)
  iface ← wrap bad_interface (decode_interface size if_raw)
  fail_if (is_empty iface.peer_refs) names_no_peers
  if_pub_key ← resolve sha1 ring entry.kid
  entries ← search fuel hem tok magic_peer
  m ← candidates entries []
  (peers, seen') ← load_peers size sha1 ring m iface.peer_refs seen
  use_tok ← tok (use_scope entry.kid)
  wrap (λ why. not_verified why (explain size seen'))
      (verify size sha1 (hem.hmac use_tok entry.kid) if_pub_key if_raw (records_of peers))
  ok (record {
    if_kid = entry.kid;
    if_label = entry.label;
    if_pub_key = if_pub_key;
    if_raw = if_raw;
    iface = iface;
    peers = peers;
  })

-- `Load`
unfoldable pub load :
    ℕ → ℕ → (Bytes → Bytes) → Hem → TokenFunc → Option ChooseFunc → Result ConfigError Tree
load fuel size sha1 hem tok choose = do
  entries ← search fuel hem tok magic_interface
  entry ← pick size entries choose
  load_from fuel size sha1 hem tok entry (from_device hem tok)

-- `loadNamed`
unfoldable pub load_named :
    ℕ → ℕ → (Bytes → Bytes) → Hem → TokenFunc → Bytes → Keyring → Result ConfigError Tree
load_named fuel size sha1 hem tok if_kid ring = do
  entries ← search fuel hem tok magic_interface
  entry ← found_entry if_kid (find_entry if_kid entries)
  load_from fuel size sha1 hem tok entry ring

-- `LoadIdentity`
unfoldable pub load_identity :
    ℕ → ℕ → (Bytes → Bytes) → Hem → TokenFunc → Bytes → Result ConfigError Tree
load_identity fuel size sha1 hem tok if_kid =
    load_named fuel size sha1 hem tok if_kid (from_device hem tok)

-- `LoadIdentityWithKeys`
unfoldable pub load_identity_with_keys :
    ℕ
    → ℕ
    → (Bytes → Bytes)
    → Hem
    → TokenFunc
    → Bytes
    → List (Bytes × Bytes)
    → Result ConfigError Tree
load_identity_with_keys fuel size sha1 hem tok if_kid keys =
    load_named fuel size sha1 hem tok if_kid (from_supplied keys)

-- `Tree.UnwrapPSK`: no wrapped key, no key.
unfoldable pub unwrap_psk : Hem → Bytes → Tree → ConfigPeer → Result ConfigError Bytes
unwrap_psk hem use_tok t p = if is_empty p.peer.psk_wrapped then ok [] else (do
  psk ←
      wrap unwrap_failed (hem.cipher_unwrap use_tok t.if_kid (psk_context p.kid) p.peer.psk_wrapped)
  fail_if (not (length psk == psk_len)) (bad_psk_len (length psk))
  ok psk)

-- `Tree.MTU`
unfoldable pub mtu_of : Tree → ℕ
mtu_of t = if t.iface.mtu == 0 then default_mtu else t.iface.mtu

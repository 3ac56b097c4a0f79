-- ===== src/Provision/Place.antt =====
-- internal/provision/adopt.go: `PlacePeer`, `importPeer` and `ReadPeerRecord`.
use encedo_wg_hsm.Common.{
  codes, ℕ, zero, suc, ◌+◌, Bool, true, false, not, ◌&&◌, ◌||◌, ◌==◌, leb, Option, none, some, List,
  [], Bytes, bytes_eq, length, is_empty, if◌then◌else◌, Result, ok, err, wrap,
}
use encedo_wg_hsm.Descr.Records.{magic_peer}
use encedo_wg_hsm.Descr.Encode.{normalize}
use encedo_wg_hsm.Descr.DecodePeer.{decode_peer}
use encedo_wg_hsm.Descr.Kid.{kid_of}
use encedo_wg_hsm.Hem.{HemError, hem_error, other_error, KeyEntry, is_auth_error}
use encedo_wg_hsm.Config.Identity.{find_entry}
use encedo_wg_hsm.Effect.{pure, fail, lift, fail_when, ◌>>=◌, ◌>>◌}
use encedo_wg_hsm.Provision.Spec.{
  PeerSpec, bad_record, device_error, other_key, foreign_key, differs, foreign_psk, wrong_kid,
  no_fuel,
}
use encedo_wg_hsm.Provision.Calls.{get_key, search, import_key, Device, Act, request, answered}

module _ (size : ℕ) (sha1 : Bytes → Bytes) (device : Device) where
  -- The record of the entry that was found.
  unfoldable pub stored_record : KeyEntry → Act (Option Bytes)
  stored_record e = do rec ← lift (wrap bad_record (normalize size e.descr)); pure (some rec)

  -- What the loop of `ReadPeerRecord` does with a page, and how it goes on behind it.
  unfoldable pub after_page :
      (ℕ → Act (Option Bytes)) → ℕ → ℕ → List KeyEntry → Option KeyEntry → Act (Option Bytes)
  after_page more offset total page (some e) = stored_record e
  after_page more offset total page none =
      if is_empty page || leb total (offset + length page)
      then pure none
      else more (offset + length page)

  -- What it does with an answer: a first refusal is met with a token.
  unfoldable pub after_answer :
      (Bytes → Act (Option Bytes))
      → (ℕ → Act (Option Bytes))
      → Bytes
      → Bytes
      → ℕ
      → Result HemError (ℕ × List KeyEntry)
      → Act (Option Bytes)
  after_answer again more kid token offset (err e) =
      if is_auth_error e && is_empty token
      then lift (device.token (codes "keymgmt:search")) >>= again
      else fail (device_error e)
  after_answer again more kid token offset (ok (total, page)) =
      after_page more offset total page (find_entry kid page)

  -- The loop, with fuel for a number of calls.
  unfoldable pub read_loop : ℕ → Bytes → Bytes → ℕ → Act (Option Bytes)
  read_loop zero kid token offset = fail no_fuel
  read_loop (suc fuel) kid token offset = do
    answer ← request (search offset) (λ log. device.on_search log token magic_peer offset)
    after_answer (λ token'. read_loop fuel kid token' offset)
        (λ offset'. read_loop fuel kid token offset') kid token offset answer

  -- `ReadPeerRecord`
  unfoldable pub read_peer_record : ℕ → Bytes → Act (Option Bytes)
  read_peer_record fuel kid = read_loop fuel kid [] 0

  -- `importPeer`
  unfoldable pub import_peer : PeerSpec → Bytes → Act (Bytes × Bool)
  import_peer p want = do
    token ← lift (device.token (codes "keymgmt:imp"))
    answer ←
        request (import_key p.label p.pub_key want)
          (λ log. device.on_import log p.label p.pub_key want)
    kid ← answered answer
    fail_when (not (bytes_eq kid (kid_of sha1 p.pub_key))) (wrong_kid kid)
    pure (kid, false)

  -- The key is in the device, and this is the record that it carries, if any.
  unfoldable pub settle : Bytes → Bool → Bytes → Option Bytes → Act (Bytes × Bool)
  settle kid adopt want none = fail foreign_key
  settle kid adopt want (some current) = if bytes_eq current want then pure (kid, true) else (do
    fail_when (not adopt) differs
    peer ← lift (wrap bad_record (decode_peer size current))
    fail_when (not (is_empty peer.psk_wrapped)) foreign_psk
    pure (kid, true))

  -- `he.Status == 404 || he.Status == 406`
  abbrev pub is_missing : HemError → Bool
  is_missing (hem_error status code) = status == 404 || status == 406
  is_missing (other_error n) = false

  -- What the device says of the key that is to be placed.
  unfoldable pub placed :
      ℕ → PeerSpec → Bytes → Bool → Result HemError (Bytes × Bytes) → Act (Bytes × Bool)
  placed fuel p want adopt (err e) =
      if is_missing e then import_peer p want else fail (device_error e)
  placed fuel p want adopt (ok (kind, key)) = do
    fail_when (not (bytes_eq key p.pub_key)) other_key
    current ← read_peer_record fuel (kid_of sha1 p.pub_key)
    settle (kid_of sha1 p.pub_key) adopt want current

  -- `PlacePeer`: the identifier, and whether the record was there already.
  unfoldable pub place_peer : ℕ → PeerSpec → Bytes → Bool → Act (Bytes × Bool)
  place_peer fuel p want adopt = do
    token ← lift (device.token (codes "keymgmt:get"))
    answer ←
        request (get_key (kid_of sha1 p.pub_key)) (λ log. device.on_get log (kid_of sha1 p.pub_key))
    placed fuel p want adopt answer

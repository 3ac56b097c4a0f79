-- ===== src/Provision/Run.antt =====
-- internal/provision/provision.go: `Run` with its deferred function, and `WrapPSK` of psk.go.
use encedo_wg_hsm.Common.{
  codes, ℕ, ◌+◌, ◌%◌, Bool, true, false, not, ◌&&◌, ◌==◌, Option, none, some, List, [], ◌∷◌, Bytes,
  length, replicate, take, ◌++◌, is_empty, contains, if◌then◌else◌, Result, ok, err, wrap,
}
use encedo_wg_hsm.Descr.Records.{Interface, PeerRef, mac_len, psk_wrapped_len}
use encedo_wg_hsm.Descr.Encode.{encode_peer, encode_interface}
use encedo_wg_hsm.Descr.Kid.{kid_of}
use encedo_wg_hsm.Mac.Message.{PeerRecord, pub_key_len, make_peer_ref, sign, verify}
use encedo_wg_hsm.Config.Records.{psk_context}
use encedo_wg_hsm.Config.Load.{use_scope}
use encedo_wg_hsm.Effect.{pure, fail, lift, read, update, fail_when, ◌>>=◌, ◌>>◌}
use encedo_wg_hsm.Provision.Spec.{
  key_type, PeerSpec, Params, ProvisionError, bad_record, wrong_type, bad_key_len, bad_wrap_len,
  not_signed, not_verified, lost_record, spec_record, validate_params,
}
use encedo_wg_hsm.Provision.Calls.{
  create, get_key, wrap_key, write, sign_tree, verify_tree, delete, Device, World, Act, logged,
  request, answered,
}
use encedo_wg_hsm.Provision.Place.{place_peer, read_peer_record}

-- `Result`, with the keys as bytes.
pub record Provisioned : Type 0 where
  pub if_kid : Bytes
  pub pub_key : Bytes
  pub peer_count : ℕ
  pub psk : Option Bytes

-- `Cleanup`
pub record Cleanup : Type 0 where
  pub identity_kid : Bytes
  pub identity_removed : Bool
  pub removal_err : Option ProvisionError
  pub imported_peers : ℕ

abbrev pub no_cleanup : Cleanup
no_cleanup = record {
  identity_kid = [];
  identity_removed = false;
  removal_err = none;
  imported_peers = 0;
}

-- The interface record before it is signed.
abbrev pub unsigned_of : Params → List PeerRef → Interface
unsigned_of p refs = record {
  addrs = p.addrs;
  mtu = p.mtu % 65536;
  dns = p.dns;
  peer_refs = refs;
  listen_port = p.listen_port % 65536;
  mac = replicate mac_len 0;
  has_mac = true;
}

abbrev pub refs_of_specs : (Bytes → Bytes) → List PeerSpec → List PeerRef
refs_of_specs sha1 [] = []
refs_of_specs sha1 (s ∷ ss) = make_peer_ref sha1 s.pub_key ∷ refs_of_specs sha1 ss

-- A key as the array of 32 bytes that it is copied into.
unfoldable pub key_array : Bytes → Bytes
key_array key = take 32 (key ++ replicate 32 0)

abbrev pub result_of : Params → Bytes → Bytes → Provisioned
result_of p if_kid key = record {
  if_kid = if_kid;
  pub_key = key;
  peer_count = length p.peers;
  psk = if p.psk_generated then p.psk else none;
}

abbrev pub first_world : Params → World
first_world p = record {
  calls = [];
  if_kid = p.kid;
  created = false;
  written = false;
  imported = 0;
}

module _ (fuel size : ℕ) (sha1 : Bytes → Bytes) (device : Device) where
  -- `WrapPSK`
  unfoldable pub wrap_psk : Bytes → Bytes → Option Bytes → Act (Option Bytes)
  wrap_psk if_kid peer_kid none = pure none
  wrap_psk if_kid peer_kid (some psk) = do
    answer ←
        request (wrap_key if_kid psk (psk_context peer_kid))
          (λ log. device.on_wrap log if_kid psk (psk_context peer_kid))
    wrapped ← answered answer
    fail_when (not (length wrapped == psk_wrapped_len)) (bad_wrap_len (length wrapped))
    pure (some wrapped)

  -- A record that was there is read back; Go would panic where there is none.
  unfoldable pub stored_or_lost : Option Bytes → Act Bytes
  stored_or_lost none = fail lost_record
  stored_or_lost (some rec) = pure rec

  unfoldable pub record_in_use : PeerSpec → Bytes → Bool → Act Bytes
  record_in_use spec enc true = do
    stored ← read_peer_record size sha1 device fuel (kid_of sha1 spec.pub_key)
    stored_or_lost stored
  record_in_use spec enc false = do update (λ w. record w { imported = w.imported + 1 }); pure enc

  -- One round of the loop over the peers.
  unfoldable pub place_one : Params → Bytes → PeerSpec → Act PeerRecord
  place_one p if_kid spec = do
    wrapped ← wrap_psk if_kid (kid_of sha1 spec.pub_key) p.psk
    rec ← lift (wrap bad_record (spec_record size spec wrapped))
    enc ← lift (wrap bad_record (encode_peer size rec))
    (kid, adopted) ← place_peer size sha1 device fuel spec enc p.adopt
    enc' ← record_in_use spec enc adopted
    pure (record { pub_key = key_array spec.pub_key; descr = enc' })

  unfoldable pub place_all : Params → Bytes → List PeerSpec → Act (List PeerRecord)
  place_all p if_kid [] = pure []
  place_all p if_kid (spec ∷ specs) = do
    r ← place_one p if_kid spec
    rs ← place_all p if_kid specs
    pure (r ∷ rs)

  -- The identity key: a new one, or the one that was named.
  unfoldable pub obtain_identity : Params → Act (Unit {0})
  obtain_identity p =
      if is_empty p.kid
      then (do
        token ← lift (device.token (codes "keymgmt:gen"))
        answer ← request (create p.label) (λ log. device.on_create log p.label)
        kid ← answered answer
        update (λ w. record w { if_kid = kid; created = true }))
      else pure tt

  -- The public key of the identity, checked.
  unfoldable pub identity_key : Bytes → Act Bytes
  identity_key if_kid = do
    token ← lift (device.token (use_scope if_kid))
    answer ← request (get_key if_kid) (λ log. device.on_get log if_kid)
    (kind, key) ← answered answer
    fail_when (not (is_empty kind) && not (contains kind key_type)) (wrong_type kind)
    fail_when (not (length key == pub_key_len)) (bad_key_len (length key))
    pure key

  -- The signed record is written.
  unfoldable pub write_record : Bytes → Bytes → Bytes → Act Bytes
  write_record kid label descr = do
    token ← lift (device.token (codes "keymgmt:upd"))
    answer ← request (write kid label descr) (λ log. device.on_write log kid label descr)
    done ← answered answer
    update (λ w. record w { written = true })
    pure descr

  -- The record `rec`, whose encoding without its code is `unsigned`, is signed.
  unfoldable pub sign_record : Bytes → Bytes → List PeerRecord → Interface → Bytes → Act Bytes
  sign_record if_kid key records rec unsigned = do
    update (logged (sign_tree if_kid))
    sum ← lift (wrap not_signed (sign size sha1 (device.hmac if_kid) key unsigned records))
    lift (wrap bad_record (encode_interface size (record rec { mac = sum })))

  -- The body of `Run`, behind `Validate`.
  unfoldable pub run_body : Params → Act Provisioned
  run_body p = do
    obtain_identity p
    if_kid ← read (λ w. w.if_kid)
    key ← identity_key if_kid
    records ← place_all p if_kid p.peers
    unsigned ←
        lift (wrap bad_record (encode_interface size (unsigned_of p (refs_of_specs sha1 p.peers))))
    signed ← sign_record if_kid key records (unsigned_of p (refs_of_specs sha1 p.peers)) unsigned
    written ← write_record if_kid p.label signed
    update (logged (verify_tree if_kid))
    done ← lift (wrap not_verified (verify size sha1 (device.hmac if_kid) key signed records))
    pure (result_of p if_kid key)

  -- `deleteKey`
  unfoldable pub delete_key : Bytes → Act (Unit {0})
  delete_key kid = do
    token ← lift (device.token (codes "keymgmt:del"))
    answer ← request (delete kid) (λ log. device.on_delete log kid)
    answered answer

  abbrev pub removal : World → Result ProvisionError (Unit {0}) × World → Cleanup × World
  removal w (ok u, w') = (
    record {
      identity_kid = w.if_kid;
      identity_removed = true;
      removal_err = none;
      imported_peers = w.imported;
    },
    w',
  )
  removal w (err e, w') = (
    record {
      identity_kid = w.if_kid;
      identity_removed = false;
      removal_err = some e;
      imported_peers = w.imported;
    },
    w',
  )

  -- The deferred function, after a failure.
  unfoldable pub clean_up : World → Cleanup × World
  clean_up w = if w.created && not w.written then removal w (delete_key w.if_kid w) else (
    record {
      identity_kid = w.if_kid;
      identity_removed = false;
      removal_err = none;
      imported_peers = w.imported;
    },
    w,
  )

  abbrev pub finished :
      Result ProvisionError Provisioned × World
      → Result ProvisionError Provisioned × (Cleanup × World)
  finished (ok r, w) = (ok r, (no_cleanup, w))
  finished (err e, w) = (err e, clean_up w)

  abbrev pub after_validation :
      Params
      → Result ProvisionError (Unit {0})
      → Result ProvisionError Provisioned × (Cleanup × World)
  after_validation p (err e) = (err e, (no_cleanup, first_world p))
  after_validation p (ok u) = finished (run_body p (first_world p))

  -- `Run`: the result, what a failure left behind, and the calls that were made.
  unfoldable pub run : Params → Result ProvisionError Provisioned × (Cleanup × World)
  run p = after_validation p (validate_params size p)

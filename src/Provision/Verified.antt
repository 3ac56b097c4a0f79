-- ===== src/Provision/Verified.antt =====
-- internal/provision: what `Run` leaves in the device when it succeeds.
use encedo_wg_hsm.Common.{
  codes, ℕ, ◌≡◌, refl, ap, ◌⊎◌, inl, inr, arith, Bool, false, ◌&&◌, ◌==◌, Bool-cases, and-eq-true,
  length, replicate, take, take-length_append, ◌++◌, ◌∙◌, subst, true, List, [], ◌∷◌, Bytes, Result,
  ok, err, wrap, wrap-eq-ok,
}
use encedo_wg_hsm.Descr.Encode.{encode_peer, encode_interface}
use encedo_wg_hsm.Descr.Kid.{kid_of}
use encedo_wg_hsm.Provision.Place.{place_peer}
use encedo_wg_hsm.Mac.Message.{PeerRecord, verify}
use encedo_wg_hsm.Effect.{
  pure, lift, read, update, ◌>>=◌, ◌>>◌, Ends, Ensures, Ensures-pure, Ensures-lift, Ensures-bind,
  Yields, Yields-after, Yields-given,
}
use encedo_wg_hsm.Provision.Spec.{
  device_error, PeerSpec, spec_record, bad_record, Params, ProvisionError, validate_params,
  not_verified,
}
use encedo_wg_hsm.Provision.Calls.{
  Call, write, verify_tree, Device, World, logged, request, answered,
}
use encedo_wg_hsm.Provision.Run.{
  unsigned_of, refs_of_specs, key_array, obtain_identity, identity_key, sign_record, wrap_psk,
  record_in_use, Provisioned, Cleanup, no_cleanup, result_of, place_one, place_all, write_record,
  run_body, first_world, finished, after_validation, run,
}

abbrev pub keys_of_specs : List PeerSpec → List Bytes
keys_of_specs [] = []
keys_of_specs (s ∷ ss) = s.pub_key ∷ keys_of_specs ss

-- A key of 32 bytes fills its array.
key_array-full : (key : Bytes) → length key ≡ 32 → key_array key ≡ key
unfolding key_array
key_array-full key h =
    subst (λ n. take n (key ++ replicate 32 0) ≡ key) h (take-length_append key (replicate 32 0))

abbrev pub arrays_of : List Bytes → List Bytes
arrays_of [] = []
arrays_of (k ∷ ks) = key_array k ∷ arrays_of ks

-- All keys are as long as an array.
abbrev pub all_whole : List PeerSpec → Bool
all_whole [] = true
all_whole (s ∷ ss) = (length s.pub_key == 32) && all_whole ss

arrays_of-keys_of_specs :
    (specs : List PeerSpec)
    → all_whole specs ≡ true
    → arrays_of (keys_of_specs specs) ≡ keys_of_specs specs
arrays_of-keys_of_specs [] h = refl
arrays_of-keys_of_specs (s ∷ ss) h =
    let (first, rest) = and-eq-true (length s.pub_key == 32) (all_whole ss) h in
    rw (key_array-full s.pub_key (ground arith), arrays_of-keys_of_specs ss rest) refl

abbrev pub keys_of_records : List PeerRecord → List Bytes
keys_of_records [] = []
keys_of_records (r ∷ rs) = r.pub_key ∷ keys_of_records rs

-- The device accepted `signed` as the record of the identity, which is the call before the last, and
-- over that record and `records` the code is good. The keys of the records are those of the peers
-- that were asked for, in their order, as arrays of 32 bytes; they are the keys themselves where each has that length.
pub record IsVerified (size : ℕ) (sha1 : Bytes → Bytes) (device : Device) (p : Params)
    (r : Provisioned) (w : World) : Type 0 where
  pub signed : Bytes
  pub records : List PeerRecord
  pub log : List Call
  pub calls : w.calls ≡ verify_tree r.if_kid ∷ write r.if_kid p.label signed ∷ log
  pub accepted : device.on_write log r.if_kid p.label signed ≡ ok tt
  pub verified : verify size sha1 (device.hmac r.if_kid) r.pub_key signed records ≡ ok tt
  pub keys : keys_of_records records ≡ arrays_of (keys_of_specs p.peers)
  pub whole : (keys_of_records records ≡ keys_of_specs p.peers) ⊎ (all_whole p.peers ≡ false)

whole_keys :
    (records : List PeerRecord) (specs : List PeerSpec)
    → keys_of_records records ≡ arrays_of (keys_of_specs specs)
    → (keys_of_records records ≡ keys_of_specs specs) ⊎ (all_whole specs ≡ false)
whole_keys records specs h = elim (Bool-cases (all_whole specs)) [
  | inl e ↦ inl (h ∙ arrays_of-keys_of_specs specs e)
  | inr e ↦ inr e
]

module _ (fuel size : ℕ) (sha1 : Bytes → Bytes) (device : Device) where
  Yields-place_one :
      (p : Params) (if_kid : Bytes) (spec : PeerSpec)
      → Yields
          (place_one fuel size sha1 device p if_kid spec)
          (λ r w. r.pub_key ≡ key_array spec.pub_key)
  unfolding place_one
  Yields-place_one p if_kid spec =
      Yields-after (wrap_psk fuel size sha1 device if_kid (kid_of sha1 spec.pub_key) p.psk) _
        (λ wrapped. Yields-after (lift (wrap bad_record (spec_record size spec wrapped))) _ (λ rec.
          Yields-after (lift (wrap bad_record (encode_peer size rec))) _ (λ enc.
            Yields-after (place_peer size sha1 device fuel spec enc p.adopt) _ (λ (kid, adopted).
              Yields-after (record_in_use fuel size sha1 device spec enc adopted) _
                (λ enc'. Ensures-pure _ (λ w u. refl))))))

  Yields-place_all :
      (p : Params) (if_kid : Bytes) (specs : List PeerSpec)
      → Yields
          (place_all fuel size sha1 device p if_kid specs)
          (λ rs w. keys_of_records rs ≡ arrays_of (keys_of_specs specs))
  unfolding place_all
  Yields-place_all p if_kid [] = Ensures-pure [] (λ w u. refl)
  Yields-place_all p if_kid (spec ∷ specs) =
      Ensures-bind (λ r w. r.pub_key ≡ key_array spec.pub_key)
        (place_one fuel size sha1 device p if_kid spec) _ (Yields-place_one p if_kid spec)
        (λ r. Yields-given (r.pub_key ≡ key_array spec.pub_key) _ (λ first.
          Ensures-bind (λ rs w. keys_of_records rs ≡ arrays_of (keys_of_specs specs))
            (place_all fuel size sha1 device p if_kid specs) _ (Yields-place_all p if_kid specs)
            (λ rs. Ensures-pure (r ∷ rs) (λ w rest. rw (first, rest) refl))))

  abbrev IsSent : Bytes → Bytes → Bytes → World → Type 0
  IsSent kid label descr w =
      (log : List Call) × (w.calls ≡ write kid label descr ∷ log)
      × (device.on_write log kid label descr ≡ ok tt)

  Yields-write_record :
      (kid label descr : Bytes)
      → Yields
          (write_record fuel size sha1 device kid label descr)
          (λ d w. IsSent kid label descr w)
  unfolding write_record request
  Yields-write_record kid label descr =
      Yields-after (lift (device.token (codes "keymgmt:upd"))) _ (λ token.
        Ensures-bind
          (λ r w.
            (log : List Call) × (w.calls ≡ write kid label descr ∷ log)
            × (device.on_write log kid label descr ≡ r))
          (request (write kid label descr) (λ log. device.on_write log kid label descr))
          (λ r. answered r >>= λ done. update (λ w. record w { written = true }) >> pure descr)
          (record { at = λ w u. (w.calls, refl, refl) })
          (λ r.
            Ensures-bind (λ d. IsSent kid label descr) (answered r)
              (λ done. update (λ w. record w { written = true }) >> pure descr)
              (Ensures-lift (wrap device_error r)
                (λ a e w (log, c, d). (log, c, d ∙ wrap-eq-ok device_error r e)) (λ e w h. tt))
              (λ d. record { at = λ w h. h })))

  Ensures-checked :
      (p : Params) (if_kid key signed : Bytes) (records : List PeerRecord)
      → keys_of_records records ≡ arrays_of (keys_of_specs p.peers)
      → Ensures
          (IsSent if_kid p.label signed)
          (do
            update (logged (verify_tree if_kid))
            done ←
                lift (wrap not_verified (verify size sha1 (device.hmac if_kid) key signed records))
            pure (result_of p if_kid key))
          (IsVerified size sha1 device p)
          (λ e w. Unit)
  Ensures-checked p if_kid key signed records keys =
      Ensures-bind
        (λ u w.
          (log : List Call) × (w.calls ≡ verify_tree if_kid ∷ write if_kid p.label signed ∷ log)
          × (device.on_write log if_kid p.label signed ≡ ok tt))
        (update (logged (verify_tree if_kid))) _
        (record { at = λ w (log, c, d). (log, ap (verify_tree if_kid ∷◌) c, d) })
        (λ u.
          Ensures-bind
            (λ done w.
              (log : List Call) × (w.calls ≡ verify_tree if_kid ∷ write if_kid p.label signed ∷ log)
              × (device.on_write log if_kid p.label signed ≡ ok tt)
              × (verify size sha1 (device.hmac if_kid) key signed records ≡ ok tt))
            (lift (wrap not_verified (verify size sha1 (device.hmac if_kid) key signed records))) _
            (Ensures-lift _ (λ a e w (log, c, d). (log, c, d, wrap-eq-ok not_verified _ e))
              (λ e w h. tt))
            (λ done. Ensures-pure (result_of p if_kid key) (λ w (log, c, d, v). record {
              signed = signed;
              records = records;
              log = log;
              calls = c;
              accepted = d;
              verified = v;
              keys = keys;
              whole = whole_keys records p.peers keys;
            })))

  Yields-run_body :
      (p : Params) → Yields (run_body fuel size sha1 device p) (IsVerified size sha1 device p)
  unfolding run_body
  Yields-run_body p = Yields-after (obtain_identity fuel size sha1 device p) _ (λ u.
      Yields-after (read (λ w. w.if_kid)) _ (λ if_kid.
        Yields-after (identity_key fuel size sha1 device if_kid) _ (λ key.
          Ensures-bind (λ rs w. keys_of_records rs ≡ arrays_of (keys_of_specs p.peers))
            (place_all fuel size sha1 device p if_kid p.peers) _ (Yields-place_all p if_kid p.peers)
            (λ records.
              Yields-given (keys_of_records records ≡ arrays_of (keys_of_specs p.peers)) _ (λ keys.
                Yields-after
                  (lift (
                    wrap bad_record
                      (encode_interface size (unsigned_of p (refs_of_specs sha1 p.peers)))))
                  _
                  (λ unsigned.
                    Yields-after
                      (sign_record fuel size sha1 device if_kid key records
                        (unsigned_of p (refs_of_specs sha1 p.peers)) unsigned)
                      _
                      (λ signed.
                        Ensures-bind (λ d. IsSent if_kid p.label signed)
                          (write_record fuel size sha1 device if_kid p.label signed) _
                          (Yields-write_record if_kid p.label signed)
                          (λ written. Ensures-checked p if_kid key signed records keys))))))))

  -- What a success stands for.
  abbrev Outcome : Params → Result ProvisionError Provisioned × (Cleanup × World) → Type 0
  Outcome p (ok r, (c, w)) =
      (validate_params size p ≡ ok tt) × (c ≡ no_cleanup) × IsVerified size sha1 device p r w
  Outcome p (err e, s) = Unit

  finished-Outcome :
      (p : Params) (o : Result ProvisionError Provisioned × World)
      → validate_params size p ≡ ok tt
      → Ends (IsVerified size sha1 device p) (λ e w. Unit) o
      → Outcome p (finished fuel size sha1 device o)
  finished-Outcome p (ok r, w) e v = (e, refl, v)
  finished-Outcome p (err x, w) e v = tt

  after_validation-Outcome :
      (p : Params) (v : Result ProvisionError (Unit {0}))
      → validate_params size p ≡ v
      → Outcome p (after_validation fuel size sha1 device p v)
  after_validation-Outcome p (ok u) e =
      finished-Outcome p (run_body fuel size sha1 device p (first_world p)) e
        ((Yields-run_body p).at (first_world p) tt)
  after_validation-Outcome p (err x) e = tt

  -- A run that succeeds was asked for valid parameters, reports nothing to clean up, and its last
  -- calls but the verification wrote to the identity a record that the device accepted, over which and the
  -- peers' records the code is good; the keys of those records are those of the peers that were
  -- asked for, in their order, as the arrays of 32 bytes that they are copied into: the keys themselves,
  -- unless some key has another length.
  pub run-IsVerified :
      (p : Params) (r : Provisioned) (c : Cleanup) (w : World)
      → run fuel size sha1 device p ≡ (ok r, (c, w))
      → (validate_params size p ≡ ok tt) × (c ≡ no_cleanup) × IsVerified size sha1 device p r w
  unfolding run
  run-IsVerified p r c w h =
      subst (Outcome p) h (after_validation-Outcome p (validate_params size p) refl)

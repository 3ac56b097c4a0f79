-- ===== src/Provision/Rolled.antt =====
-- internal/provision: what the deferred function of `Run` deletes.
use encedo_wg_hsm.Common.{
  codes, ℕ, ◌≡◌, refl, ap, ◌∙◌, true, false, not, ◌&&◌, ◌||◌, List, [], ◌∷◌, Bytes, is_empty,
  if◌then◌else◌, Result, ok, err, wrap, if_split, not-eq-true, and-eq-true,
}
use encedo_wg_hsm.Hem.{HemError}
use encedo_wg_hsm.Descr.Records.{Interface}
use encedo_wg_hsm.Descr.Encode.{encode_interface}
use encedo_wg_hsm.Mac.Message.{sign, PeerRecord}
use encedo_wg_hsm.Effect.{
  pure, lift, update, ◌>>=◌, ◌>>◌, Ends, Ensures, Ensures-pure, Ensures-fail, Ensures-lift,
  Ensures-if, Ensures-bind, Keeps, Keeps-pure, Keeps-lift, Keeps-bind, keeps_rules,
}
use encedo_wg_hsm.Provision.Spec.{
  Params, ProvisionError, device_error, bad_record, not_signed, validate_params,
}
use encedo_wg_hsm.Provision.Calls.{
  Call, create, write, sign_tree, verify_tree, delete, Device, World, Act, logged, request,
  answered,
}
use encedo_wg_hsm.Provision.Run.{
  Provisioned, Cleanup, obtain_identity, write_record, sign_record, run_body, delete_key, removal,
  clean_up, first_world, finished, after_validation, run,
}
use encedo_wg_hsm.Provision.Rollback.{onto, accepted, made, wrote, IsRollback, IsTracked}
use encedo_wg_hsm.Provision.Tracked.{Keeps-place_all, Keeps-identity_key, Keeps-logged}

module _ (fuel size : ℕ) (sha1 : Bytes → Bytes) (device : Device) where
  abbrev T : World → Type 0
  T = IsTracked device

  -- The variables agree with the calls once those of an accepted answer are set.
  abbrev Settled : {A : Type 0} → (A → World → World) → Result HemError A → World → Type 0
  Settled set (ok a) w = T (set a w)
  Settled set (err e) w = T w

  Ensures-answered :
      {A : Type 0} (set : A → World → World) (r : Result HemError A)
      → Ensures (Settled set r) (answered r) (λ a w. T (set a w)) (λ e. T)
  Ensures-answered set (ok a) = Ensures-pure a (λ w h. h)
  Ensures-answered set (err e) = Ensures-fail (device_error e) (λ w h. h)

  -- No key has been created yet.
  abbrev IsFresh : World → Type 0
  IsFresh w = T w × (made device w.calls ≡ [])

  abbrev adopt_key : Bytes → World → World
  adopt_key kid w = record w { if_kid = kid; created = true }

  created-Settled :
      (label : Bytes) (w : World) (r : Result HemError Bytes)
      → device.on_create w.calls label ≡ r
      → IsFresh w
      → Settled adopt_key r (logged (create label) w)
  created-Settled label w (ok kid) h (t, n) = record {
    rollback = t.rollback;
    made_one = ap (λ r. onto device r (made device w.calls)) h ∙ ap (kid ∷◌) n;
    wrote_it = t.wrote_it;
  }
  created-Settled label w (err x) h (t, n) = record {
    rollback = t.rollback;
    made_one = ap (λ r. onto device r (made device w.calls)) h ∙ t.made_one;
    wrote_it = t.wrote_it;
  }

  abbrev mark_written : Unit {0} → World → World
  mark_written u w = record w { written = true }

  written-Settled :
      (kid label descr : Bytes) (w : World) (r : Result HemError (Unit {0}))
      → device.on_write w.calls kid label descr ≡ r
      → T w
      → Settled mark_written r (logged (write kid label descr) w)
  written-Settled kid label descr w (ok u) h t = record {
    rollback = t.rollback;
    made_one = t.made_one;
    wrote_it = ap (λ r. accepted device r || wrote device w.calls) h;
  }
  written-Settled kid label descr w (err x) h t = record {
    rollback = t.rollback;
    made_one = t.made_one;
    wrote_it = ap (λ r. accepted device r || wrote device w.calls) h ∙ t.wrote_it;
  }

  -- A call, its answer, and the variables that are set on success.
  Ensures-call :
      {A B : Type 0} {P : World → Type 0} (c : Call) (answer : List Call → Result HemError A)
      (set : A → World → World) (k : A → Act B)
      → ((w : World) → P w → Settled set (answer w.calls) (logged c w))
      → ((a : A) → Ensures (λ w. T (set a w)) (k a) (λ b. T) (λ e. T))
      → Ensures P (request c answer >>= λ r. answered r >>= k) (λ b. T) (λ e. T)
  unfolding request
  Ensures-call c answer set k h rest =
      Ensures-bind (Settled set) (request c answer) _ (record { at = h })
        (λ r. Ensures-bind (λ a w. T (set a w)) (answered r) k (Ensures-answered set r) rest)

  Ensures-set :
      {B : Type 0} (set : World → World) (k : Act B)
      → Keeps T k
      → Ensures (λ w. T (set w)) (update set >> k) (λ b. T) (λ e. T)
  Ensures-set set k h = record { at = λ w t. h.at (set w) t }

  Ensures-obtain_identity :
      (p : Params) → Ensures IsFresh (obtain_identity fuel size sha1 device p) (λ u. T) (λ e. T)
  unfolding obtain_identity
  Ensures-obtain_identity p =
      Ensures-if (is_empty p.kid) _ _
        (λ empty.
          Ensures-bind (λ token. IsFresh) (lift (device.token (codes "keymgmt:gen"))) _
            (Ensures-lift _ (λ a e w h. h) (λ e w (t, n). t))
            (λ token.
              Ensures-call (create p.label) (λ log. device.on_create log p.label) adopt_key
                (λ kid. update (adopt_key kid))
                (λ w h. created-Settled p.label w (device.on_create w.calls p.label) refl h)
                (λ kid. record { at = λ w h. h })))
        (λ named. Ensures-pure tt (λ w (t, n). t))

  Keeps-write_record :
      (kid label descr : Bytes) → Keeps T (write_record fuel size sha1 device kid label descr)
  unfolding write_record
  Keeps-write_record kid label descr =
      Keeps-bind (lift (device.token (codes "keymgmt:upd"))) _ (Keeps-lift _) (λ token.
        Ensures-call (write kid label descr) (λ log. device.on_write log kid label descr)
          mark_written (λ u. update (mark_written u) >> pure descr)
          (λ w t.
            written-Settled kid label descr w (device.on_write w.calls kid label descr) refl t)
          (λ u. Ensures-set (mark_written u) (pure descr) (Keeps-pure descr)))

  Keeps-sign_record :
      (if_kid key : Bytes) (records : List PeerRecord) (rec : Interface) (unsigned : Bytes)
      → Keeps T (sign_record fuel size sha1 device if_kid key records rec unsigned)
  unfolding sign_record
  Keeps-sign_record if_kid key records rec unsigned =
      Keeps-bind (update (logged (sign_tree if_kid))) _
        (Keeps-logged size sha1 device (sign_tree if_kid) refl)
        (λ done.
          Keeps-bind
            (lift (wrap not_signed (sign size sha1 (device.hmac if_kid) key unsigned records))) _
            (Keeps-lift _)
            (λ sum.
              Keeps-lift (wrap bad_record (encode_interface size (record rec { mac = sum })))))

  Ensures-run_body :
      (p : Params) → Ensures IsFresh (run_body fuel size sha1 device p) (λ r. T) (λ e. T)
  unfolding run_body
  Ensures-run_body p =
      Ensures-bind (λ u. T) _ _ (Ensures-obtain_identity p)
        (λ u.
          search
            (
              keeps_rules,
              Keeps-place_all size sha1 device,
              Keeps-identity_key size sha1 device,
              Keeps-write_record,
              Keeps-sign_record,
              Keeps-logged size sha1 device (verify_tree _) refl,
            )
            depth 14)

  removal-calls :
      (w : World) (o : Result ProvisionError (Unit {0}) × World)
      → (removal fuel size sha1 device w o).1 ≡ o.1
  removal-calls w (ok u, w') = refl
  removal-calls w (err e, w') = refl

  -- `kid` is the only key created, and no record names it.
  abbrev IsOwn : Bytes → World → Type 0
  IsOwn kid w =
      (made device w.calls ≡ kid ∷ []) × (wrote device w.calls ≡ false) × IsRollback device w.calls

  Ensures-delete_key :
      (kid : Bytes)
      → Ensures
          (IsOwn kid)
          (delete_key fuel size sha1 device kid)
          (λ u w. IsRollback device w.calls)
          (λ e w. IsRollback device w.calls)
  unfolding delete_key request
  Ensures-delete_key kid =
      Ensures-bind (λ token. IsOwn kid) (lift (device.token (codes "keymgmt:del"))) _
        (Ensures-lift _ (λ a e w h. h) (λ e w h. h.2))
        (λ token.
          Ensures-bind (λ r w. IsRollback device w.calls)
            (request (delete kid) (λ log. device.on_delete log kid)) answered
            (record { at = λ w h. h }) (λ r. Ensures-lift _ (λ a e w h. h) (λ e w h. h)))

  removal-IsRollback :
      (w : World) (o : Result ProvisionError (Unit {0}) × World)
      → Ends (λ u v. IsRollback device v.calls) (λ e v. IsRollback device v.calls) o
      → IsRollback device (removal fuel size sha1 device w o).1.calls
  removal-IsRollback w (ok u, v) h = h
  removal-IsRollback w (err e, v) h = h

  clean_up-IsRollback :
      (w : World) → T w → IsRollback device (clean_up fuel size sha1 device w).1.calls
  unfolding clean_up
  clean_up-IsRollback w t =
      if_split (λ (o : Cleanup × World). IsRollback device o.1.calls) (w.created && not w.written) _
        _
        (λ h. removal-IsRollback w (delete_key fuel size sha1 device w.if_kid w) (
          (Ensures-delete_key w.if_kid).at w (
            t.made_one
                ∙ ap (λ b. if b then w.if_kid ∷ [] else [])
                    (and-eq-true w.created (not w.written) h).0,
            t.wrote_it ∙ not-eq-true w.written (and-eq-true w.created (not w.written) h).1,
            t.rollback,
          )))
        (λ h. t.rollback)

  finished-IsRollback :
      (o : Result ProvisionError Provisioned × World)
      → Ends (λ r. T) (λ e. T) o
      → IsRollback device (finished fuel size sha1 device o).1.1.calls
  finished-IsRollback (ok r, w) t = t.rollback
  finished-IsRollback (err e, w) t = clean_up-IsRollback w t

  after_validation-IsRollback :
      (p : Params) (r : Result ProvisionError (Unit {0}))
      → IsRollback device (after_validation fuel size sha1 device p r).1.1.calls
  after_validation-IsRollback p (err e) = tt
  after_validation-IsRollback p (ok u) =
      finished-IsRollback (run_body fuel size sha1 device p (first_world p)) (
        (Ensures-run_body p).at (first_world p)
          (record { rollback = tt; made_one = refl; wrote_it = refl }, refl))

  -- However the device answers, and whether the run succeeds or fails, each key that the calls of a
  -- run delete is the only key that the device created in that run, and was deleted while the device
  -- had accepted no record in it.
  pub run-IsRollback : (p : Params) → IsRollback device (run fuel size sha1 device p).1.1.calls
  unfolding run
  run-IsRollback p = after_validation-IsRollback p (validate_params size p)

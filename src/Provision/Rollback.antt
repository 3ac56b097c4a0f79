-- ===== src/Provision/Rollback.antt =====
-- internal/provision: which keys a run may delete.
use encedo_wg_hsm.Common.{
  ◌≡◌, Bool, true, false, ◌||◌, List, [], ◌∷◌, Bytes, if◌then◌else◌, Result, ok, err,
}
use encedo_wg_hsm.Hem.{HemError}
use encedo_wg_hsm.Effect.{Keeps}
use encedo_wg_hsm.Provision.Calls.{
  Call, create, get_key, wrap_key, search, import_key, write, sign_tree, verify_tree, delete,
  Device, World, logged, request,
}

module _ (device : Device) where
  -- The identifiers of the keys that the device created, over a list of calls.
  abbrev pub onto : Result HemError Bytes → List Bytes → List Bytes
  onto (ok kid) kids = kid ∷ kids
  onto (err e) kids = kids

  abbrev pub made : List Call → List Bytes
  made [] = []
  made (create label ∷ log) = onto (device.on_create log label) (made log)
  made (_ ∷ log) = made log

  -- Whether the device has accepted a record for the interface.
  abbrev pub accepted : Result HemError (Unit {0}) → Bool
  accepted (ok u) = true
  accepted (err e) = false

  abbrev pub wrote : List Call → Bool
  wrote [] = false
  wrote (write kid label descr ∷ log) = accepted (device.on_write log kid label descr) || wrote log
  wrote (_ ∷ log) = wrote log

  -- Each key that is deleted was created before in this run, the only one, and no record had been
  -- accepted for it.
  abbrev pub IsRollback : List Call → Type 0
  IsRollback [] = Unit
  IsRollback (delete kid ∷ log) = (made log ≡ kid ∷ []) × (wrote log ≡ false) × IsRollback log
  IsRollback (_ ∷ log) = IsRollback log

  abbrev pub plain : Call → Bool
  plain (create label) = false
  plain (write kid label descr) = false
  plain (delete kid) = false
  plain _ = true

  -- What the variables of `Run` say of the calls made.
  pub record IsTracked (w : World) : Type 0 where
    pub rollback : IsRollback w.calls
    pub made_one : made w.calls ≡ (if w.created then w.if_kid ∷ [] else [])
    pub wrote_it : wrote w.calls ≡ w.written

  pub logged-IsTracked :
      (c : Call) (w : World) → plain c ≡ true → IsTracked w → IsTracked (logged c w)
  logged-IsTracked (create label) w p t = cc
  logged-IsTracked (write kid label descr) w p t = cc
  logged-IsTracked (delete kid) w p t = cc
  logged-IsTracked (get_key kid) w p t = record {
    rollback = t.rollback;
    made_one = t.made_one;
    wrote_it = t.wrote_it;
  }
  logged-IsTracked (wrap_key a b c) w p t = record {
    rollback = t.rollback;
    made_one = t.made_one;
    wrote_it = t.wrote_it;
  }
  logged-IsTracked (search n) w p t = record {
    rollback = t.rollback;
    made_one = t.made_one;
    wrote_it = t.wrote_it;
  }
  logged-IsTracked (import_key a b c) w p t = record {
    rollback = t.rollback;
    made_one = t.made_one;
    wrote_it = t.wrote_it;
  }
  logged-IsTracked (sign_tree kid) w p t = record {
    rollback = t.rollback;
    made_one = t.made_one;
    wrote_it = t.wrote_it;
  }
  logged-IsTracked (verify_tree kid) w p t = record {
    rollback = t.rollback;
    made_one = t.made_one;
    wrote_it = t.wrote_it;
  }

  pub Keeps-request :
      {A : Type 0} (c : Call) (answer : List Call → Result HemError A)
      → plain c ≡ true
      → Keeps IsTracked (request c answer)
  unfolding request
  Keeps-request c answer p = record { at = λ w t. logged-IsTracked c w p t }

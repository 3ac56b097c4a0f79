-- ===== src/Provision/Calls.antt =====
-- The calls that internal/provision makes of the device, in the order in which it makes them. What
-- the device answers may depend on every call before; the answers are a parameter.
use encedo_wg_hsm.Common.{ℕ, Bool, List, ◌∷◌, Bytes, Result, ok, wrap}
use encedo_wg_hsm.Mac.Message.{Hmac}
use encedo_wg_hsm.Hem.{HemError, KeyEntry}
use encedo_wg_hsm.Effect.{Action, lift}
use encedo_wg_hsm.Provision.Spec.{ProvisionError, device_error}

pub data Call : Type 0 where
  create : Bytes → Call
  get_key : Bytes → Call
  wrap_key : Bytes → Bytes → Bytes → Call
  search : ℕ → Call
  import_key : Bytes → Bytes → Bytes → Call
  write : Bytes → Bytes → Bytes → Call
  sign_tree : Bytes → Call
  verify_tree : Bytes → Call
  delete : Bytes → Call

-- The device, over the calls made so far. `get` gives the type of the key and the key.
pub record Device : Type 0 where
  pub on_create : List Call → Bytes → Result HemError Bytes
  pub on_get : List Call → Bytes → Result HemError (Bytes × Bytes)
  pub on_wrap : List Call → Bytes → Bytes → Bytes → Result HemError Bytes
  pub on_search : List Call → Bytes → Bytes → ℕ → Result HemError (ℕ × List KeyEntry)
  pub on_import : List Call → Bytes → Bytes → Bytes → Result HemError Bytes
  pub on_write : List Call → Bytes → Bytes → Bytes → Result HemError (Unit {0})
  pub on_delete : List Call → Bytes → Result HemError (Unit {0})
  pub hmac : Bytes → Hmac
  pub token : Bytes → Result ProvisionError Bytes

-- The calls made, latest first, and the variables of `Run` that its deferred function reads.
pub record World : Type 0 where
  pub calls : List Call
  pub if_kid : Bytes
  pub created : Bool
  pub written : Bool
  pub imported : ℕ

abbrev pub Act : Type 0 → Type 0
Act A = Action World ProvisionError A

abbrev pub logged : Call → World → World
logged c w = record w { calls = c ∷ w.calls }

-- One call: it is recorded, and answered from the calls before.
unfoldable pub request :
    {A : Type 0} → Call → (List Call → Result HemError A) → Act (Result HemError A)
request c answer w = (ok (answer w.calls), logged c w)

abbrev pub answered : {A : Type 0} → Result HemError A → Act A
answered r = lift (wrap device_error r)

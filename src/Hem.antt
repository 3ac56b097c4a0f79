-- ===== src/Hem.antt =====
-- The client of the device, github.com/encedo/hem-sdk-go, which is not under the repository: the
-- calls that the program makes of it, as functions. A device that answers a call answers the same
-- call in the same way for as long as one configuration is read.
use encedo_wg_hsm.Common.{ℕ, Bytes, List, Bool, ◌||◌, ◌==◌, Result}
use encedo_wg_hsm.Mac.Message.{Hmac}

-- `hem.KeyEntry`, what a search returns.
pub record KeyEntry : Type 0 where
  pub kid : Bytes
  pub label : Bytes
  pub created : ℕ
  pub descr : Bytes

-- `*hem.HemError` with its HTTP status and its code, and any other error.
pub data HemError : Type 0 where
  hem_error : ℕ → Bytes → HemError
  other_error : ℕ → HemError

-- The first argument of each call is the token.
pub record Hem : Type 0 where
  pub search_keys : Bytes → Bytes → ℕ → ℕ → Result HemError (ℕ × List KeyEntry)
  pub get_pub_key : Bytes → Bytes → Result HemError Bytes
  pub hmac : Bytes → Bytes → Hmac
  pub cipher_unwrap : Bytes → Bytes → Bytes → Bytes → Result HemError Bytes

-- `isAuthError`
abbrev pub is_auth_error : HemError → Bool
is_auth_error (hem_error status code) = status == 401 || status == 403
is_auth_error (other_error n) = Bool.false

-- ===== src/Config/Identity.antt =====
-- internal/config/identity.go: the identities that the device holds, and which of them is meant.
use encedo_wg_hsm.Common.{
  ℕ, Bool, Option, none, some, List, [], ◌∷◌, Bytes, bytes_eq, ltb, ◌==◌, if◌then◌else◌, Result, ok,
  err, ◌>>=◌,
}
use encedo_wg_hsm.Netip.{Prefix}
use encedo_wg_hsm.Descr.Records.{Interface, DescrError}
use encedo_wg_hsm.Descr.Encode.{normalize}
use encedo_wg_hsm.Descr.Decode.{decode_interface}
use encedo_wg_hsm.Mac.Message.{bytes_lt}
use encedo_wg_hsm.Hem.{KeyEntry}
use encedo_wg_hsm.Config.Records.{ConfigError, nothing_stored, no_choice, unknown_identity}

pub record Identity : Type 0 where
  pub kid : Bytes
  pub label : Bytes
  pub addrs : List Prefix
  pub created : ℕ

-- `ChooseFunc`
abbrev pub ChooseFunc : Type 0
ChooseFunc = List Identity → Result ConfigError Bytes

abbrev addrs_of : Result DescrError Interface → List Prefix
addrs_of (ok iface) = iface.addrs
addrs_of (err e) = []

unfoldable pub identity_of : ℕ → KeyEntry → Identity
identity_of size e = record {
  kid = e.kid;
  label = e.label;
  addrs = addrs_of (normalize size e.descr >>= decode_interface size);
  created = e.created;
}

-- The order of `describe`: by age, and by identifier within one second.
unfoldable pub identity_lt : Identity → Identity → Bool
identity_lt a b = if a.created == b.created then bytes_lt a.kid b.kid else ltb a.created b.created

unfoldable pub insert_identity : Identity → List Identity → List Identity
insert_identity a [] = a ∷ []
insert_identity a (b ∷ bs) = if identity_lt a b then a ∷ b ∷ bs else b ∷ insert_identity a bs

-- `describe`
unfoldable pub describe : ℕ → List KeyEntry → List Identity
describe size [] = []
describe size (e ∷ es) = insert_identity (identity_of size e) (describe size es)

unfoldable pub kids_of : List KeyEntry → List Bytes
kids_of [] = []
kids_of (e ∷ es) = e.kid ∷ kids_of es

-- The loop that looks an identifier up among the entries.
unfoldable pub find_entry : Bytes → List KeyEntry → Option KeyEntry
find_entry kid [] = none
find_entry kid (e ∷ es) = if bytes_eq e.kid kid then some e else find_entry kid es

abbrev pub found_entry : Bytes → Option KeyEntry → Result ConfigError KeyEntry
found_entry kid none = err (unknown_identity kid)
found_entry kid (some e) = ok e

-- `pick`. A `nil` function for choosing is `none`.
unfoldable pub pick : ℕ → List KeyEntry → Option ChooseFunc → Result ConfigError KeyEntry
pick size [] choose = err nothing_stored
pick size (e ∷ []) choose = ok e
pick size (e ∷ e' ∷ es) none = err (no_choice (kids_of (e ∷ e' ∷ es)))
pick size (e ∷ e' ∷ es) (some choose) = do
  kid ← choose (describe size (e ∷ e' ∷ es))
  found_entry kid (find_entry kid (e ∷ e' ∷ es))

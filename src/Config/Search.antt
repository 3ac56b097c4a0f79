-- ===== src/Config/Search.antt =====
-- internal/config/config.go: `search`, the pages of the device's key repository. The loop has fuel
-- for a number of calls.
use encedo_wg_hsm.Common.{
  codes, ℕ, zero, suc, ◌+◌, true, false, ◌&&◌, ◌||◌, List, [], ◌++◌, Bytes, length, leb, is_empty,
  Result, ok, err,
}
use encedo_wg_hsm.Hem.{Hem, KeyEntry, is_auth_error}
use encedo_wg_hsm.Config.Records.{ConfigError, search_failed, no_fuel, search_page, TokenFunc}

unfoldable pub search_loop :
    ℕ → Hem → TokenFunc → Bytes → Bytes → ℕ → List KeyEntry → Result ConfigError (List KeyEntry)
search_loop zero hem tok token pattern offset all = err no_fuel
search_loop (suc fuel) hem tok token pattern offset all =
    elim (hem.search_keys token pattern offset search_page) [
      | err e ↦ elim (is_empty token && is_auth_error e) [
        | true ↦ elim (tok (codes "keymgmt:search")) [
          | err t ↦ err t
          | ok token' ↦ search_loop fuel hem tok token' pattern offset all
        ]
        | false ↦ err (search_failed e)
      ]
      | ok (total, page) ↦ elim (is_empty page || leb total (offset + length page)) [
        | true ↦ ok (all ++ page)
        | false ↦ search_loop fuel hem tok token pattern (offset + length page) (all ++ page)
      ]
    ]

-- `search`
unfoldable pub search : ℕ → Hem → TokenFunc → Bytes → Result ConfigError (List KeyEntry)
search fuel hem tok magic = search_loop fuel hem tok [] magic 0 []

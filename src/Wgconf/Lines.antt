-- ===== src/Wgconf/Lines.antt =====
-- internal/wgconf/wgconf.go: how `Parse` reads one line, and `splitList`.
use encedo_wg_hsm.Common.{
  codes, ℕ, Bool, false, ◌&&◌, ◌||◌, ◌==◌, Option, none, some, List, [], ◌∷◌, Bytes, is_empty,
  trim_space, to_lower, cut, split, trim_brackets, has_prefix, if◌then◌else◌,
}

-- `text[:i]` with `i := strings.IndexAny(text, "#;")`.
unfoldable pub before_comment : Bytes → Bytes
before_comment [] = []
before_comment (c ∷ cs) =
    let rest = before_comment cs in if c == b'#' || c == b';' then [] else c ∷ rest

unfoldable pub ends_with : ℕ → Bytes → Bool
ends_with d [] = false
ends_with d (c ∷ []) = c == d
ends_with d (c ∷ c' ∷ cs) = ends_with d (c' ∷ cs)

-- What a line is: nothing, the start of a section, a setting, or something else.
pub data Line : Type 0 where
  blank : Line
  section : Bytes → Line
  setting : Bytes → Bytes → Line
  unreadable : Bytes → Line

abbrev assignment : Bytes → Option (Bytes × Bytes) → Line
assignment text none = unreadable text
assignment text (some (key, value)) = setting (trim_space key) (trim_space value)

unfoldable pub read_text : Bytes → Line
read_text text =
    if is_empty text
    then blank
    else if has_prefix text (codes "[") && ends_with b']' text
    then section (to_lower (trim_brackets text))
    else assignment text (cut b'=' text)

-- The body of the loop, up to the setting.
unfoldable pub read_line : Bytes → Line
read_line line = read_text (trim_space (before_comment (trim_space line)))

abbrev nonempty : List Bytes → List Bytes
nonempty [] = []
nonempty (part ∷ parts) =
    let rest = nonempty parts in if is_empty (trim_space part) then rest else trim_space part ∷ rest

-- `splitList`
unfoldable pub split_list : Bytes → List Bytes
split_list v = nonempty (split b',' v)

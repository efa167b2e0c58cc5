-- ===== src/Sys/Parse.antt =====
-- The parsers of pkg/util/sys/device.go (`parseKeyValuePairString`, `parseUdevInfo`, `parseFS`,
-- `parseUUID`) and of pkg/util/sys/lvm.go (`parseLines`, `parseOneLine`).
pub mod Pairs
pub mod Fields
mod Tests
mod Examples
use topolvm_operator.Base.{
  ℕ, ◌≡◌, refl, Bool, true, false, Option, none, some, List, [], ◌∷◌, ◌++◌, if◌then◌else◌,
}
use topolvm_operator.Base.Text.{Text, codes, same}
use topolvm_operator.Base.Maps.{Map, lookup, insert}
use topolvm_operator.Go.Strings.{split, remove_byte, contains, trim_space, trim, to_lower}

-- What a loop round of `parseKeyValuePairString` does with the parts of one pair.
add_pair : Map Text → List Text → Map Text
add_pair m (k ∷ v ∷ []) = insert k (remove_byte v b'"') m
add_pair m _ = m

add_pairs : List Text → Map Text → Map Text
unfolding add_pair
add_pairs [] m = m
add_pairs (p ∷ ps) m = add_pairs ps (add_pair m (split p b'='))

unfoldable pub parse_key_value_pair_string : Text → Map Text
unfolding add_pairs
parse_key_value_pair_string props = add_pairs (split props b' ') []

add_udev : Map Text → List Text → Map Text
add_udev m (k ∷ v ∷ rest) = insert k v m
add_udev m _ = m

add_lines : List Text → Map Text → Map Text
unfolding add_udev
add_lines [] m = m
add_lines (l ∷ ls) m = add_lines ls (add_udev m (split l b'='))

unfoldable pub parse_udev_info : Text → Map Text
unfolding add_lines
parse_udev_info output = add_lines (split output b'\n') []

or_empty : Option Text → Text
or_empty none = []
or_empty (some v) = v

unfoldable pub parse_fs : Text → Text
unfolding parse_udev_info or_empty lookup
parse_fs output = or_empty (lookup (codes "ID_FS_TYPE") (parse_udev_info output))

-- The first word that the library reads as a UUID; `read` is `uuid.Parse` with its print.
module _ (read : Text → Option Text) where
  first_uuid : List Text → Option Text
  first_uuid [] = none
  first_uuid (w ∷ ws) = elim (read w) [ some u ↦ some u | none ↦ first_uuid ws ]

  uuid_in_lines : List Text → Option Text
  unfolding first_uuid contains
  uuid_in_lines [] = none
  uuid_in_lines (l ∷ ls) =
      let rest = uuid_in_lines ls in
      if contains l (codes "Disk identifier (GUID)")
      then elim (first_uuid (split l b' ')) [ some u ↦ some u | none ↦ rest ]
      else rest

  unfoldable pub parse_uuid : Text → Option Text
  unfolding uuid_in_lines
  parse_uuid output = uuid_in_lines (split output b'\n')

-- `k[5:]`: `none` is the panic on a key shorter than that.
drop_prefix : Text → Option Text
drop_prefix (a ∷ b ∷ c ∷ d ∷ e ∷ k) = some k
drop_prefix _ = none

-- `kv[0]` and `kv[1]`: `none` is the panic on a token without an equals sign.
pub token_field : List Text → Option (Text × Text)
unfolding drop_prefix
token_field (k ∷ v ∷ rest) = elim (drop_prefix k) [
  | none ↦ none
  | some n ↦ some (to_lower n, trim v b'\'')
]
token_field _ = none

add_tokens : List Text → Map Text → Option (Map Text)
unfolding token_field
add_tokens [] m = some m
add_tokens ([] ∷ ts) m = add_tokens ts m
add_tokens ((c ∷ s) ∷ ts) m = elim (token_field (split (c ∷ s) b'=')) [
  | none ↦ none
  | some (k, v) ↦ add_tokens ts (insert k v m)
]

unfoldable pub parse_one_line : Text → Option (Map Text)
unfolding add_tokens
parse_one_line line = add_tokens (split (trim_space line) b' ') []

parse_each : List Text → Option (List (Map Text))
parse_each [] = some []
parse_each ([] ∷ ls) = parse_each ls
parse_each ((c ∷ s) ∷ ls) = elim (parse_one_line (c ∷ s)) [
  | none ↦ none
  | some info ↦ elim (parse_each ls) [ none ↦ none | some infos ↦ some (info ∷ infos) ]
]

-- `none` is a panic in one of the lines.
unfoldable pub parse_lines : Text → Option (List (Map Text))
unfolding parse_each
parse_lines output = parse_each (split output b'\n')

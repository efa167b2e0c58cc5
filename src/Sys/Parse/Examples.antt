-- ===== src/Sys/Parse/Examples.antt =====
-- The reports of `lsblk`, `udevadm` and `lvm` on a disk of 10 GiB.
use topolvm_operator.Base.{◌≡◌, some, List, [], ◌∷◌, map, All, arith}
use topolvm_operator.Base.Text.{Text, codes}
use topolvm_operator.Base.Maps.{Map, lookup}
use topolvm_operator.Go.Strings.{join}
use topolvm_operator.Sys.Parse.{parse_key_value_pair_string, parse_one_line}
use topolvm_operator.Sys.Parse.Pairs.{
  latest, render_pair, IsPlain, IsLine, lookup-parse_key_value_pair_string,
}
use topolvm_operator.Sys.Parse.Fields.{
  render_field, IsField, lowered, indent, parse_one_line-render,
}

abbrev fields : List (Text × Text)
fields = (codes "SIZE", codes "10737418240") ∷ (codes "MODEL", []) ∷ []

fields-IsPlain : All IsPlain fields
fields-IsPlain = (
  record {
    key_space = omega arith;
    key_equals = omega arith;
    value_space = omega arith;
    value_equals = omega arith;
    value_quote = omega arith;
  },
  (
    record {
      key_space = omega arith;
      key_equals = omega arith;
      value_space = omega arith;
      value_equals = omega arith;
      value_quote = omega arith;
    },
    tt,
  ),
)

lookup-parse_key_value_pair_string_example :
    lookup (codes "SIZE") (parse_key_value_pair_string (join (map render_pair fields) b' '))
    ≡ latest (codes "SIZE") fields
lookup-parse_key_value_pair_string_example =
    lookup-parse_key_value_pair_string fields (codes "SIZE") (λ h. cc) fields-IsPlain

abbrev properties : List (Text × Text)
properties = (codes "DEVNAME", codes "/dev/sdb") ∷ (codes "ID_MODEL", codes "a=b") ∷ []

properties-IsLine : All IsLine properties
properties-IsLine = (
  record { key_line = omega arith; key_equals = omega arith; value_line = omega arith },
  (record { key_line = omega arith; key_equals = omega arith; value_line = omega arith }, tt),
)

abbrev first_field : Text × Text
first_field = (codes "VG_NAME", codes "vg1")

abbrev more_fields : List (Text × Text)
more_fields = (codes "LV_NAME", []) ∷ []

report-IsField : All IsField (first_field ∷ more_fields)
report-IsField = (
  record {
    key_space = omega arith;
    key_equals = omega arith;
    value_space = omega arith;
    value_equals = omega arith;
    value_quote = omega arith;
  },
  (
    record {
      key_space = omega arith;
      key_equals = omega arith;
      value_space = omega arith;
      value_equals = omega arith;
      value_quote = omega arith;
    },
    tt,
  ),
)

parse_one_line-render_example :
    (m : Map Text) × (parse_one_line
        (indent 2 (join (map render_field (first_field ∷ more_fields)) b' '))
      ≡ some m)
    × ((k : Text) → lookup k m ≡ latest k (map lowered (first_field ∷ more_fields)))
parse_one_line-render_example = parse_one_line-render 2 first_field more_fields report-IsField

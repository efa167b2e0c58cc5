-- ===== src/Sys/Parse/Tests.antt =====
-- The parsers at the texts of the source's comments and tests.
use topolvm_operator.Base.{◌≡◌, refl, some, none, [], ◌∷◌}
use topolvm_operator.Base.Text.{codes, same}
use topolvm_operator.Base.Maps.{insert}
use topolvm_operator.Go.Strings.{split, remove_byte, trim_space, trim, to_lower}
use topolvm_operator.Sys.Parse.{parse_key_value_pair_string, parse_one_line}

foo_bar :
    parse_key_value_pair_string (codes "foo=\"0\" bar=\"1\" baz=\"biz\"")
    ≡ (codes "foo", codes "0") ∷ (codes "bar", codes "1") ∷ (codes "baz", codes "biz") ∷ []
unfolding parse_key_value_pair_string split remove_byte insert same
foo_bar = refl

lvm_line :
    parse_one_line (codes "  LVM2_VG_NAME='hello' LVM2_LV_NAME=''")
    ≡ some ((codes "vg_name", codes "hello") ∷ (codes "lv_name", []) ∷ [])
unfolding parse_one_line split trim_space trim to_lower insert same
lvm_line = refl

no_equals : parse_one_line (codes "WARNING") ≡ none
unfolding parse_one_line split trim_space
no_equals = refl

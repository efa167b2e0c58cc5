-- ===== src/Go/Numbers/Tests.antt =====
-- Numbers at the ends of 64 bits.
use topolvm_operator.Base.{◌≡◌, refl, none, some}
use topolvm_operator.Base.Text.{codes}
use topolvm_operator.Go.Numbers.{parse_uint}

largest : parse_uint (codes "18446744073709551615") ≡ some 18446744073709551615
unfolding parse_uint
largest = refl

too_large : parse_uint (codes "18446744073709551616") ≡ none
unfolding parse_uint
too_large = refl

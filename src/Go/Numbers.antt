-- ===== src/Go/Numbers.antt =====
-- `strconv`: ParseUint(s, 10, 64) and ParseBool.
mod Tests
use topolvm_operator.Base.{
  ℕ, zero, suc, ◌+◌, ◌/◌, ◌%◌, ◌-◌, ◌*◌, ◌^◌, ◌<◌, ◌≡◌, refl, Bool, true, false, ◌||◌, Option, none,
  some, [], ◌∷◌, arith, ltb, if◌then◌else◌,
}
use topolvm_operator.Base.Text.{Text, codes, same}

abbrev pub u64_mod : ℕ
u64_mod = 2 ^ 64

-- `none` is an error: a byte that is no digit, or a value above 2^64 - 1.
unfoldable pub digits : Text → ℕ → Option ℕ
digits [] n = some n
digits (c ∷ s) n =
    if ltb c b'0' || ltb b'9' c
    then none
    else let m = n * 10 + (c - b'0') in if ltb m u64_mod then digits s m else none

unfoldable pub parse_uint : Text → Option ℕ
unfolding digits
parse_uint [] = none
parse_uint (c ∷ s) = digits (c ∷ s) 0

unfoldable pub parse_bool : Text → Option Bool
unfolding same
parse_bool s =
    if same s (codes "1")
      || same s (codes "t")
      || same s (codes "T")
      || same s (codes "TRUE")
      || same s (codes "true")
      || same s (codes "True")
    then some true
    else if same s (codes "0")
        || same s (codes "f")
        || same s (codes "F")
        || same s (codes "FALSE")
        || same s (codes "false")
        || same s (codes "False")
    then some false
    else none

-- The decimal digits of a number below 2^64, which has at most twenty.
decimal : ℕ → ℕ → Text → Text
decimal zero n out = out
decimal (suc fuel) n out =
    let next = (b'0' + n % 10) ∷ out in
    let rest = decimal fuel (n / 10) next in if ltb n 10 then next else rest

-- `strconv.Itoa(int(n))` of a uint64: from 2^63 on the conversion gives a negative number.
unfoldable pub itoa : ℕ → Text
unfolding decimal
itoa n = if ltb n (2 ^ 63) then decimal 20 n [] else b'-' ∷ decimal 20 (u64_mod - n) []

itoa_examples : (itoa 10 ≡ codes "10") × (itoa (2 ^ 64 - 1) ≡ codes "-1")
unfolding itoa
itoa_examples = (refl, refl)

digits-lt : (s : Text) (n : ℕ) {r : ℕ} → n < u64_mod → digits s n ≡ some r → r < u64_mod
unfolding digits
digits-lt [] n h e = ground arith
digits-lt (c ∷ s) n {r} h e = ground (arith, digits-lt s (n * 10 + (c - b'0')) {r = r})

-- What is read fits 64 bits.
pub parse_uint-lt : (s : Text) {r : ℕ} → parse_uint s ≡ some r → r < u64_mod
unfolding parse_uint
parse_uint-lt [] e = cc
parse_uint-lt (c ∷ s) e = digits-lt (c ∷ s) 0 (omega arith) e

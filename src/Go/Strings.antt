-- ===== src/Go/Strings.antt =====
-- The functions of Go's package `strings` that the program calls, on texts of ASCII bytes.
pub mod Laws
use topolvm_operator.Base.{
  ℕ, Bool, true, false, ◌&&◌, ◌||◌, List, [], ◌∷◌, ◌++◌, reverse, ◌==◌, ◌+◌, leb, if◌then◌else◌,
}
use topolvm_operator.Base.Text.{Text, same}

-- The byte goes in front of the first part.
abbrev pub push : ℕ → List Text → List Text
push x [] = (x ∷ []) ∷ []
push x (p ∷ ps) = (x ∷ p) ∷ ps

-- `strings.Split(s, sep)` at a separator of one byte: at least one part.
unfoldable pub split : Text → ℕ → List Text
split [] c = [] ∷ []
split (x ∷ s) c = let rest = split s c in if x == c then [] ∷ rest else push x rest

-- `strings.Join(parts, sep)`
unfoldable pub join : List Text → ℕ → Text
join [] c = []
join (p ∷ []) c = p
join (p ∷ q ∷ ps) c = p ++ c ∷ join (q ∷ ps) c

-- `strings.Replace(s, old, "", -1)` at an `old` of one byte.
unfoldable pub remove_byte : Text → ℕ → Text
remove_byte [] c = []
remove_byte (x ∷ s) c = let rest = remove_byte s c in if x == c then rest else x ∷ rest

unfoldable pub has_prefix : Text → Text → Bool
has_prefix s [] = true
has_prefix [] (p ∷ ps) = false
has_prefix (x ∷ s) (p ∷ ps) = x == p && has_prefix s ps

unfoldable pub has_suffix : Text → Text → Bool
unfolding has_prefix
has_suffix s t = has_prefix (reverse s) (reverse t)

unfoldable pub contains : Text → Text → Bool
unfolding has_prefix
contains [] t = has_prefix [] t
contains (x ∷ s) t = has_prefix (x ∷ s) t || contains s t

-- `a >= b` on strings, which Go compares byte by byte.
unfoldable pub at_least : Text → Text → Bool
at_least a [] = true
at_least [] (y ∷ b) = false
at_least (x ∷ a) (y ∷ b) = let rest = at_least a b in if x == y then rest else leb y x

-- The white space among the ASCII bytes: tab to carriage return, and the space.
abbrev pub is_space : ℕ → Bool
is_space c = leb 9 c && leb c 13 || c == b' '

unfoldable pub drop_while : (ℕ → Bool) → Text → Text
drop_while p [] = []
drop_while p (x ∷ s) = if p x then drop_while p s else x ∷ s

-- `strings.TrimFunc(s, p)`: from both ends.
unfoldable pub trim_by : (ℕ → Bool) → Text → Text
unfolding drop_while
trim_by p s = reverse (drop_while p (reverse (drop_while p s)))

unfoldable pub trim_space : Text → Text
unfolding trim_by
trim_space s = trim_by is_space s

-- `strings.Trim(s, cutset)` at a cutset of one byte.
unfoldable pub trim : Text → ℕ → Text
unfolding trim_by
trim s c = trim_by (λ x. x == c) s

unfoldable pub to_lower : Text → Text
to_lower [] = []
to_lower (c ∷ s) = (if leb b'A' c && leb c b'Z' then c + 32 else c) ∷ to_lower s

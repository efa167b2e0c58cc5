-- ===== src/Go/Paths.antt =====
-- `path.Base`.
use topolvm_operator.Base.{List, [], ◌∷◌, reverse, refl, ◌≡◌, ◌==◌}
use topolvm_operator.Base.Text.{Text, codes}
use topolvm_operator.Go.Strings.{split, drop_while}

-- The last part of a list of parts.
last_part : List Text → Text
last_part [] = []
last_part (p ∷ []) = p
last_part (p ∷ q ∷ ps) = last_part (q ∷ ps)

-- Trailing slashes go first; of nothing is left then, the path was all slashes.
base_of : Text → Text
unfolding last_part split
base_of [] = codes "/"
base_of (c ∷ s) = last_part (split (reverse (c ∷ s)) b'/')

unfoldable pub base : Text → Text
unfolding base_of drop_while
base [] = codes "."
base (c ∷ s) = base_of (drop_while (λ x. x == b'/') (reverse (c ∷ s)))

base_device : base (codes "/dev/sda") ≡ codes "sda"
unfolding base
base_device = refl

base_slashes : base (codes "//") ≡ codes "/"
unfolding base
base_slashes = refl

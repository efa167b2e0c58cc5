-- ===== src/Base/Text.antt =====
-- Text as the list of its bytes, and the comparison of two texts.
use Prim.Native.Char.{code}
use Prim.Native.String.{String}
use native.Mathlib.Decide.{ℕ_discrete}
use topolvm_operator.Base.{ℕ, ◌≡◌, refl, ◌↔◌, Bool, true, false, ◌&&◌, List, [], ◌∷◌, arith, ◌==◌}

abbrev pub Text : Type 0
Text = List ℕ

-- The code points of a literal; these are its bytes, as every literal of the source is ASCII.
abbrev pub codes : String → Text
codes String.[] = []
codes (String.◌∷◌ c s) = code c ∷ codes s

-- `a == b` on texts.
unfoldable pub same : Text → Text → Bool
same [] [] = true
same (x ∷ xs) (y ∷ ys) = x == y && same xs ys
same _ _ = false

same_sound : (a b : Text) → same a b ≡ true → a ≡ b
unfolding same
same_sound [] [] h = refl
same_sound [] (y ∷ b) h = cc
same_sound (x ∷ a) [] h = cc
same_sound (x ∷ a) (y ∷ b) h = ground (arith, same_sound a b)

pub same_refl : (a : Text) → same a a ≡ true
unfolding same
same_refl [] = refl
same_refl (x ∷ a) = ground (arith, same_refl a)

same_complete : (a b : Text) → a ≡ b → same a b ≡ true
same_complete a b e = rw (← e) (same_refl a)

pub same_iff : (a b : Text) → (same a b ≡ true) ↔ (a ≡ b)
same_iff a b = (same_sound a b, same_complete a b)

pub same_comm : (a b : Text) → same a b ≡ same b a
same_comm a b = ground (arith, same_iff a b, same_iff b a)

pub Text-discrete : Discrete Text
Text-discrete = hlevel ℕ_discrete

-- ===== src/Go/Strings/Laws.antt =====
-- Splitting and joining, and what trimming leaves alone.
use topolvm_operator.Base.{ℕ, ◌∙◌, ◌≡◌, ◌≢◌, refl, List, [], ◌∷◌, ◌++◌, arith, All, ap}
use topolvm_operator.Base.Text.{Text}
use topolvm_operator.Go.Strings.{split, join, remove_byte}

-- No byte of the text is `c`.
abbrev pub Lacks : ℕ → Text → Type 0
Lacks c = All (λ x. x ≢ c)

pub split-Lacks : (p : Text) (c : ℕ) → Lacks c p → split p c ≡ p ∷ []
unfolding split
split-Lacks [] c h = refl
split-Lacks (x ∷ p) c (hx, hp) = ground (arith, split-Lacks p c hp)

pub split-append : (p s : Text) (c : ℕ) → Lacks c p → split (p ++ c ∷ s) c ≡ p ∷ split s c
unfolding split
split-append [] s c h = ground arith
split-append (x ∷ p) s c (hx, hp) = ground (arith, split-append p s c hp)

pub split-join : (ps : List Text) (c : ℕ) → ps ≢ [] → All (Lacks c) ps → split (join ps c) c ≡ ps
unfolding join
split-join [] c h a = absurd (h refl)
split-join (p ∷ []) c h (hp, _) = split-Lacks p c hp
split-join (p ∷ q ∷ ps) c h (hp, a) =
    split-append p (join (q ∷ ps) c) c hp ∙ ap (λ r. p ∷ r) (split-join (q ∷ ps) c (cc) a)

pub split-ne-nil : (s : Text) (c : ℕ) → split s c ≢ []
unfolding split
split-ne-nil [] c e = cc
split-ne-nil (x ∷ s) c e = ground (arith, split-ne-nil s c)

pub remove_byte-Lacks : (s : Text) (c : ℕ) → Lacks c s → remove_byte s c ≡ s
unfolding remove_byte
remove_byte-Lacks [] c h = refl
remove_byte-Lacks (x ∷ s) c (hx, hs) = ground (arith, remove_byte-Lacks s c hs)

pub remove_byte-append :
    (s t : Text) (c : ℕ) → remove_byte (s ++ t) c ≡ remove_byte s c ++ remove_byte t c
unfolding remove_byte
remove_byte-append [] t c = refl
remove_byte-append (x ∷ s) t c = ground (arith, remove_byte-append s t c)

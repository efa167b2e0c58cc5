-- ===== src/Operator/Finalizers/Removed.antt =====
-- What `remove` of pkg/operator/controller/finalizer.go gives.
use topolvm_operator.Base.{
  ℕ, zero, suc, ◌-◌, arith, ◌≡◌, ap, refl, Bool, true, false, ◌||◌, some, List, [], ◌∷◌, ◌++◌,
  length,
}
use topolvm_operator.Base.Text.{Text, same, same_refl}
use topolvm_operator.Operator.Finalizers.{shift, after_removal, remove_from, remove, contains}

-- The first elements of a list, as many as there are.
abbrev first : ℕ → List Text → List Text
first zero l = []
first (suc n) [] = []
first (suc n) (x ∷ l) = x ∷ first n l

or_false : (a b : Bool) → (a || b) ≡ false → (a ≡ false) × (b ≡ false)
or_false true b h = absurd (cc)
or_false false b h = (refl, h)

neither :
    (x : Text) (l : List Text) (s : Text)
    → contains (x ∷ l) s ≡ false
    → (same x s ≡ false) × (contains l s ≡ false)
unfolding contains
neither x l s h = or_false (same x s) (contains l s) h

shift-contains :
    (m : ℕ) (l : List Text) (s : Text) → contains l s ≡ false → contains (shift m l) s ≡ false
unfolding shift contains
shift-contains zero l s h = h
shift-contains (suc zero) l s h = h
shift-contains (suc (suc m)) [] s h = h
shift-contains (suc (suc m)) (x ∷ []) s h = h
shift-contains (suc (suc m)) (x ∷ y ∷ l) s h =
    let (p, q) = neither x (y ∷ l) s h in
    let (u, v) = neither y l s q in rw u (shift-contains (suc m) (y ∷ l) s q)

first-shift : (y : Text) (l : List Text) → first (length l) (shift (suc (length l)) (y ∷ l)) ≡ l
unfolding shift
first-shift y [] = refl
first-shift y (z ∷ l) = ap (λ u. z ∷ u) (first-shift z l)

shift-length : (m : ℕ) (l : List Text) → length (shift m l) ≡ length l
unfolding shift
shift-length zero l = refl
shift-length (suc zero) l = refl
shift-length (suc (suc m)) [] = refl
shift-length (suc (suc m)) (x ∷ []) = refl
shift-length (suc (suc m)) (x ∷ y ∷ l) = ap suc (shift-length (suc m) (y ∷ l))

-- A list without the text, of which the first are live.
without :
    (n : ℕ) (l : List Text) (live : ℕ) (s : Text)
    → length l ≡ n
    → contains l s ≡ false
    → remove_from n l live s ≡ some (first live l)
unfolding remove_from
without zero [] zero s p h = refl
without zero [] (suc live) s p h = refl
without zero (x ∷ l) live s p h = absurd (omega (arith, p))
without (suc n) [] live s p h = absurd (omega (arith, p))
without (suc n) (x ∷ l) zero s p h =
    let (u, v) = neither x l s h in rw (u, remove_from) (without n l zero s (omega (arith, p)) v)
without (suc n) (x ∷ l) (suc live) s p h =
    let (u, v) = neither x l s h in
    rw (u, remove_from, without n l live s (omega (arith, p)) v) refl

removed_first :
    (b : List Text) (s : Text)
    → contains b s ≡ false
    → remove_from (suc (length b)) (s ∷ b) (suc (length b)) s ≡ some b
unfolding remove_from after_removal
removed_first [] s h = rw (same_refl s, remove_from) refl
removed_first (y ∷ b) s h =
    let moved = shift (suc (length b)) (y ∷ b) in
    let k : suc (length b) - 1 ≡ length b = omega arith in
    let p =
      without (suc (length b)) moved (length b) s (shift-length (suc (length b)) (y ∷ b))
        (shift-contains (suc (length b)) (y ∷ b) s h) in
    rw (same_refl s, remove_from, k, p, first-shift y b) refl

-- A text that stands once in a list is removed from it, and the others stay in their order.
pub remove-exact :
    (a b : List Text) (s : Text)
    → contains a s ≡ false
    → contains b s ≡ false
    → remove (a ++ s ∷ b) s ≡ some (a ++ b)
unfolding remove remove_from
remove-exact [] b s ha hb = removed_first b s hb
remove-exact (x ∷ a) b s ha hb =
    let (u, v) = neither x a s ha in rw (u, remove, remove_from, remove-exact a b s v hb) refl

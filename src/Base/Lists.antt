-- ===== src/Base/Lists.antt =====
-- Lists measured by native numbers, under the library's names, and predicates on lists by recursion.
use Prim.Native.Nat.{ℕ, suc, ◌+◌, ◌≤◌, ◌<◌}
use mathlib.Core.Path.{sym, subst, ◌≡◌, refl}
use mathlib.Core.Bool.{Bool, true, false, ◌||◌, false≢true}
use mathlib.Core.Logic.{◌⊎◌, inl, inr}
use mathlib.Core.List.{List, [], ◌∷◌, ◌++◌, map}
use native.Mathlib.Omega.{arith}
use topolvm_operator.Base.Tests.{if◌then◌else◌, Bool-cases}

module _ {ℓ} {A : Type ℓ} where
  abbrev pub length : List A → ℕ
  length [] = 0
  length (x ∷ xs) = suc (length xs)

  -- The `for` loops that set a flag.
  abbrev pub any : (A → Bool) → List A → Bool
  any p [] = false
  any p (x ∷ xs) = p x || any p xs

  abbrev pub select : (A → Bool) → List A → List A
  select p [] = []
  select p (x ∷ xs) = let rest = select p xs in if p x then x ∷ rest else rest

  pub length-append : (xs ys : List A) → length (xs ++ ys) ≡ length xs + length ys
  length-append [] ys = omega arith
  length-append (x ∷ xs) ys = omega (arith, length-append xs ys)

module _ {ℓ κ} {A : Type ℓ} (P : A → Type κ) where
  abbrev pub All : List A → Type κ
  All [] = Unit
  All (x ∷ xs) = P x × All xs

  pub All-append : (xs ys : List A) → All xs → All ys → All (xs ++ ys)
  All-append [] ys hx hy = hy
  All-append (x ∷ xs) ys (px, hx) hy = (px, All-append xs ys hx hy)

-- `a` stands in the list.
abbrev pub Has : {A : Type 0} → A → List A → Type 0
Has a [] = ⊥
Has a (x ∷ xs) = (x ≡ a) ⊎ Has a xs

selected :
    {A : Type 0} (p : A → Bool) (b : Bool) (x : A) (xs : List A) (a : A)
    → p x ≡ b
    → (Has a (select p xs) → Has a xs × (p a ≡ true))
    → Has a (if b then x ∷ select p xs else select p xs)
    → Has a (x ∷ xs) × (p a ≡ true)
selected p true x xs a e ih (inl q) = (inl q, subst (λ y. p y ≡ true) q e)
selected p true x xs a e ih (inr r) = let (has, q) = ih r in (inr has, q)
selected p false x xs a e ih r = let (has, q) = ih r in (inr has, q)

pub Has-select :
    {A : Type 0} (p : A → Bool) (xs : List A) (a : A)
    → Has a (select p xs)
    → Has a xs × (p a ≡ true)
Has-select p [] a h = absurd h
Has-select p (x ∷ xs) a h = selected p (p x) x xs a refl (Has-select p xs a) h

pub select-Has :
    {A : Type 0} (p : A → Bool) (xs : List A) (a : A) → Has a xs → p a ≡ true → Has a (select p xs)
select-Has p [] a h e = absurd h
select-Has p (x ∷ xs) a (inl q) e = rw (subst (λ y. p y ≡ true) (sym q) e) (inl q)
select-Has p (x ∷ xs) a (inr r) e = elim (Bool-cases (p x)) [
  | inl t ↦ rw t (inr (select-Has p xs a r e))
  | inr f ↦ rw f (select-Has p xs a r e)
]

-- Where all elements pass, and where none does.
pub select-All :
    {A : Type 0} (p : A → Bool) (xs : List A) → All (λ x. p x ≡ true) xs → select p xs ≡ xs
select-All p [] h = refl
select-All p (x ∷ xs) (e, h) = rw (e, select-All p xs h) refl

pub select-All_not :
    {A : Type 0} (p : A → Bool) (xs : List A) → All (λ x. p x ≡ false) xs → select p xs ≡ []
select-All_not p [] h = refl
select-All_not p (x ∷ xs) (e, h) = rw (e, select-All_not p xs h) refl

pub length-select-le : {A : Type 0} (p : A → Bool) (xs : List A) → length (select p xs) ≤ length xs
length-select-le p [] = omega arith
length-select-le p (x ∷ xs) = ground (arith, length-select-le p xs)

-- An element that does not pass makes the selection shorter.
pub length-select-lt :
    {A : Type 0} (p : A → Bool) (xs : List A) (a : A)
    → Has a xs
    → p a ≡ false
    → length (select p xs) < length xs
length-select-lt p [] a h e = absurd h
length-select-lt p (x ∷ xs) a (inl q) e =
    rw (subst (λ y. p y ≡ false) (sym q) e) (omega (arith, length-select-le p xs))
length-select-lt p (x ∷ xs) a (inr r) e = ground (arith, length-select-lt p xs a r e)

pub Has-length : {A : Type 0} (xs : List A) (a : A) → Has a xs → 0 < length xs
Has-length [] a h = absurd h
Has-length (x ∷ xs) a h = omega arith

pub All-map :
    {A : Type 0} {P Q : A → Type 0} (xs : List A) → ((x : A) → P x → Q x) → All P xs → All Q xs
All-map [] f h = tt
All-map (x ∷ xs) f (p, h) = (f x p, All-map xs f h)

-- `any` finds an element that passes.
pub any-Has :
    {A : Type 0} (p : A → Bool) (xs : List A) → any p xs ≡ true → (x : A) × Has x xs × (p x ≡ true)
any-Has p [] h = absurd (false≢true h)
any-Has p (x ∷ xs) h = elim (Bool-cases (p x)) [
  | inl q ↦ (x, inl refl, q)
  | inr q ↦
      let (y, has, r) = any-Has p xs (subst (λ b. (b || any p xs) ≡ true) q h) in (y, inr has, r)
]

pub Has-any :
    {A : Type 0} (p : A → Bool) (xs : List A) (a : A) → Has a xs → p a ≡ true → any p xs ≡ true
Has-any p [] a h e = absurd h
Has-any p (x ∷ xs) a (inl q) e = rw (subst (λ y. p y ≡ true) (sym q) e) refl
Has-any p (x ∷ xs) a (inr r) e = ground (arith, Has-any p xs a r e)

pub Has-append : {A : Type 0} (xs ys : List A) (a : A) → Has a (xs ++ ys) → Has a xs ⊎ Has a ys
Has-append [] ys a h = inr h
Has-append (x ∷ xs) ys a (inl q) = inl (inl q)
Has-append (x ∷ xs) ys a (inr r) = elim (Has-append xs ys a r) [
  | inl l ↦ inl (inr l)
  | inr l ↦ inr l
]

pub append-Has : {A : Type 0} (xs ys : List A) (a : A) → Has a xs ⊎ Has a ys → Has a (xs ++ ys)
append-Has [] ys a (inl h) = absurd h
append-Has [] ys a (inr h) = h
append-Has (x ∷ xs) ys a (inl (inl q)) = inl q
append-Has (x ∷ xs) ys a (inl (inr r)) = inr (append-Has xs ys a (inl r))
append-Has (x ∷ xs) ys a (inr h) = inr (append-Has xs ys a (inr h))

pub Has-map :
    {A B : Type 0} (f : A → B) (xs : List A) (b : B)
    → Has b (map f xs)
    → (a : A) × Has a xs × (b ≡ f a)
Has-map f [] b h = absurd h
Has-map f (x ∷ xs) b (inl q) = (x, inl refl, sym q)
Has-map f (x ∷ xs) b (inr r) = let (a, has, q) = Has-map f xs b r in (a, inr has, q)

pub map-Has : {A B : Type 0} (f : A → B) (xs : List A) (a : A) → Has a xs → Has (f a) (map f xs)
map-Has f [] a h = absurd h
map-Has f (x ∷ xs) a (inl q) = inl (subst (λ y. f x ≡ f y) q refl)
map-Has f (x ∷ xs) a (inr r) = inr (map-Has f xs a r)

-- ===== src/Base/Maps.antt =====
-- A Go map with text keys, as an association list that holds each key once.
use topolvm_operator.Base.{
  ◌≡◌, refl, Bool, true, Option, none, some, List, [], ◌∷◌, arith, Has, if◌then◌else◌, is_some,
}
use topolvm_operator.Base.Text.{Text, same, same_iff, same_refl}

abbrev pub Map {ℓ} : Type ℓ → Type ℓ
Map V = List (Text × V)

module _ {ℓ} {V : Type ℓ} where
  -- `m[k]`, with its second result.
  unfoldable pub lookup : Text → Map V → Option V
  lookup k [] = none
  lookup k ((j, v) ∷ m) = if same j k then some v else lookup k m

  -- `m[k] = v`
  unfoldable pub insert : Text → V → Map V → Map V
  insert k v [] = (k, v) ∷ []
  insert k v ((j, w) ∷ m) = if same j k then (j, v) ∷ m else (j, w) ∷ insert k v m

  -- `delete(m, k)`
  unfoldable pub delete : Text → Map V → Map V
  delete k [] = []
  delete k ((j, w) ∷ m) = let rest = delete k m in if same j k then rest else (j, w) ∷ rest

  -- `_, ok := m[k]`
  abbrev pub has_key : Text → Map V → Bool
  has_key k m = is_some (lookup k m)

  -- `m[k]` where the zero value stands for a missing key.
  abbrev pub get_or : V → Text → Map V → V
  get_or d k m = elim (lookup k m) [ none ↦ d | some v ↦ v ]

  -- The keys in the order of the list.
  unfoldable pub keys : Map V → List Text
  keys [] = []
  keys ((k, v) ∷ m) = k ∷ keys m

  pub lookup-insert :
      (k j : Text) (v : V) (m : Map V)
      → lookup j (insert k v m) ≡ (if same k j then some v else lookup j m)
  unfolding lookup insert
  lookup-insert k j v [] = refl
  lookup-insert k j v ((i, w) ∷ m) =
      ground (arith, same_iff k j, same_iff i k, same_iff i j, lookup-insert k j v m)

  pub lookup-delete :
      (k j : Text) (m : Map V) → lookup j (delete k m) ≡ (if same k j then none else lookup j m)
  unfolding lookup delete
  lookup-delete k j [] = ground arith
  lookup-delete k j ((i, w) ∷ m) =
      ground (arith, lookup-delete k j m, same_iff i k, same_iff i j, same_iff k j)

  pub lookup-insert_self : (k : Text) (v : V) (m : Map V) → lookup k (insert k v m) ≡ some v
  lookup-insert_self k v m = simp (lookup-insert, same_refl)

-- A key has a value exactly when it is listed.
pub Has-keys : {V : Type 0} (k : Text) (m : Map V) → Has k (keys m) → has_key k m ≡ true
unfolding lookup keys
Has-keys k [] h = absurd h
Has-keys k ((j, v) ∷ m) h = ground (arith, same_iff j k, Has-keys k m)

pub keys-Has : {V : Type 0} (k : Text) (m : Map V) → has_key k m ≡ true → Has k (keys m)
unfolding lookup keys
keys-Has k [] h = cc
keys-Has k ((j, v) ∷ m) h = ground (arith, same_iff j k, keys-Has k m)

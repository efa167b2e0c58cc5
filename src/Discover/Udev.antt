-- ===== src/Discover/Udev.antt =====
-- pkg/operator/discover/discover.go: `matchUdevEvent`. `matches` is `regexp.MatchString`.
use topolvm_operator.Base.{
  ◌≡◌, refl, ap, Bool, true, false, not, ◌&&◌, List, [], ◌∷◌, any, Bool-cases, inl, inr,
}
use topolvm_operator.Base.Text.{Text}
use topolvm_operator.Env.{Result, ok, err, panic}

module _ (matches : Text → Text → Result Bool) (text : Text) where
  -- The loop over the expressions, which ends at the first that matches.
  unfoldable pub any_match : List Text → Result Bool
  any_match [] = ok false
  any_match (x ∷ xs) = elim (matches x text) [
    | ok b ↦ elim b [ true ↦ ok true | false ↦ any_match xs ]
    | err e ↦ err e
    | panic ↦ panic
  ]

  unfoldable pub match_udev_event : List Text → List Text → Result Bool
  match_udev_event [] exclusions = ok false
  match_udev_event (x ∷ xs) exclusions = elim (matches x text) [
    | ok b ↦ elim b [
      | true ↦ elim (any_match exclusions) [
        | ok excluded ↦ elim excluded [ true ↦ match_udev_event xs exclusions | false ↦ ok true ]
        | err e ↦ err e
        | panic ↦ panic
      ]
      | false ↦ match_udev_event xs exclusions
    ]
    | err e ↦ err e
    | panic ↦ panic
  ]

-- The answers of `regexp.MatchString` where no expression is malformed.
abbrev pub total : (Text → Text → Bool) → Text → Text → Result Bool
total m x text = ok (m x text)

any_match-total :
    (m : Text → Text → Bool) (text : Text) (xs : List Text)
    → any_match (total m) text xs ≡ ok (any (λ x. m x text) xs)
unfolding any_match
any_match-total m text [] = refl
any_match-total m text (x ∷ xs) = elim (Bool-cases (m x text)) [
  | inl e ↦ rw e refl
  | inr e ↦ rw (e, any_match-total m text xs) refl
]

and_false : (b : Bool) → (b && false) ≡ false
and_false true = refl
and_false false = refl

-- Where every expression is well formed, an event is reported exactly when some of the matches finds
-- it and none of the exclusions does, whatever their order.
pub match_udev_event-exact :
    (m : Text → Text → Bool) (text : Text) (xs exclusions : List Text)
    → match_udev_event (total m) text xs exclusions
      ≡ ok (any (λ x. m x text) xs && not (any (λ x. m x text) exclusions))
unfolding match_udev_event
match_udev_event-exact m text [] exclusions = refl
match_udev_event-exact m text (x ∷ xs) exclusions = elim (Bool-cases (m x text)) [
  | inr e ↦ rw (e, match_udev_event-exact m text xs exclusions) refl
  | inl e ↦ elim (Bool-cases (any (λ y. m y text) exclusions)) [
    | inl f ↦
        rw (e, any_match-total m text exclusions, f, match_udev_event-exact m text xs exclusions, f)
          (ap ok (and_false (any (λ y. m y text) xs)))
    | inr f ↦ rw (e, any_match-total m text exclusions, f) refl
  ]
]

-- ===== src/Discover/Retry.antt =====
-- When `retryLoopDevice` of pkg/operator/discover/discover.go returns.
use topolvm_operator.Base.{
  ℕ, zero, suc, ◌<◌, arith, ◌≡◌, ◌≢◌, ◌∙◌, ◌⊎◌, inl, inr, refl, Bool, true, false,
}
use topolvm_operator.Base.Text.{Text}
use topolvm_operator.Env.{
  Env, Trace, Result, ok, err, panic, Error, M, pure, continue, Outcome, value, error, attempted,
}
use topolvm_operator.Discover.Devices.{check_loop_device, retry_loop_device}

-- The trace after so many checks.
unfoldable pub after_checks : Text → Env → ℕ → Trace → Trace
after_checks name e zero t = t
after_checks name e (suc k) t = after_checks name e k (check_loop_device name e t).1

-- The check in this trace fails.
abbrev pub Fails : Text → Env → Trace → Type 0
Fails name e t = (x : Error) × ((check_loop_device name e t).0 ≡ err x)

-- What is done after a check.
abbrev go_on : Text → ℕ → Outcome (Unit {0}) → M Bool
go_on name n (value u) = pure true
go_on name n (error x) = retry_loop_device name n

after_ok :
    (name : Text) (n : ℕ) (e : Env) (r : Result (Unit {0})) (t : Trace)
    → r ≡ ok tt
    → continue (go_on name n) e (attempted (r, t)) ≡ (ok true, t)
after_ok name n e r t h = rw h refl

after_err :
    (name : Text) (n : ℕ) (e : Env) (r : Result (Unit {0})) (t : Trace)
    → (x : Error) × (r ≡ err x)
    → continue (go_on name n) e (attempted (r, t)) ≡ retry_loop_device name n e t
after_err name n e r t (x, h) = rw h refl

module _ (name : Text) (e : Env) where
  -- The first check that is well: all checks before the k-th fail, and that one does not.
  abbrev pub IsFirst : ℕ → Trace → Type 0
  IsFirst k t =
      ((j : ℕ) → j < k → Fails name e (after_checks name e j t))
      × ((check_loop_device name e (after_checks name e k t)).0 ≡ ok tt)

  -- What the loop comes to in at most so many rounds.
  abbrev pub StopsAtFirst : ℕ → Trace → Result Bool × Trace → Type 0
  StopsAtFirst n t r =
      ((k : ℕ) × ((k < n) × IsFirst k t × (r ≡ (ok true, after_checks name e (suc k) t))))
      ⊎ (((j : ℕ) → j < n → Fails name e (after_checks name e j t))
          × (r ≡ (ok false, after_checks name e n t)))

  outcomes : (r : Result (Unit {0})) → r ≢ panic → (r ≡ ok tt) ⊎ ((x : Error) × (r ≡ err x))
  outcomes (ok u) h = inl refl
  outcomes (err x) h = inr (x, refl)
  outcomes panic h = absurd (h refl)

  earlier :
      (n : ℕ) (t : Trace)
      → Fails name e t
      → ((j : ℕ) → j < n → Fails name e (after_checks name e j (check_loop_device name e t).1))
      → (j : ℕ) → j < suc n
      → Fails name e (after_checks name e j t)
  unfolding after_checks
  earlier n t h f zero q = h
  earlier n t h f (suc j) q = f j (omega (arith, q))

  further :
      (n : ℕ) (t : Trace)
      → Fails name e t
      → StopsAtFirst n
          (check_loop_device name e t).1
          (retry_loop_device name n e (check_loop_device name e t).1)
      → StopsAtFirst (suc n) t (retry_loop_device name (suc n) e t)
  unfolding after_checks retry_loop_device
  further n t f (inl (k, (l, (before, first), q))) = inl (
    suc k,
    (
      omega (arith, l),
      (earlier k t f before, first),
      after_err name n e (check_loop_device name e t).0 (check_loop_device name e t).1 f ∙ q,
    ),
  )
  further n t f (inr (all_fail, q)) = inr (
    earlier n t f all_fail,
    after_err name n e (check_loop_device name e t).0 (check_loop_device name e t).1 f ∙ q,
  )

  -- Where no check panics, the loop returns behind the first check that is well, and runs all the
  -- checks before it, each of which fails: in so many rounds, it has returned if one of that many
  -- checks is the first that is well, and else all of them have failed and it still goes on.
  pub retry_loop_device-StopsAtFirst :
      (n : ℕ) (t : Trace)
      → ((u : Trace) → (check_loop_device name e u).0 ≢ panic)
      → StopsAtFirst n t (retry_loop_device name n e t)
  unfolding after_checks retry_loop_device
  retry_loop_device-StopsAtFirst zero t h = inr ((λ j q. absurd (omega (arith, q))), refl)
  retry_loop_device-StopsAtFirst (suc n) t h =
      elim (outcomes (check_loop_device name e t).0 (h t)) [
        | inl p ↦ inl (
          0,
          (
            omega arith,
            ((λ j q. absurd (omega (arith, q))), p),
            after_ok name n e (check_loop_device name e t).0 (check_loop_device name e t).1 p,
          ),
        )
        | inr f ↦ further n t f (retry_loop_device-StopsAtFirst n (check_loop_device name e t).1 h)
      ]

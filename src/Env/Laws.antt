-- ===== src/Env/Laws.antt =====
-- Inversion of a computation that ends well.
use topolvm_operator.Base.{◌≢◌, ◌∙◌, sym, ap, ◌≡◌, refl}
use topolvm_operator.Env.{
  Env, Trace, Error, Result, ok, err, panic, M, continue, ◌>>=◌, Outcome, value, error, attempt,
  attempted,
}

module _ {A B : Type 0} where
  continue-ok :
      (f : A → M B) (e : Env) (r : Result A) (t : Trace) {b : B}
      → (continue f e (r, t)).0 ≡ ok b
      → (a : A) × (r ≡ ok a) × (continue f e (r, t) ≡ f a e t)
  continue-ok f e (ok a) t h = (a, refl, refl)
  continue-ok f e (err x) t h = cc
  continue-ok f e panic t h = cc

  -- The first part ended well, and the rest ran on what it left.
  pub bind-ok :
      (m : M A) (f : A → M B) (e : Env) (t : Trace) {b : B}
      → ((m >>= f) e t).0 ≡ ok b
      → (a : A) × ((m e t).0 ≡ ok a) × ((m >>= f) e t ≡ f a e (m e t).1)
  bind-ok m f e t h = let (r, t') = m e t in continue-ok f e r t' h

pub ok-injective : {A : Type 0} {a b : A} → ok a ≡ ok b → a ≡ b
ok-injective h = cc

-- The result of a call whose error is looked at, without the trace.
abbrev pub outcome_of : {A : Type 0} → Result A → Result (Outcome A)
outcome_of (ok a) = ok (value a)
outcome_of (err x) = ok (error x)
outcome_of panic = panic

attempted-eq : {A : Type 0} (r : Result A) (t : Trace) → attempted (r, t) ≡ (outcome_of r, t)
attempted-eq (ok a) t = refl
attempted-eq (err x) t = refl
attempted-eq panic t = refl

pub attempt-eq :
    {A : Type 0} (m : M A) (e : Env) (t : Trace) → attempt m e t ≡ (outcome_of (m e t).0, (m e t).1)
attempt-eq m e t = let (r, t') = m e t in attempted-eq r t'

outcome-value : {A : Type 0} (r : Result A) {a : A} → outcome_of r ≡ ok (value a) → r ≡ ok a
outcome-value (ok b) h = cc
outcome-value (err x) h = cc
outcome-value panic h = cc

-- A value that a caller sees is what the call returned.
pub attempt-value :
    {A : Type 0} (m : M A) (e : Env) (t : Trace) {a : A}
    → (attempt m e t).0 ≡ ok (value a)
    → (m e t).0 ≡ ok a
attempt-value m e t h = outcome-value (m e t).0 (ap (λ r. r.0) (sym (attempt-eq m e t)) ∙ h)

outcome-error : {A : Type 0} (r : Result A) {x : Error} → outcome_of r ≡ ok (error x) → r ≡ err x
outcome-error (ok b) h = cc
outcome-error (err y) h = cc
outcome-error panic h = cc

-- An error that a caller sees is what the call returned.
pub attempt-error :
    {A : Type 0} (m : M A) (e : Env) (t : Trace) {x : Error}
    → (attempt m e t).0 ≡ ok (error x)
    → (m e t).0 ≡ err x
attempt-error m e t h = outcome-error (m e t).0 (ap (λ r. r.0) (sym (attempt-eq m e t)) ∙ h)

pub attempt-trace : {A : Type 0} (m : M A) (e : Env) (t : Trace) → (attempt m e t).1 ≡ (m e t).1
attempt-trace m e t = ap (λ r. r.1) (attempt-eq m e t)

module _ {A B : Type 0} where
  continue-silent :
      (f : A → M B) (e : Env) (r : Result A) (t : Trace)
      → ((a : A) (t' : Trace) → (f a e t').1 ≡ t')
      → (continue f e (r, t)).1 ≡ t
  continue-silent f e (ok a) t h = h a t
  continue-silent f e (err x) t h = refl
  continue-silent f e panic t h = refl

  -- A part that acts on nothing adds nothing to the trace.
  pub bind-silent :
      (m : M A) (f : A → M B) (e : Env) (t : Trace)
      → ((a : A) (t' : Trace) → (f a e t').1 ≡ t')
      → ((m >>= f) e t).1 ≡ (m e t).1
  bind-silent m f e t h = let (r, t') = m e t in continue-silent f e r t' h

module _ {A B : Type 0} where
  continue-runs :
      (f : A → M B) (e : Env) (r : Result A) (t : Trace) {a : A}
      → r ≡ ok a
      → continue f e (r, t) ≡ f a e t
  continue-runs f e r t h = rw h

  -- Where the first part returns, the rest runs on its value.
  pub bind-runs :
      (m : M A) (f : A → M B) (e : Env) (t : Trace) {a : A}
      → (m e t).0 ≡ ok a
      → (m >>= f) e t ≡ f a e (m e t).1
  bind-runs m f e t h = let (r, t') = m e t in continue-runs f e r t' h

module _ {A B : Type 0} where
  attempted-runs :
      (r : Result A) (k : Outcome A → M B) (e : Env) (t : Trace)
      → r ≢ panic
      → (o : Outcome A) × (continue k e (attempted (r, t)) ≡ k o e t)
  attempted-runs (ok a) k e t h = (value a, refl)
  attempted-runs (err x) k e t h = (error x, refl)
  attempted-runs panic k e t h = absurd (h refl)

  -- Where the first part does not panic, the rest runs on its outcome and on what it left.
  pub attempt-runs :
      (m : M A) (k : Outcome A → M B) (e : Env) (t : Trace)
      → (m e t).0 ≢ panic
      → (o : Outcome A) × ((attempt m >>= k) e t ≡ k o e (m e t).1)
  attempt-runs m k e t h = let (r, t') = m e t in attempted-runs r k e t' h

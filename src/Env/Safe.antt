-- ===== src/Env/Safe.antt =====
-- Computations that do not panic, and computations that always return.
use topolvm_operator.Base.{
  ◌∙◌, ap, ◌≡◌, ◌≢◌, refl, Bool, true, false, Option, none, some, List, if◌then◌else◌,
}
use topolvm_operator.Base.Text.{Text}
use topolvm_operator.Base.Maps.{Map}
use topolvm_operator.Env.{
  Env, Trace, Result, ok, err, panic, Error, M, pure, fail, lift, asks, continue, ◌>>=◌, Outcome,
  value, error, attempt, or_error, done, wrap, wrapped, execute_command_with_status,
  execute_command_with_output, execute_command, range,
}
use topolvm_operator.Env.Laws.{outcome_of, attempt-eq}

-- The computation returns or fails.
pub record IsSafe {A : Type 0} (m : M A) : Type 0 where
  pub at : (e : Env) (t : Trace) → (m e t).0 ≢ panic

-- The computation returns.
pub record Returns {A : Type 0} (m : M A) : Type 0 where
  pub at : (e : Env) (t : Trace) → (a : A) × ((m e t).0 ≡ ok a)

module _ {A : Type 0} where
  pub Returns-IsSafe : (m : M A) → Returns m → IsSafe m
  Returns-IsSafe m h = record { at = λ e t p. let (a, q) = h.at e t in cc }

  pub IsSafe-pure : (a : A) → IsSafe (pure a)
  IsSafe-pure a = record { at = λ e t p. cc }

  pub Returns-pure : (a : A) → Returns (pure a)
  Returns-pure a = record { at = λ e t. (a, refl) }

  pub IsSafe-fail : (x : Error) → IsSafe (fail {A = A} x)
  IsSafe-fail x = record { at = λ e t p. cc }

  pub IsSafe-lift : (r : Result A) → r ≢ panic → IsSafe (lift r)
  IsSafe-lift r h = record { at = λ e t. h }

  pub IsSafe-asks : (f : Env → Trace → A) → IsSafe (asks f)
  IsSafe-asks f = record { at = λ e t p. cc }

  pub IsSafe-if : (b : Bool) (m n : M A) → IsSafe m → IsSafe n → IsSafe (if b then m else n)
  IsSafe-if true m n hm hn = hm
  IsSafe-if false m n hm hn = hn

  pub Returns-if : (b : Bool) (m n : M A) → Returns m → Returns n → Returns (if b then m else n)
  Returns-if true m n hm hn = hm
  Returns-if false m n hm hn = hn

module _ {A B : Type 0} where
  safe_continue :
      (f : A → M B) (e : Env) (r : Result A) (t : Trace)
      → r ≢ panic
      → ((a : A) → IsSafe (f a))
      → (continue f e (r, t)).0 ≢ panic
  safe_continue f e (ok a) t h hf = (hf a).at e t
  safe_continue f e (err x) t h hf = λ p. cc
  safe_continue f e panic t h hf = absurd (h refl)

  pub IsSafe-bind : (m : M A) (f : A → M B) → IsSafe m → ((a : A) → IsSafe (f a)) → IsSafe (m >>= f)
  IsSafe-bind m f hm hf = record {
    at = λ e t. let (r, t') = m e t in safe_continue f e r t' (hm.at e t) hf;
  }

  returning_continue :
      (f : A → M B) (e : Env) (r : Result A) (t : Trace)
      → (a : A) × (r ≡ ok a)
      → ((a : A) → Returns (f a))
      → (b : B) × ((continue f e (r, t)).0 ≡ ok b)
  returning_continue f e (ok a) t h hf = (hf a).at e t
  returning_continue f e (err x) t (a, p) hf = absurd (cc)
  returning_continue f e panic t (a, p) hf = absurd (cc)

  pub Returns-bind :
      (m : M A) (f : A → M B) → Returns m → ((a : A) → Returns (f a)) → Returns (m >>= f)
  Returns-bind m f hm hf = record {
    at = λ e t. let (r, t') = m e t in returning_continue f e r t' (hm.at e t) hf;
  }

returning_outcome :
    {A : Type 0} (r : Result A) → r ≢ panic → (o : Outcome A) × (outcome_of r ≡ ok o)
returning_outcome (ok a) h = (value a, refl)
returning_outcome (err x) h = (error x, refl)
returning_outcome panic h = absurd (h refl)

module _ {A : Type 0} where
  -- A caller that looks at the error always goes on.
  pub Returns-attempt : (m : M A) → IsSafe m → Returns (attempt m)
  Returns-attempt m h = record {
    at = λ e t.
        let (o, p) = returning_outcome (m e t).0 (h.at e t) in
        (o, ap (λ r. r.0) (attempt-eq m e t) ∙ p);
  }

  wrapped-safe :
      (text : Text) (r : Result A) (t : Trace) → r ≢ panic → (wrapped text (r, t)).0 ≢ panic
  wrapped-safe text (ok a) t h = λ p. cc
  wrapped-safe text (err x) t h = λ p. cc
  wrapped-safe text panic t h = absurd (h refl)

  pub IsSafe-wrap : (text : Text) (m : M A) → IsSafe m → IsSafe (wrap text m)
  IsSafe-wrap text m h = record {
    at = λ e t. let (r, t') = m e t in wrapped-safe text r t' (h.at e t);
  }

pub IsSafe-status : (c : List Text) → IsSafe (execute_command_with_status c)
unfolding execute_command_with_status
IsSafe-status c = record { at = λ e t p. cc }

or_error-safe : (r : Text × Option Error) → or_error r ≢ panic
or_error-safe (out, none) p = cc
or_error-safe (out, some x) p = cc

pub IsSafe-output : (c : List Text) → IsSafe (execute_command_with_output c)
unfolding execute_command_with_output
IsSafe-output c =
    IsSafe-bind (execute_command_with_status c) (λ r. lift (or_error r)) (IsSafe-status c)
      (λ r. IsSafe-lift (or_error r) (or_error-safe r))

done-safe : (o : Option Error) → done o ≢ panic
done-safe none p = cc
done-safe (some x) p = cc

pub IsSafe-execute : (c : List Text) → IsSafe (execute_command c)
unfolding execute_command
IsSafe-execute c = record { at = λ e t. done-safe (e.process t c).error }

pub Returns-range : {V : Type 0} (m : Map V) → Returns (range m)
unfolding range
Returns-range m = record { at = λ e t. (_, refl) }

pub ruleset safe_rules = (
  IsSafe-pure, IsSafe-fail, IsSafe-asks, IsSafe-if, IsSafe-bind, IsSafe-wrap, IsSafe-status,
  IsSafe-output, IsSafe-execute,
)

pub ruleset returning_rules =
    (Returns-pure, Returns-if, Returns-bind, Returns-attempt, Returns-range)

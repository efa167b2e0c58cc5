-- ===== src/Env/Ensures.antt =====
-- What holds of the value that a computation returns, whatever the environment answers.
use topolvm_operator.Base.{◌≡◌, ◌∙◌, sym, ap, subst, Bool, true, false, if◌then◌else◌}
use topolvm_operator.Env.{Env, Trace, ok, Error, M, pure, fail, crash, ◌>>=◌, Outcome, value, error}
use topolvm_operator.Env.Laws.{bind-ok, ok-injective}

pub record Ensures {A : Type 0} (P : A → Type 0) (m : M A) : Type 0 where
  pub at : (e : Env) (t : Trace) (a : A) → (m e t).0 ≡ ok a → P a

module _ {A : Type 0} {P : A → Type 0} where
  pub Ensures-pure : (a : A) → P a → Ensures P (pure a)
  Ensures-pure a h = record { at = λ e t b p. subst P (ok-injective p) h }

  pub Ensures-fail : (x : Error) → Ensures P (fail x)
  Ensures-fail x = record { at = λ e t b p. absurd (cc) }

  pub Ensures-crash : Ensures P crash
  Ensures-crash = record { at = λ e t b p. absurd (cc) }

  pub Ensures-if :
      (b : Bool) (m k : M A) → Ensures P m → Ensures P k → Ensures P (if b then m else k)
  Ensures-if true m k hm hk = hm
  Ensures-if false m k hm hk = hk

  pub Ensures-or :
      {B : Type 0} (o : Outcome B) (f : B → M A) (g : Error → M A)
      → ((b : B) → Ensures P (f b))
      → ((x : Error) → Ensures P (g x))
      → Ensures P (elim o [ value b ↦ f b | error x ↦ g x ])
  Ensures-or (value b) f g hf hg = hf b
  Ensures-or (error x) f g hf hg = hg x

module _ {A B : Type 0} {P : B → Type 0} where
  -- Where the rest starts from a value of which something is known.
  pub Ensures-from :
      (Q : A → Type 0) (m : M A) (f : A → M B)
      → Ensures Q m
      → ((a : A) → Q a → Ensures P (f a))
      → Ensures P (m >>= f)
  Ensures-from Q m f hm hf = record {
    at = λ e t b p.
        let (a, q, r) = bind-ok m f e t p in
        (hf a (hm.at e t a q)).at e (m e t).1 b (ap (λ z. z.0) (sym r) ∙ p);
  }

  pub Ensures-bind : (m : M A) (f : A → M B) → ((a : A) → Ensures P (f a)) → Ensures P (m >>= f)
  Ensures-bind m f hf =
      Ensures-from (λ a. Unit {0}) m f (record { at = λ e t a p. tt }) (λ a u. hf a)

-- ===== src/Env/Costs.antt =====
-- How many actions a computation takes at most.
use topolvm_operator.Base.{
  ◌≡◌, ◌∙◌, sym, ap, refl, ℕ, ◌+◌, ◌≤◌, arith, Bool, true, false, [], ◌∷◌, ◌++◌, append_assoc,
  append-nil, length, length-append, if◌then◌else◌,
}
use topolvm_operator.Base.Text.{Text}
use topolvm_operator.Env.{
  Env, Answers, Trace, Action, Result, ok, err, panic, Error, M, pure, fail, continue, ◌>>=◌,
  attempt, api_write, request, wrap,
}
use topolvm_operator.Env.Laws.{attempt-trace}
use topolvm_operator.Env.Emits.{wrapped-trace}

-- The actions of `m` come behind the trace, and there are at most `n`.
pub record Costs {A : Type 0} (n : ℕ) (m : M A) : Type 0 where
  pub at : (e : Env) (t : Trace) → (acts : Trace) × ((m e t).1 ≡ t ++ acts) × (length acts ≤ n)

module _ {A : Type 0} where
  costs_nothing : (n : ℕ) (m : M A) → ((e : Env) (t : Trace) → (m e t).1 ≡ t) → Costs n m
  costs_nothing n m h = record { at = λ e t. ([], h e t ∙ sym (append-nil t), omega arith) }

  pub Costs-pure : (n : ℕ) (a : A) → Costs n (pure a)
  Costs-pure n a = costs_nothing n (pure a) (λ e t. refl)

  pub Costs-fail : (n : ℕ) (x : Error) → Costs n (fail {A = A} x)
  Costs-fail n x = costs_nothing n (fail x) (λ e t. refl)

  pub Costs-request : (n : ℕ) (a : Action) (f : Answers → Result A) → 1 ≤ n → Costs n (request a f)
  Costs-request n a f h = record { at = λ e t. (a ∷ [], refl, h) }

  pub Costs-if :
      (n : ℕ) (b : Bool) (m k : M A) → Costs n m → Costs n k → Costs n (if b then m else k)
  Costs-if n true m k hm hk = hm
  Costs-if n false m k hm hk = hk

  pub Costs-choice :
      (n : ℕ) (b : Bool) (m k : M A)
      → Costs n m
      → Costs n k
      → Costs n (elim b [ true ↦ m | false ↦ k ])
  Costs-choice n true m k hm hk = hm
  Costs-choice n false m k hm hk = hk

  pub Costs-attempt : (n : ℕ) (m : M A) → Costs n m → Costs n (attempt m)
  Costs-attempt n m hm = record {
    at = λ e t. let (acts, p, q) = hm.at e t in (acts, attempt-trace m e t ∙ p, q);
  }

  pub Costs-wrap : (n : ℕ) (text : Text) (m : M A) → Costs n m → Costs n (wrap text m)
  Costs-wrap n text m hm = record {
    at = λ e t. let (acts, p, q) = hm.at e t in (acts, wrapped-trace text (m e t) ∙ p, q);
  }

pub Costs-write : (n : ℕ) (a : Action) → 1 ≤ n → Costs n (api_write a)
unfolding api_write
Costs-write n a h = record { at = λ e t. (a ∷ [], refl, h) }

module _ {A B : Type 0} where
  Costs-continue :
      (k : ℕ) (f : A → M B)
      → ((a : A) → Costs k (f a))
      → (e : Env) (r : Result A) (t : Trace)
      → (acts : Trace) × ((continue f e (r, t)).1 ≡ t ++ acts) × (length acts ≤ k)
  Costs-continue k f hf e (ok a) t = (hf a).at e t
  Costs-continue k f hf e (err x) t = ([], sym (append-nil t), omega arith)
  Costs-continue k f hf e panic t = ([], sym (append-nil t), omega arith)

  pub Costs-bind :
      (n k l : ℕ) (m : M A) (f : A → M B)
      → n + k ≤ l
      → Costs n m
      → ((a : A) → Costs k (f a))
      → Costs l (m >>= f)
  Costs-bind n k l m f h hm hf = record {
    at = λ e t.
        let (r, t') = m e t in
        let (acts, p, pa) = hm.at e t in
        let (more, q, pb) = Costs-continue k f hf e r t' in
        (
          acts ++ more,
          q ∙ ap (λ u. u ++ more) p ∙ append_assoc t acts more,
          omega (arith, length-append acts more, pa, pb, h),
        );
  }

-- ===== src/Env/Emits.antt =====
-- What a computation puts on the trace, whatever the environment answers and however it ends.
use topolvm_operator.Base.{
  ◌≡◌, ◌∙◌, sym, ap, refl, Bool, true, false, List, [], ◌∷◌, ◌++◌, append_assoc, append-nil, All,
  All-append, if◌then◌else◌,
}
use topolvm_operator.Base.Text.{Text}
use topolvm_operator.Base.Maps.{Map}
use topolvm_operator.Env.{
  Env, Answers, Trace, Action, output, execute, Result, ok, err, panic, Error, M, pure, fail, crash,
  lift, asks, asks_result, continue, ◌>>=◌, Outcome, value, error, attempt, attempted, or_error,
  execute_command_with_status, execute_command_with_output, execute_command, range, get_config_map,
  api_get_config_map, api_write, request, wrap, wrapped,
}

-- The actions of `m`, in their order, come behind the trace and each satisfies `P`.
pub record Emits {A : Type 0} (P : Action → Type 0) (m : M A) : Type 0 where
  pub at : (e : Env) (t : Trace) → (acts : Trace) × ((m e t).1 ≡ t ++ acts) × All P acts

module _ {A : Type 0} {P : Action → Type 0} where
  silent : (m : M A) → ((e : Env) (t : Trace) → (m e t).1 ≡ t) → Emits P m
  silent m h = record { at = λ e t. ([], h e t ∙ sym (append-nil t), tt) }

  pub Emits-pure : (a : A) → Emits P (pure a)
  Emits-pure a = silent (pure a) (λ e t. refl)

  pub Emits-fail : (x : Error) → Emits P (fail {A = A} x)
  Emits-fail x = silent (fail x) (λ e t. refl)

  pub Emits-crash : Emits P (crash {A = A})
  Emits-crash = silent crash (λ e t. refl)

  pub Emits-lift : (r : Result A) → Emits P (lift r)
  Emits-lift r = silent (lift r) (λ e t. refl)

  pub Emits-asks : (f : Env → Trace → A) → Emits P (asks f)
  Emits-asks f = silent (asks f) (λ e t. refl)

  pub Emits-asks_result : (f : Env → Result A) → Emits P (asks_result f)
  Emits-asks_result f = silent (asks_result f) (λ e t. refl)

  pub Emits-if : (b : Bool) (m n : M A) → Emits P m → Emits P n → Emits P (if b then m else n)
  Emits-if true m n hm hn = hm
  Emits-if false m n hm hn = hn

module _ {A B : Type 0} {P : Action → Type 0} where
  Emits-continue :
      (f : A → M B)
      → ((a : A) → Emits P (f a))
      → (e : Env) (r : Result A) (t : Trace)
      → (acts : Trace) × ((continue f e (r, t)).1 ≡ t ++ acts) × All P acts
  Emits-continue f hf e (ok a) t = (hf a).at e t
  Emits-continue f hf e (err x) t = ([], sym (append-nil t), tt)
  Emits-continue f hf e panic t = ([], sym (append-nil t), tt)

  pub Emits-bind :
      (m : M A) (f : A → M B) → Emits P m → ((a : A) → Emits P (f a)) → Emits P (m >>= f)
  Emits-bind m f hm hf = record {
    at = λ e t.
        let (r, t') = m e t in
        let (acts, p, pa) = hm.at e t in
        let (more, q, pb) = Emits-continue f hf e r t' in
        (
          acts ++ more,
          q ∙ ap (λ u. u ++ more) p ∙ append_assoc t acts more,
          All-append P acts more pa pb,
        );
  }

attempted-trace : {A : Type 0} (r : Result A × Trace) → (attempted r).1 ≡ r.1
attempted-trace (ok a, t) = refl
attempted-trace (err x, t) = refl
attempted-trace (panic, t) = refl

module _ {A : Type 0} {P : Action → Type 0} where
  pub Emits-attempt : (m : M A) → Emits P m → Emits P (attempt m)
  Emits-attempt m hm = record {
    at = λ e t. let (acts, p, pa) = hm.at e t in (acts, attempted-trace (m e t) ∙ p, pa);
  }

  pub Emits-or :
      (o : Outcome A) {B : Type 0} (f : A → M B) (g : Error → M B)
      → ((a : A) → Emits P (f a))
      → ((x : Error) → Emits P (g x))
      → Emits P (elim o [ value a ↦ f a | error x ↦ g x ])
  Emits-or (value a) f g hf hg = hf a
  Emits-or (error x) f g hf hg = hg x

module _ {P : Action → Type 0} where
  pub Emits-status : (c : List Text) → P (output c) → Emits P (execute_command_with_status c)
  unfolding execute_command_with_status
  Emits-status c h = record { at = λ e t. (output c ∷ [], refl, (h, tt)) }

  pub Emits-output : (c : List Text) → P (output c) → Emits P (execute_command_with_output c)
  unfolding execute_command_with_output
  Emits-output c h =
      Emits-bind (execute_command_with_status c) (λ r. lift (or_error r)) (Emits-status c h)
        (λ r. Emits-lift (or_error r))

  pub Emits-execute : (c : List Text) → P (execute c) → Emits P (execute_command c)
  unfolding execute_command
  Emits-execute c h = record { at = λ e t. (execute c ∷ [], refl, (h, tt)) }

  pub Emits-range : {V : Type 0} (m : Map V) → Emits P (range m)
  unfolding range
  Emits-range m = record { at = λ e t. ([], sym (append-nil t), tt) }

module _ {P : Action → Type 0} where
  pub Emits-get_config_map :
      (name : Text) → P (get_config_map name) → Emits P (api_get_config_map name)
  unfolding api_get_config_map
  Emits-get_config_map name h = record { at = λ e t. (get_config_map name ∷ [], refl, (h, tt)) }

  pub Emits-write : (a : Action) → P a → Emits P (api_write a)
  unfolding api_write
  Emits-write a h = record { at = λ e t. (a ∷ [], refl, (h, tt)) }

pub Emits-request :
    {A : Type 0} {P : Action → Type 0} (a : Action) (f : Answers → Result A)
    → P a
    → Emits P (request a f)
Emits-request a f h = record { at = λ e t. (a ∷ [], refl, (h, tt)) }

pub wrapped-trace : {A : Type 0} (text : Text) (r : Result A × Trace) → (wrapped text r).1 ≡ r.1
wrapped-trace text (ok a, t) = refl
wrapped-trace text (err x, t) = refl
wrapped-trace text (panic, t) = refl

pub Emits-wrap :
    {A : Type 0} {P : Action → Type 0} (text : Text) (m : M A) → Emits P m → Emits P (wrap text m)
Emits-wrap text m hm = record {
  at = λ e t. let (acts, p, pa) = hm.at e t in (acts, wrapped-trace text (m e t) ∙ p, pa);
}

pub ruleset emits_rules = (
  Emits-pure, Emits-fail, Emits-crash, Emits-lift, Emits-asks, Emits-asks_result, Emits-if,
  Emits-bind, Emits-attempt, Emits-status, Emits-output, Emits-execute, Emits-range, Emits-wrap,
  Emits-get_config_map, Emits-write, Emits-request,
)

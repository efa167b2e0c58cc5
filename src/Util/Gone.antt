-- ===== src/Util/Gone.antt =====
-- What `DeleteDeployment` of pkg/operator/k8sutil/deployment.go saw when it ends well.
use topolvm_operator.Base.{
  ℕ, zero, suc, ◌<◌, arith, ◌≡◌, ◌≢◌, ◌∙◌, ap, refl, ◌⊎◌, inl, inr, Bool, true, false, Option, none,
  some, [], ◌∷◌, ◌++◌, if◌then◌else◌,
}
use topolvm_operator.Base.Text.{Text, codes}
use topolvm_operator.Kube
use topolvm_operator.Kube.{deployment}
use topolvm_operator.Env.{
  Env, Trace, Action, Result, ok, err, panic, done, Error, new, message, not_found, M, pure, fail,
  continue, ◌>>◌, Outcome, value, error, attempted, api_write, delete_object, get_object,
}
use topolvm_operator.Client.{is_not_found, not_found_is, get_deployment}
use topolvm_operator.Util.Looks.{after_looks}
use topolvm_operator.Util.Delete.{
  Verdict, gone, there, unknown, verdict, wait_gone, delete_resource_and_wait, delete_deployment,
  delete_failed,
}

failed : (x : Error) (e : Env) (u : Trace) → (fail {A = Unit {0}} x e u).0 ≢ ok tt
failed x e u h = cc

-- What the loop does after a look.
abbrev looked : M (Unit {0}) → (Error → Error) → Verdict → M (Unit {0})
looked again other gone = pure tt
looked again other there = again
looked again other (unknown x) = fail (other x)

module _ (name : Text) (e : Env) where
  abbrev look : Action
  look = get_object deployment name

  abbrev deletion : Action
  deletion = delete_object deployment name

  -- What a look after a trace finds.
  abbrev found : Trace → Result Kube.Deployment
  found t = (e.kube t).found_deployment name

  abbrev IsThere : Trace → Type 0
  IsThere t = (d : Kube.Deployment) × (found t ≡ ok d)

  -- The looks after a trace, at most so many: all find the deployment but the last, to which the API
  -- says that there is none, and nothing follows it.
  abbrev pub EndsGone : ℕ → Trace → Trace → Type 0
  EndsGone n t u =
      (k : ℕ) × (k < n)
      × ((j : ℕ) → j < k → IsThere (after_looks look j t))
      × (found (after_looks look k t) ≡ err not_found)
      × (u ≡ after_looks look (suc k) t)

  -- The deletion is the first action. The API says to it that there is no such deployment, and it
  -- stays the only one; or the deployment is looked at until it is gone.
  abbrev pub SaidGone : Trace → Trace → Type 0
  SaidGone t u =
      ((e.write_error t ≡ some not_found) × (u ≡ t ++ deletion ∷ []))
      ⊎ ((e.write_error t ≡ none) × EndsGone 45 (t ++ deletion ∷ []) u)

  earlier :
      (k : ℕ) (t : Trace)
      → IsThere t
      → ((j : ℕ) → j < k → IsThere (after_looks look j (t ++ look ∷ [])))
      → (j : ℕ) → j < suc k
      → IsThere (after_looks look j t)
  earlier k t h f zero q = h
  earlier k t h f (suc j) q = f j (omega (arith, q))

  abbrev other : Error → Error
  other x = new (codes "failed to get " ++ name ++ codes ". " ++ message x)

  abbrev wait : ℕ → M (Unit {0})
  wait n = wait_gone (get_deployment name >> pure tt) name n

  unknown-look :
      (b : Bool) (x : Error) (n : ℕ) (t : Trace)
      → is_not_found x ≡ b
      → found t ≡ err x
      → let r = looked (wait n) other (if b then gone else unknown x) e (t ++ look ∷ []) in
        r.0 ≡ ok tt → EndsGone (suc n) t r.1
  unknown-look true x n t q p h =
      (0, omega arith, (λ j l. absurd (omega (arith, l))), p ∙ ap err (not_found_is x q), refl)
  unknown-look false x n t q p h = absurd (failed (other x) e (t ++ look ∷ []) h)

  -- One round, by what the look finds.
  round :
      (n : ℕ) (t : Trace) (r : Result Kube.Deployment)
      → ((u : Trace) → (wait n e u).0 ≡ ok tt → EndsGone n u (wait n e u).1)
      → found t ≡ r
      → let run =
          continue
            (λ (o : Outcome (Unit {0})). looked (wait n) other (verdict o))
            e
            (attempted (continue (λ (d : Kube.Deployment). pure tt) e (r, t ++ look ∷ []))) in
        run.0 ≡ ok tt → EndsGone (suc n) t run.1
  round n t (ok d) ih p h =
      let (k, l, before, last, ends) = ih (t ++ look ∷ []) h in
      (suc k, omega (arith, l), earlier k t (d, p) before, last, ends)
  round n t (err x) ih p h = unknown-look (is_not_found x) x n t refl p h
  round n t panic ih p h = absurd (cc)

  wait-EndsGone : (n : ℕ) (t : Trace) → (wait n e t).0 ≡ ok tt → EndsGone n t (wait n e t).1
  unfolding wait_gone
  wait-EndsGone zero t h = absurd (failed _ e t h)
  wait-EndsGone (suc n) t h = round n t (found t) (wait-EndsGone n) refl h

  -- What follows the deletion.
  abbrev then_wait : Outcome (Unit {0}) → M (Unit {0})
  then_wait (value u) = wait 45
  then_wait (error x) = if is_not_found x then pure tt else fail (delete_failed name x)

  refused :
      (b : Bool) (x : Error) (t : Trace)
      → is_not_found x ≡ b
      → e.write_error t ≡ some x
      → let r = (if b then pure tt else fail (delete_failed name x)) e (t ++ deletion ∷ []) in
        r.0 ≡ ok tt → SaidGone t r.1
  refused true x t q p h = inl (p ∙ ap some (not_found_is x q), refl)
  refused false x t q p h = absurd (failed (delete_failed name x) e (t ++ deletion ∷ []) h)

  removed :
      (t : Trace) (o : Option Error)
      → e.write_error t ≡ o
      → let run = continue then_wait e (attempted (done o, t ++ deletion ∷ [])) in
        run.0 ≡ ok tt → SaidGone t run.1
  removed t none p h = inr (p, wait-EndsGone 45 (t ++ deletion ∷ []) h)
  removed t (some x) p h = refused (is_not_found x) x t refl p h

  -- Where the deletion of a deployment ends well, its first action deletes just this deployment. The
  -- API said to it that there is none, and nothing follows. Or it was accepted, and the actions that
  -- follow are at most 45 looks at this deployment: all of them find it but the last, to which the
  -- API says that there is none.
  pub delete_deployment-SaidGone :
      (t : Trace)
      → (delete_deployment name e t).0 ≡ ok tt
      → SaidGone t (delete_deployment name e t).1
  unfolding delete_deployment api_write delete_resource_and_wait
  delete_deployment-SaidGone t h = removed t (e.write_error t) refl h

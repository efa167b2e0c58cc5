-- ===== src/Util/Verified.antt =====
-- What `DeleteResource` of pkg/operator/k8sutil/delete.go does after a deletion.
use topolvm_operator.Base.{
  ℕ, zero, suc, ◌-◌, ◌^◌, ◌<◌, arith, ◌≡◌, ◌≢◌, ◌↔◌, ◌∙◌, ap, sym, refl, ◌⊎◌, inl, inr, Bool, true,
  false, not, ◌&&◌, Bool-cases, if◌then◌else◌, subst, false≢true,
}
use topolvm_operator.Base.Text.{Text}
use topolvm_operator.Env.{
  Env, Trace, Result, ok, err, panic, Error, not_found, M, pure, fail, ◌>>=◌, continue, Outcome,
  value, error, attempted,
}
use topolvm_operator.Client.{is_not_found, not_found_is}
use topolvm_operator.Util.Delete.{
  DeleteOptions, WaitOptions, Verdict, gone, there, unknown, verdict, verify_gone,
  retry_count_or_default, delete_resource,
}

module _ (verify : M (Unit {0})) (e : Env) where
  -- The trace after so many looks.
  abbrev pub after_verifies : ℕ → Trace → Trace
  after_verifies zero t = t
  after_verifies (suc k) t = after_verifies k (verify e t).1

  abbrev SeenGone : Trace → Type 0
  SeenGone t = (verify e t).0 ≡ err not_found

  -- None of so many looks is told that there is no such object.
  abbrev pub AllThere : ℕ → Trace → Type 0
  AllThere n t = (j : ℕ) → j < n → ¬ SeenGone (after_verifies j t)

  -- Of so many looks, the first that is told so is the last one; or none is, and all are made.
  abbrev pub IsVerified : ℕ → Trace → Result Bool × Trace → Type 0
  IsVerified n t r =
      ((k : ℕ) × ((k < n)
          × AllThere k t
          × SeenGone (after_verifies k t)
          × (r ≡ (ok true, after_verifies (suc k) t))))
      ⊎ (AllThere n t × (r ≡ (ok false, after_verifies n t)))

  earlier : (n : ℕ) (t : Trace) → ¬ SeenGone t → AllThere n (verify e t).1 → AllThere (suc n) t
  earlier n t h f zero q = h
  earlier n t h f (suc j) q = f j (omega (arith, q))

  further :
      (n : ℕ) (t : Trace) (r : Result Bool × Trace)
      → ¬ SeenGone t
      → IsVerified n (verify e t).1 r
      → IsVerified (suc n) t r
  further n t r h (inl (k, (l, before, last, q))) =
      inl (suc k, (omega (arith, l), earlier k t h before, last, q))
  further n t r h (inr (all_there, q)) = inr (earlier n t h all_there, q)

  -- What the loop does after a look.
  abbrev looked : ℕ → Verdict → M Bool
  looked n gone = pure true
  looked n there = verify_gone verify n
  looked n (unknown x) = verify_gone verify n

  at_error :
      (b : Bool) (x : Error) (n : ℕ) (t : Trace)
      → is_not_found x ≡ b
      → (verify e t).0 ≡ err x
      → IsVerified n (verify e t).1 (verify_gone verify n e (verify e t).1)
      → IsVerified (suc n) t (looked n (if b then gone else unknown x) e (verify e t).1)
  at_error true x n t q p ih =
      inl
        (0, (omega arith, (λ j l. absurd (omega (arith, l))), p ∙ ap err (not_found_is x q), refl))
  at_error false x n t q p ih = further n t _ (λ h. cc) ih

  round :
      (n : ℕ) (t : Trace) (r : Result (Unit {0}))
      → (verify e t).0 ≡ r
      → r ≢ panic
      → IsVerified n (verify e t).1 (verify_gone verify n e (verify e t).1)
      → IsVerified (suc n) t (
          continue
            (λ (o : Outcome (Unit {0})). looked n (verdict o))
            e
            (attempted (r, (verify e t).1)))
  round n t (ok u) p safe ih = further n t _ (λ h. cc) ih
  round n t (err x) p safe ih = at_error (is_not_found x) x n t refl p ih
  round n t panic p safe ih = absurd (safe refl)

  verify_gone-IsVerified :
      (n : ℕ) (t : Trace)
      → ((u : Trace) → (verify e u).0 ≢ panic)
      → IsVerified n t (verify_gone verify n e t)
  unfolding verify_gone
  verify_gone-IsVerified zero t h = inr ((λ j q. absurd (omega (arith, q))), refl)
  verify_gone-IsVerified (suc n) t h =
      round n t (verify e t).0 refl (h t) (verify_gone-IsVerified n (verify e t).1 h)

  seen_of :
      (n : ℕ) (t : Trace) (r : Result Bool × Trace)
      → IsVerified n t r
      → (b : Bool) × (v : Trace) × (r ≡ (ok b, v))
  seen_of n t r (inl (k, (l, before, last, q))) = (true, after_verifies (suc k) t, q)
  seen_of n t r (inr (all_there, q)) = (false, after_verifies n t, q)

failed : (x : Error) (e : Env) (u : Trace) → (fail {A = Unit {0}} x e u).0 ≢ ok tt
failed x e u h = cc

-- A part adds nothing to the trace, and ends well just where `P` holds.
abbrev pub EndsWellIf : Type 0 → Trace → Result (Unit {0}) × Trace → Type 0
EndsWellIf P u r = (r.1 ≡ u) × ((r.0 ≡ ok tt) ↔ P)

-- The retries that are asked for, else those of the defaults, else 30.
abbrev pub retries : DeleteOptions → WaitOptions → ℕ
retries opts defaults =
    retry_count_or_default opts.wait_options (retry_count_or_default defaults 30)

module _ (delete verify : M (Unit {0})) (resource : Text) (opts : DeleteOptions)
    (defaults : WaitOptions) (e : Env) where
  -- What follows the deletion, by its answer.
  abbrev pub Deletes : Result (Unit {0}) → Trace → Result (Unit {0}) × Trace → Type 0
  Deletes (ok u) t r =
      ((opts.wait_options.wait ≡ false) × (r ≡ (ok tt, t)))
      ⊎ ((opts.wait_options.wait ≡ true)
          × ((seen : Bool) × (v : Trace) × IsVerified verify e (suc (retries opts defaults)) t
                (ok seen, v)
              × EndsWellIf ((seen ≡ true) ⊎ (opts.wait_options.error_on_timeout ≡ false)) v r))
  Deletes (err x) t r = EndsWellIf ((x ≡ not_found) × (opts.must_delete ≡ false)) t r
  Deletes panic t r = ⊥

  abbrev finish : Error → Bool → M (Unit {0})
  finish x seen =
      if seen then pure tt else if opts.wait_options.error_on_timeout then fail x else pure tt

  finished :
      (x : Error) (seen : Bool) (v : Trace)
      → EndsWellIf
          ((seen ≡ true) ⊎ (opts.wait_options.error_on_timeout ≡ false))
          v
          (finish x seen e v)
  finished x true v = (refl, ((λ h. inl refl), λ h. refl))
  finished x false v = elim (Bool-cases opts.wait_options.error_on_timeout) [
    | inl q ↦ rw q (
      refl,
      ((λ h. absurd (failed x e v h)), λ h. elim h [ inl p ↦ absurd (cc) | inr p ↦ absurd (cc) ]),
    )
    | inr q ↦ rw q (refl, ((λ h. inr refl), λ h. refl))
  ]

  refused :
      (x y z : Error) (t : Trace)
      → EndsWellIf ((x ≡ not_found) × (opts.must_delete ≡ false)) t (
          (if is_not_found x && opts.must_delete
              then fail y
              else if is_not_found x && not opts.must_delete
              then pure tt
              else fail z)
            e t)
  refused x y z t = elim (Bool-cases (is_not_found x)) [
    | inl q ↦ elim (Bool-cases opts.must_delete) [
      | inl m ↦
          rw (q, m)
            (refl, ((λ h. absurd (failed y e t h)), λ (p, m'). absurd (false≢true (sym m'))))
      | inr m ↦ rw (q, m) (refl, ((λ h. (not_found_is x q, refl)), λ h. refl))
    ]
    | inr q ↦ rw q (
      refl,
      ((λ h. absurd (failed z e t h)), λ (p, m). absurd (false≢true (sym q ∙ ap is_not_found p))),
    )
  ]

  waited :
      (x : Error) (t : Trace) (b : Bool)
      → opts.wait_options.wait ≡ b
      → ((u : Trace) → (verify e u).0 ≢ panic)
      → Deletes (ok tt) t (
          (if not b
              then pure tt
              else (verify_gone verify (suc (retries opts defaults)) >>= finish x))
            e t)
  waited x t false q h = inl (q, refl)
  waited x t true q h =
      let verified = verify_gone-IsVerified verify e (suc (retries opts defaults)) t h in
      let (seen, v, p) = seen_of verify e (suc (retries opts defaults)) t _ verified in
      inr (
        q,
        (
          seen,
          v,
          subst (λ r. IsVerified verify e (suc (retries opts defaults)) t r) p verified,
          subst
              (λ r.
                EndsWellIf ((seen ≡ true) ⊎ (opts.wait_options.error_on_timeout ≡ false)) v
                  (continue (finish x) e r))
              (sym p) (finished x seen v),
        ),
      )

  deletes :
      (r : Result (Unit {0})) (t : Trace) (x : Error) (y z : Error → Error)
      → r ≢ panic
      → ((u : Trace) → (verify e u).0 ≢ panic)
      → Deletes r t (
          continue
            (λ (o : Outcome (Unit {0})). elim o [
              | error w ↦
                  if is_not_found w && opts.must_delete
                  then fail (y w)
                  else if is_not_found w && not opts.must_delete
                  then pure tt
                  else fail (z w)
              | value u ↦
                  if not opts.wait_options.wait
                  then pure tt
                  else (verify_gone verify (suc (retries opts defaults)) >>= finish x)
            ])
            e
            (attempted (r, t)))
  deletes (ok u) t x y z safe h = waited x t opts.wait_options.wait refl h
  deletes (err w) t x y z safe h = refused w (y w) (z w) t
  deletes panic t x y z safe h = absurd (safe refl)

  -- `DeleteResource` makes the deletion once, and first. If it is refused, nothing follows, and the
  -- call ends well just where there is no such object and none is required. If it is accepted,
  -- nothing follows where no wait is asked for. With a wait, the object is looked at up to the first
  -- look that is told that it is gone, or, where none is told so, as many times as there are retries
  -- and once more. The call then ends well just where one was told so, or no error is asked for at a
  -- timeout. The number of retries is below the largest uint, and neither the deletion nor a look
  -- panics.
  pub delete_resource-Deletes :
      (t : Trace)
      → retries opts defaults < 2 ^ 64 - 1
      → (delete e t).0 ≢ panic
      → ((u : Trace) → (verify e u).0 ≢ panic)
      → Deletes
          (delete e t).0
          (delete e t).1
          (delete_resource delete verify resource opts defaults e t)
  unfolding delete_resource
  delete_resource-Deletes t bound safe h = deletes (delete e t).0 (delete e t).1 _ _ _ safe h

-- ===== src/Util/Waiting.antt =====
-- The loops of pkg/operator/k8sutil that wait for an object to go away.
use topolvm_operator.Base.{ℕ, zero, suc, arith, Bool, true, false, not, if◌then◌else◌}
use topolvm_operator.Base.Text.{Text}
use topolvm_operator.Kube
use topolvm_operator.Kube.{deployment}
use topolvm_operator.Env.{
  Error, M, pure, ◌>>◌, Outcome, value, error, attempt, api_write, delete_object,
}
use topolvm_operator.Env.Costs.{
  Costs, Costs-choice, Costs-pure, Costs-fail, Costs-if, Costs-bind, Costs-attempt, Costs-request,
  Costs-write,
}
use topolvm_operator.Client.{is_not_found, get_deployment, get_job}
use topolvm_operator.Util.Delete.{
  WaitOptions, DeleteOptions, Verdict, gone, there, unknown, verdict, verify_gone, wait_gone,
  retry_count_or_default, delete_resource, delete_resource_and_wait, delete_deployment,
}
use topolvm_operator.Util.Jobs.{wait_deleted, delete_batch_job}

module _ (verify : M (Unit {0})) (cost : Costs 1 verify) where
  after_look :
      {A : Type 0} (n : ℕ) (v : Verdict) (found : M A) (again : M A) (other : Error → M A)
      → Costs n found
      → Costs n again
      → ((x : Error) → Costs n (other x))
      → Costs n (elim v [ gone ↦ found | there ↦ again | unknown x ↦ other x ])
  after_look n gone found again other hf ha ho = hf
  after_look n there found again other hf ha ho = ha
  after_look n (unknown x) found again other hf ha ho = ho x

  wait_gone-Costs : (name : Text) (n : ℕ) → Costs n (wait_gone verify name n)
  unfolding wait_gone
  wait_gone-Costs name zero = Costs-fail zero _
  wait_gone-Costs name (suc n) =
      Costs-bind 1 n (suc n) (attempt verify) _ (omega arith) (Costs-attempt 1 verify cost) (λ r.
        after_look n (verdict r) (pure tt) (wait_gone verify name n) _ (Costs-pure n tt)
          (wait_gone-Costs name n) (λ x. Costs-fail n _))

  verify_gone-Costs : (n : ℕ) → Costs n (verify_gone verify n)
  unfolding verify_gone
  verify_gone-Costs zero = Costs-pure zero false
  verify_gone-Costs (suc n) =
      Costs-bind 1 n (suc n) (attempt verify) _ (omega arith) (Costs-attempt 1 verify cost) (λ r.
        after_look n (verdict r) (pure true) (verify_gone verify n) (λ x. verify_gone verify n)
          (Costs-pure n true) (verify_gone-Costs n) (λ x. verify_gone-Costs n))

look_at_deployment : (name : Text) → Costs 1 (get_deployment name >> pure tt)
look_at_deployment name =
    Costs-bind 1 0 1 (get_deployment name) (λ d. pure tt) (omega arith)
      (Costs-request 1 _ (λ a. a.found_deployment name) (omega arith)) (λ d. Costs-pure 0 tt)

after_delete :
    (n : ℕ) (r : Outcome (Unit {0})) (failed : Error → M (Unit {0})) (wait : M (Unit {0}))
    → ((x : Error) → Costs n (failed x))
    → Costs n wait
    → Costs n (elim r [ error x ↦ failed x | value u ↦ wait ])
after_delete n (value u) failed wait hf hw = hw
after_delete n (error x) failed wait hf hw = hf x

-- To delete a deployment takes at most 46 calls of the API: the deletion, and 45 looks.
pub delete_deployment-Costs : (name : Text) → Costs 46 (delete_deployment name)
unfolding api_write delete_deployment delete_resource_and_wait
delete_deployment-Costs name =
    Costs-bind 1 45 46 (attempt (api_write (delete_object deployment name))) _ (omega arith)
      (Costs-attempt 1 _ (Costs-write 1 _ (omega arith)))
      (λ r.
        after_delete 45 r _ _
          (λ x. Costs-if 45 (is_not_found x) (pure tt) _ (Costs-pure 45 tt) (Costs-fail 45 _))
          (wait_gone-Costs _ (look_at_deployment name) name 45))

deleted_look :
    (n : ℕ) (r : Outcome Kube.Job) (wait : M (Unit {0}))
    → Costs n wait
    → Costs n (elim r [
      | value j ↦ wait
      | error x ↦ elim (is_not_found x) [ true ↦ pure tt | false ↦ wait ]
    ])
deleted_look n (value j) wait h = h
deleted_look n (error x) wait h = Costs-choice n (is_not_found x) (pure tt) wait (Costs-pure n tt) h

wait_deleted-Costs : (name : Text) (n : ℕ) → Costs n (wait_deleted name n)
unfolding wait_deleted
wait_deleted-Costs name zero = Costs-pure 0 tt
wait_deleted-Costs name (suc n) =
    Costs-bind 1 n (suc n) (attempt (get_job name)) _ (omega arith)
      (Costs-attempt 1 _ (Costs-request 1 _ (λ a. a.found_job name) (omega arith)))
      (λ r. deleted_look n r (wait_deleted name n) (wait_deleted-Costs name n))

deleted : (b : Bool) (n : ℕ) (m : M (Unit {0})) → Costs n m → Costs n (if b then m else pure tt)
deleted true n m h = h
deleted false n m h = Costs-pure n tt

-- To delete a job takes at most 21 calls of the API: the deletion, and 20 looks.
pub delete_batch_job-Costs : (name : Text) (wait : Bool) → Costs 21 (delete_batch_job name wait)
unfolding wait_deleted api_write delete_batch_job
delete_batch_job-Costs name wait =
    Costs-bind 1 20 21 (attempt (api_write (delete_object Kube.job name))) _ (omega arith)
      (Costs-attempt 1 _ (Costs-write 1 _ (omega arith)))
      (λ r.
        after_delete 20 r _ _
          (λ x. Costs-if 20 (is_not_found x) (pure tt) _ (Costs-pure 20 tt) (Costs-fail 20 _))
          (deleted wait 20 (wait_deleted name 20) (wait_deleted-Costs name 20)))

-- The tries of a deletion with options: the retries that are asked for, else those of the defaults,
-- else 30; and one more than that.
abbrev pub tries : DeleteOptions → WaitOptions → ℕ
tries opts defaults =
    suc (retry_count_or_default opts.wait_options (retry_count_or_default defaults 30))

-- `DeleteResource` takes at most as many calls as there are retries, and two more, where the deletion
-- and a look are one call each.
delete_resource-Costs :
    (delete verify : M (Unit {0})) (resource : Text) (opts : DeleteOptions) (defaults : WaitOptions)
    → Costs 1 delete
    → Costs 1 verify
    → Costs (suc (tries opts defaults)) (delete_resource delete verify resource opts defaults)
unfolding delete_resource
delete_resource-Costs delete verify resource opts defaults hd hv =
    Costs-bind 1 (tries opts defaults) (suc (tries opts defaults)) (attempt delete) _ (omega arith)
      (Costs-attempt 1 delete hd)
      (λ r.
        after_delete (tries opts defaults) r _ _ (λ x. search (Costs-if, Costs-pure, Costs-fail))
          (Costs-if _ (not opts.wait_options.wait) _ _ (Costs-pure _ tt) (
            Costs-bind (tries opts defaults) 0 (tries opts defaults) _ _ (omega arith)
              (verify_gone-Costs verify hv (tries opts defaults))
              (λ seen. Costs-if 0 seen (pure tt) _ (Costs-pure 0 tt) (
                Costs-if 0 opts.wait_options.error_on_timeout _ (pure tt) (Costs-fail 0 _)
                  (Costs-pure 0 tt))))))

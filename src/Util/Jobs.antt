-- ===== src/Util/Jobs.antt =====
-- pkg/operator/k8sutil/job.go. `poll` stands for `wait.Poll` of Kubernetes, with its interval and its
-- timeout of an hour.
use topolvm_operator.Base.{ℕ, zero, suc, Bool, true, false, not, ◌&&◌, ltb, if◌then◌else◌, ◌++◌}
use topolvm_operator.Base.Text.{Text, codes}
use topolvm_operator.Kube
use topolvm_operator.Kube.{Job}
use topolvm_operator.Env.{
  M, pure, fail, ◌>>=◌, value, error, attempt, new, message, api_write, delete_object, create_job,
}
use topolvm_operator.Client.{is_not_found, get_job}

-- The function that is polled: whether the job is done, and an error where it failed.
unfoldable pub job_done : Text → M Bool
job_done name = do
  r ← attempt (get_job name)
  elim r [
    | error x ↦ fail (new (codes "failed to detect job " ++ name ++ codes ". " ++ message x))
    | value j ↦
        if ltb 0 j.active
        then pure false
        else if ltb 0 j.failed
        then fail (new (codes "job " ++ name ++ codes " failed"))
        else if ltb 0 j.succeeded
        then pure true
        else pure false
  ]

unfoldable pub wait_deleted : Text → ℕ → M (Unit {0})
wait_deleted name zero = pure tt
wait_deleted name (suc n) = do
  r ← attempt (get_job name)
  elim r [
    | value j ↦ wait_deleted name n
    | error x ↦ elim (is_not_found x) [ true ↦ pure tt | false ↦ wait_deleted name n ]
  ]

-- `DeleteBatchJob`
unfoldable pub delete_batch_job : Text → Bool → M (Unit {0})
delete_batch_job name wait = do
  r ← attempt (api_write (delete_object Kube.job name))
  elim r [
    | error x ↦
        if is_not_found x
        then pure tt
        else fail (
            new (
              codes "failed to remove previous provisioning job for node "
              ++ name
              ++ codes ". "
              ++ message x))
    | value u ↦ if wait then wait_deleted name 20 else pure tt
  ]

module _ (poll : M Bool → M (Unit {0})) where
  -- `WaitForJobCompletion`
  unfoldable pub wait_for_job_completion : Text → M (Unit {0})
  wait_for_job_completion name = poll (job_done name)

  unfoldable pub replace_job : Job → Bool → Job → M (Unit {0})
  replace_job job delete_if_found existing =
      if ltb 0 existing.active && not delete_if_found then pure tt else do
        w ← attempt (wait_for_job_completion existing.name)
        d ← attempt (delete_batch_job existing.name true)
        api_write (create_job job)

  -- `RunReplaceableJob`
  unfoldable pub run_replaceable_job : Job → Bool → M (Unit {0})
  unfolding replace_job
  run_replaceable_job job delete_if_found = do
    r ← attempt (get_job job.name)
    elim r [
      | value existing ↦ replace_job job delete_if_found existing
      | error x ↦ api_write (create_job job)
    ]

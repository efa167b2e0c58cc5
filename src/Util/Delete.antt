-- ===== src/Util/Delete.antt =====
-- pkg/operator/k8sutil/delete.go, options.go, and `deleteResourceAndWait` of deployment.go: an object
-- is deleted, and then looked for until it is gone or the tries are used up.
use topolvm_operator.Base.{ℕ, zero, suc, Bool, true, false, ◌&&◌, not, ltb, if◌then◌else◌, ◌++◌}
use topolvm_operator.Base.Text.{Text, codes}
use topolvm_operator.Kube.{deployment}
use topolvm_operator.Env.{
  M, pure, fail, ◌>>=◌, ◌>>◌, Outcome, value, error, attempt, Error, new, message, api_write,
  delete_object,
}
use topolvm_operator.Client.{is_not_found, get_deployment}

-- `WaitOptions`; the interval of the retries is left out, as time is.
pub record WaitOptions : Type 0 where
  pub wait : Bool
  pub retry_count : ℕ
  pub error_on_timeout : Bool

pub record DeleteOptions : Type 0 where
  pub must_delete : Bool
  pub wait_options : WaitOptions

unfoldable pub retry_count_or_default : WaitOptions → ℕ → ℕ
retry_count_or_default w def = if ltb 0 w.retry_count then w.retry_count else def

-- The outcome of looking for an object that should be gone.
pub data Verdict : Type 0 where
  gone : Verdict
  there : Verdict
  unknown : Error → Verdict

abbrev pub verdict : Outcome (Unit {0}) → Verdict
verdict (value u) = there
verdict (error x) = if is_not_found x then gone else unknown x

module _ (verify : M (Unit {0})) where
  -- The loop of `DeleteResource`, where an error other than `not_found` is looked at again too. It
  -- gives whether the object was seen to be gone.
  unfoldable pub verify_gone : ℕ → M Bool
  verify_gone zero = pure false
  verify_gone (suc n) = do
    r ← attempt verify
    elim (verdict r) [ gone ↦ pure true | there ↦ verify_gone n | unknown x ↦ verify_gone n ]

  -- The loop of `deleteResourceAndWait`, where another error ends it.
  unfoldable pub wait_gone : Text → ℕ → M (Unit {0})
  wait_gone name zero =
      fail (new (codes "gave up waiting for " ++ name ++ codes " pods to be terminated"))
  wait_gone name (suc n) = do
    r ← attempt verify
    elim (verdict r) [
      | gone ↦ pure tt
      | there ↦ wait_gone name n
      | unknown x ↦ fail (new (codes "failed to get " ++ name ++ codes ". " ++ message x))
    ]

unfoldable pub delete_failed : Text → Error → Error
delete_failed resource x = new (codes "failed to delete " ++ resource ++ codes ". " ++ message x)

-- `DeleteResource`: the number of tries is one more than that of the retries.
unfoldable pub delete_resource :
    M (Unit {0}) → M (Unit {0}) → Text → DeleteOptions → WaitOptions → M (Unit {0})
unfolding delete_failed
delete_resource delete verify resource opts defaults = do
  r ← attempt delete
  elim r [
    | error x ↦
        if is_not_found x && opts.must_delete
        then fail (
            new
              (codes "failed to delete " ++ resource ++ codes "; it does not exist. " ++ message x))
        else if is_not_found x && not opts.must_delete
        then pure tt
        else fail (delete_failed resource x)
    | value u ↦ if not opts.wait_options.wait then pure tt else do
      let retries = retry_count_or_default opts.wait_options (retry_count_or_default defaults 30)
      seen ← verify_gone verify (suc retries)
      if seen
          then pure tt
          else if opts.wait_options.error_on_timeout
          then fail (new (codes "failed to delete " ++ resource))
          else pure tt
  ]

-- `deleteResourceAndWait`, with its 45 tries.
unfoldable pub delete_resource_and_wait : Text → M (Unit {0}) → M (Unit {0}) → M (Unit {0})
unfolding delete_failed
delete_resource_and_wait name delete get = do
  r ← attempt delete
  elim r [
    | error x ↦ if is_not_found x then pure tt else fail (delete_failed name x)
    | value u ↦ wait_gone get name 45
  ]

-- `DeleteDeployment`
unfoldable pub delete_deployment : Text → M (Unit {0})
delete_deployment name =
    delete_resource_and_wait name (api_write (delete_object deployment name))
      (get_deployment name >> pure tt)

-- ===== src/Util/Replace.antt =====
-- What `RunReplaceableJob` of pkg/operator/k8sutil/job.go does before it makes a job.
use topolvm_operator.Base.{
  ℕ, suc, ◌<◌, ◌≤◌, ◌≡◌, ◌≢◌, ◌⊎◌, Bool, true, false, [], ◌∷◌, ◌++◌, none, if◌then◌else◌,
}
use topolvm_operator.Base.Text.{Text, codes}
use topolvm_operator.Kube
use topolvm_operator.Kube.{Job}
use topolvm_operator.Env.{
  Env, Trace, Action, Result, ok, err, panic, Error, new, message, not_found, done, M, pure, fail,
  Outcome, value, error, api_write, create_job, delete_object, get_object,
}
use topolvm_operator.Client.{is_not_found}
use topolvm_operator.Util.Looks.{after_looks}
use topolvm_operator.Util.Jobs.{job_done, wait_deleted, replace_job}

-- A computation that does not panic in an environment.
abbrev pub IsSafeIn : {A : Type 0} → Env → M A → Type 0
IsSafeIn e m = (t : Trace) → (m e t).0 ≢ panic

-- The API server answers without a panic of the client.
abbrev pub JobsAnswer : Env → Type 0
JobsAnswer e = (u : Trace) (name : Text) → (e.kube u).found_job name ≢ panic

module _ (name : Text) (e : Env) where
  abbrev look : Action
  look = get_object Kube.job name

  abbrev deletion : Action
  deletion = delete_object Kube.job name

  abbrev found : Trace → Result Job
  found t = (e.kube t).found_job name

  -- After at most so many looks at the job, all of them were made, or the last one found no job.
  abbrev pub Looked : ℕ → Trace → Trace → Type 0
  Looked n t u =
      (k : ℕ) × (k ≤ n)
      × (u ≡ after_looks look k t)
      × ((k ≡ n) ⊎ ((j : ℕ) × (k ≡ suc j) × (found (after_looks look j t) ≡ err not_found)))

  -- The job is deleted, and then looked at, unless its deletion fails.
  abbrev pub Deleted : Trace → Trace → Type 0
  Deleted t u =
      ((e.write_error t ≢ none) × (u ≡ t ++ deletion ∷ []))
      ⊎ ((e.write_error t ≡ none) × Looked 20 (t ++ deletion ∷ []) u)

  -- What a part leaves, and that it does not panic.
  abbrev Leaves : (Trace → Type 0) → Result (Unit {0}) × Trace → Type 0
  Leaves P r = (r.0 ≢ panic) × P r.1

  abbrev after_look : ℕ → Outcome Job → M (Unit {0})
  after_look n (value j) = wait_deleted name n
  after_look n (error x) = elim (is_not_found x) [ true ↦ pure tt | false ↦ wait_deleted name n ]

  abbrev delete_failed : Error → Error
  delete_failed x = new (
      codes "failed to remove previous provisioning job for node "
      ++ name
      ++ codes ". "
      ++ message x)

  abbrev after_deletion : Outcome (Unit {0}) → M (Unit {0})
  after_deletion (value u) = wait_deleted name 20
  after_deletion (error x) = if is_not_found x then pure tt else fail (delete_failed x)

-- The last action is the creation of the job, and its result is the result.
abbrev pub Creates : Job → Env → Trace → Result (Unit {0}) × Trace → Type 0
Creates job e t r = r ≡ (done (e.write_error t), t ++ create_job job ∷ [])

module _ (poll : M Bool → M (Unit {0})) (job : Job) (delete_if_found : Bool) (e : Env) where
  -- The end of the old job is waited for, it is deleted, and the new one is created.
  abbrev pub Replaced : Job → Trace → Result (Unit {0}) × Trace → Type 0
  Replaced old t r =
      (u : Trace) × Deleted old.name e (poll (job_done old.name) e t).1 u × Creates job e u r

  -- What follows the look for the job, by what it found.
  abbrev pub Replaces : Result Job → Trace → Result (Unit {0}) × Trace → Type 0
  Replaces (ok old) t r =
      ((0 < old.active) × (delete_if_found ≡ false) × (r ≡ (ok tt, t)))
      ⊎ (((old.active ≡ 0) ⊎ (delete_if_found ≡ true)) × Replaced old t r)
  Replaces (err x) t r = Creates job e t r
  Replaces panic t r = ⊥

  -- What is done with what was found.
  abbrev go_on : Outcome Job → M (Unit {0})
  go_on (value old) = replace_job poll job delete_if_found old
  go_on (error x) = api_write (create_job job)

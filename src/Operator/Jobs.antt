-- ===== src/Operator/Jobs.antt =====
-- `MakeAndRunJob` and `runJob` of pkg/operator/volumegroup/vgmanager.go.
use topolvm_operator.Base.{false, ◌++◌}
use topolvm_operator.Base.Text.{Text, codes}
use topolvm_operator.Cluster.{Globals}
use topolvm_operator.Kube.{Owner, Job}
use topolvm_operator.Env.{M, pure, fail, ◌>>=◌, value, error, attempt, new}
use topolvm_operator.Util.Jobs.{run_replaceable_job}
use topolvm_operator.Manifests.Job.{make_job}
use topolvm_operator.Operator.{Setup}

-- `runJob`
pub run_job : Setup → Job → M (Unit {0})
run_job s job = run_replaceable_job s.poll job false

-- `MakeAndRunJob`
pub make_and_run_job : Setup → Globals → Text → Owner → M (Unit {0})
make_and_run_job s g node ref = do
  job ← make_job g node s.operator_image ref
  r ← attempt (run_job s job)
  elim r [
    | value u ↦ pure tt
    | error x ↦ fail (new (codes "run job for node:" ++ node ++ codes " failed"))
  ]

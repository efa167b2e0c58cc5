-- ===== src/Operator.antt =====
-- The operator: pkg/operator/node/node.go, pkg/operator/csidriver/csidriver.go, pkg/operator/psp/psp.go,
-- pkg/operator/controller/finalizer.go and the controllers of controllers. `Setup` holds what the
-- operator is started with and the libraries that it calls.
pub mod Finalizers
pub mod Node
pub mod Volumes
pub mod Jobs
pub mod Daemon
pub mod Cluster
pub mod Status
pub mod Reconcile
pub mod Lvmd
pub mod Settings
mod Tests
use topolvm_operator.Base.{Bool}
use topolvm_operator.Base.Text.{Text}
use topolvm_operator.Kube.{Deployment}
use topolvm_operator.Env.{M}

-- `poll` is `wait.Poll`, and `differs` says whether the patch between two deployments that
-- `k8s-objectmatcher` computes is not empty.
pub record Setup : Type 0 where
  pub operator_image : Text
  pub poll : M Bool → M (Unit {0})
  pub differs : Deployment → Deployment → Bool

-- ===== src/Operator/Volumes.antt =====
-- The CSI driver and the security policies: pkg/operator/csidriver/csidriver.go,
-- pkg/operator/psp/psp.go, and `checkAndCreatePsp` and `cleanCluster` of
-- controllers/topolvmcluster_controller.go. The specifications of these objects are constants, and an
-- object is its kind and its name here.
use topolvm_operator.Base.{Bool, true, false, if◌then◌else◌, ◌++◌}
use topolvm_operator.Base.Text.{Text, codes}
use topolvm_operator.Cluster.{topolvm_csi_driver_name, topolvm_node_psp, topolvm_prepare_vg_psp}
use topolvm_operator.Kube.{csi_driver, pod_security_policy}
use topolvm_operator.Env.{
  M, pure, fail, ◌>>=◌, ◌>>◌, wrap, value, error, attempt, api_write, create_named, delete_object,
}
use topolvm_operator.Client.{is_not_found, get_named}

-- `CheckTopolvmCsiDriverExisting`
pub check_topolvm_csi_driver_existing : M (Unit {0})
check_topolvm_csi_driver_existing = do
  r ← attempt (get_named csi_driver topolvm_csi_driver_name)
  elim r [
    | value u ↦ pure tt
    | error x ↦
        if is_not_found x
        then api_write (create_named csi_driver topolvm_csi_driver_name)
        else wrap (codes "failed to detect CsiDriver " ++ topolvm_csi_driver_name) (fail x)
  ]

-- `DeleteTopolvmCsiDriver`
unfoldable pub delete_topolvm_csi_driver : M (Unit {0})
delete_topolvm_csi_driver = api_write (delete_object csi_driver topolvm_csi_driver_name)

-- `CheckPspExisting`
pub check_psp_existing : Text → M Bool
check_psp_existing name = do
  r ← attempt (get_named pod_security_policy name)
  elim r [
    | value u ↦ pure true
    | error x ↦
        if is_not_found x
        then pure false
        else wrap (codes "failed to detect PodSecurityPolicies " ++ name) (fail x)
  ]

-- `CreateTopolvmNodePsp` and `CreateTopolvmPrepareVgPsp`
pub create_psp : Text → M (Unit {0})
create_psp name = api_write (create_named pod_security_policy name)

check_or_create : Text → M (Unit {0})
check_or_create name = do
  existing ← wrap (codes "check psp " ++ name ++ codes " failed") (check_psp_existing name)
  if existing
      then pure tt
      else wrap (codes "create psp " ++ name ++ codes " failed") (create_psp name)

-- `checkAndCreatePsp`
pub check_and_create_psp : M (Unit {0})
unfolding check_or_create
check_and_create_psp = do check_or_create topolvm_node_psp; check_or_create topolvm_prepare_vg_psp

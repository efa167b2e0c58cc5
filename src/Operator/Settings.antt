-- ===== src/Operator/Settings.antt =====
-- controllers/operatorconfig_controller.go: the settings of the operator.
use topolvm_operator.Base.{false, Option, none, some, if◌then◌else◌}
use topolvm_operator.Base.Text.{Text, codes, same}
use topolvm_operator.Base.Maps.{Map}
use topolvm_operator.Cluster.{
  Globals, kubelet_root_path_env, discover_devices_env, discover_app_name,
}
use topolvm_operator.Env.{
  M, Error, pure, fail, ◌>>=◌, ◌>>◌, wrap, value, error, attempt, api_get_config_map,
}
use topolvm_operator.Client.{is_not_found}
use topolvm_operator.Util.Select.{get_value}
use topolvm_operator.Operator.{Setup}
use topolvm_operator.Operator.Node.{update_node_deployment_csi_kubelet_root_path}
use topolvm_operator.Operator.Daemon.{make_discover_devices_daemon_set}

-- `updateCsiDriver`
pub update_csi_driver : Setup → Globals → Map Text → M (Unit {0})
update_csi_driver s g parameters = do
  root ← get_value parameters kubelet_root_path_env g.csi_kubelet_root_dir
  if same root g.csi_kubelet_root_dir
      then pure tt
      else update_node_deployment_csi_kubelet_root_path s root

-- `starDiscoverDaemonset`
pub start_discover_daemon_set : Setup → Globals → Map Text → M (Unit {0})
start_discover_daemon_set s g parameters = do
  enabled ← get_value parameters discover_devices_env g.enable_discover_devices
  if same enabled (codes "true")
      then make_discover_devices_daemon_set discover_app_name s.operator_image false
      else pure tt

-- The parameters that are used: those of the ConfigMap, or the old ones where there is none.
read_parameters : Map Text → Text → M (Map Text)
read_parameters parameters name = do
  r ← attempt (api_get_config_map name)
  elim r [
    | value cm ↦ pure cm.data_map
    | error x ↦
        if is_not_found x
        then pure parameters
        else wrap (codes "failed to get operator's configmap") (fail x)
  ]

-- `reconcile`: the parameters that are kept for the next call, and the error.
pub reconcile_config : Setup → Globals → Map Text → Text → M (Map Text × Option Error)
unfolding read_parameters
reconcile_config s g parameters name = do
  r ← attempt (read_parameters parameters name)
  elim r [
    | error x ↦ pure (parameters, some x)
    | value ps ↦ (do
      a ← attempt (update_csi_driver s g ps >> start_discover_daemon_set s g ps)
      elim a [ value u ↦ pure (ps, none) | error x ↦ pure (ps, some x) ])
  ]

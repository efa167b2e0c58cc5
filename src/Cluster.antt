-- ===== src/Cluster.antt =====
-- pkg/cluster: the configuration of lvmd (type.go) and the constants (common.go).
use topolvm_operator.Base.{ℕ, Bool, List}
use topolvm_operator.Base.Text.{Text, codes}

-- The variables of the package, which the operator sets at its start and from the custom resource.
pub record Globals : Type 0 where
  pub namespace : Text
  pub cluster_name : Text
  pub topolvm_image : Text
  pub certs_secret : Text
  pub csi_kubelet_root_dir : Text
  pub is_operator_hub : Bool
  pub enable_discover_devices : Text

pub record DeviceClass : Type 0 where
  pub name : Text
  pub volume_group : Text
  pub spare_gb : ℕ
  pub default : Bool
  pub stripe : ℕ
  pub stripe_size : Text

pub record LmvdConf : Type 0 where
  pub socket_name : Text
  pub device_classes : List DeviceClass

abbrev pub lvmd_config_map_prefix : Text
lvmd_config_map_prefix = codes "lvmdconfig-"

abbrev pub lvmd_config_map_label_key : Text
lvmd_config_map_label_key = codes "topolvm/lvmdconfig"

abbrev pub lvmd_config_map_label_value : Text
lvmd_config_map_label_value = codes "lvmdconfig"

abbrev pub lvmd_config_map_key : Text
lvmd_config_map_key = codes "lvmd.yaml"

abbrev pub local_disk_cm_data : Text
local_disk_cm_data = codes "devices"

abbrev pub vg_status_config_map_key : Text
vg_status_config_map_key = codes "status.json"

abbrev pub lvmd_annotations_node_key : Text
lvmd_annotations_node_key = codes "node-name"

abbrev pub lvmd_socket_path : Text
lvmd_socket_path = codes "/run/topolvm/lvmd.sock"

abbrev pub loop_create_successful : Text
loop_create_successful = codes "successful"

abbrev pub app_attr : Text
app_attr = codes "app.kubernetes.io/name"

abbrev pub topolvm_compose_attr : Text
topolvm_compose_attr = codes "app.kubernetes.io/compose"

abbrev pub topolvm_compose_node : Text
topolvm_compose_node = codes "node"

abbrev pub cluster_attr : Text
cluster_attr = codes "topolvm_cluster"

abbrev pub node_name_env : Text
node_name_env = codes "NODE_NAME"

abbrev pub cluster_name_env : Text
cluster_name_env = codes "CLUSTER_NAME"

abbrev pub name_space_env : Text
name_space_env = codes "NAMESPACE"

abbrev pub pod_name_space_env : Text
pod_name_space_env = codes "POD_NAMESPACE"

abbrev pub pod_name_env : Text
pod_name_env = codes "POD_NAME"

abbrev pub log_level_env : Text
log_level_env = codes "TOPOLVM_LOG_LEVEL"

abbrev pub use_loop_env : Text
use_loop_env = codes "USE_LOOP"

abbrev pub topolvm_node_deployment_prefix : Text
topolvm_node_deployment_prefix = codes "topolvm-node-"

abbrev pub node_service_account : Text
node_service_account = codes "topolvm-node"

abbrev pub topolvm_node_deployment_label_name : Text
topolvm_node_deployment_label_name = codes "topolvm-node"

abbrev pub lvmd_config_map_name_prefix : Text
lvmd_config_map_name_prefix = codes "lvmdconfig"

abbrev pub controller_service_account : Text
controller_service_account = codes "topolvm-controller"

abbrev pub lvmd_container_name : Text
lvmd_container_name = codes "lvmd"

abbrev pub node_container_name : Text
node_container_name = codes "topolvm-node"

abbrev pub csi_registrar_container_name : Text
csi_registrar_container_name = codes "csi-registrar"

abbrev pub topolvm_controller_deployment_name : Text
topolvm_controller_deployment_name = codes "topolvm-controller"

abbrev pub topolvm_controller_container_name : Text
topolvm_controller_container_name = codes "topolvm-controller"

abbrev pub topolvm_csi_resizer_container_name : Text
topolvm_csi_resizer_container_name = codes "csi-resizer"

abbrev pub topolvm_csi_provisioner_container_name : Text
topolvm_csi_provisioner_container_name = codes "csi-provisioner"

abbrev pub topolvm_csi_liveness_probe_container_name : Text
topolvm_csi_liveness_probe_container_name = codes "liveness-probe"

abbrev pub prepare_vg_service_account : Text
prepare_vg_service_account = codes "topolvm-preparevg"

abbrev pub prepare_vg_app_name : Text
prepare_vg_app_name = codes "prepare-volume-group"

abbrev pub prepare_vg_job_prefix : Text
prepare_vg_job_prefix = codes "topolvm-prepare-vg-"

abbrev pub prepare_vg_container_name : Text
prepare_vg_container_name = codes "preparevg"

abbrev pub prepare_vg_job_log_level : Text
prepare_vg_job_log_level = codes "DEBUG"

abbrev pub topolvm_node_psp : Text
topolvm_node_psp = codes "topolvm-node"

abbrev pub topolvm_prepare_vg_psp : Text
topolvm_prepare_vg_psp = codes "topolvm-preparevg"

abbrev pub topolvm_csi_driver_name : Text
topolvm_csi_driver_name = codes "topolvm.cybozu.com"

abbrev pub capacity_key_prefix : Text
capacity_key_prefix = codes "capacity.topolvm.cybozu.com/"

abbrev pub discover_devices_account : Text
discover_devices_account = codes "topolvm-discover"

abbrev pub discover_app_name : Text
discover_app_name = codes "topolvm-discover"

abbrev pub discover_container_name : Text
discover_container_name = codes "discover"

abbrev pub use_loop : Text
use_loop = codes "true"

abbrev pub loop_annotations_key : Text
loop_annotations_key = codes "loop"

abbrev pub loop_annotations_val : Text
loop_annotations_val = codes "true"

abbrev pub kubelet_root_path_env : Text
kubelet_root_path_env = codes "KUBELET_ROOT_DIR"

abbrev pub discover_devices_env : Text
discover_devices_env = codes "ENABLE_DISCOVER_DEVICES"

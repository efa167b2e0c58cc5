-- ===== src/Api.antt =====
-- api/v2/topolvmcluster_types.go: the custom resource of a cluster, its specification and status.
-- A Go slice that is nil and one that is empty are told apart only where the code compares a slice
-- with nil: those fields are an `Option`.
use topolvm_operator.Base.{ℕ, Bool, Option, List}
use topolvm_operator.Base.Text.{Text, codes}

pub record Disk : Type 0 where
  pub name : Text
  pub type : Text
  pub auto : Bool
  pub path : Text
  pub size : ℕ

pub record DeviceClass : Type 0 where
  pub class_name : Text
  pub vg_name : Text
  pub device : List Disk
  pub default : Bool
  pub spare_gb : ℕ
  pub stripe : ℕ
  pub stripe_size : Text

pub record NodeDevices : Type 0 where
  pub node_name : Text
  pub device_classes : List DeviceClass

pub record Storage : Type 0 where
  pub device_classes : Option (List NodeDevices)
  pub use_all_nodes : Bool
  pub use_all_devices : Bool
  pub devices : Option (List Disk)
  pub volume_group_name : Text
  pub class_name : Text
  pub use_loop : Bool

-- `Storage` is embedded in the specification.
pub record ClusterSpec : Type 0 where
  pub topolvm_version : Text
  pub certs_secret : Text
  pub storage : Storage

pub record LoopState : Type 0 where
  pub name : Text
  pub file : Text
  pub device_name : Text
  pub status : Text
  pub message : Text

pub record DeviceState : Type 0 where
  pub name : Text
  pub state : Text
  pub message : Text

pub record ClassState : Type 0 where
  pub name : Text
  pub vg_name : Text
  pub state : Text
  pub message : Text
  pub device_states : List DeviceState

pub record NodeStorageState : Type 0 where
  pub node : Text
  pub phase : Text
  pub fail_classes : List ClassState
  pub success_classes : List ClassState
  pub loops : List LoopState

pub record ClusterStatus : Type 0 where
  pub phase : Text
  pub node_storage_status : List NodeStorageState

-- With the fields of its metadata that are read: `deleted` is a deletion timestamp that is set.
pub record TopolvmCluster : Type 0 where
  pub name : Text
  pub kind : Text
  pub uid : Text
  pub finalizers : List Text
  pub created : ℕ
  pub deleted : Bool
  pub spec : ClusterSpec
  pub status : ClusterStatus

abbrev pub condition_ready : Text
condition_ready = codes "Ready"

abbrev pub condition_failure : Text
condition_failure = codes "Failure"

abbrev pub condition_unknown : Text
condition_unknown = codes "Unknown"

abbrev pub condition_pending : Text
condition_pending = codes "Pending"

abbrev pub class_ready : Text
class_ready = codes "Ready"

abbrev pub class_un_ready : Text
class_un_ready = codes "UnReady"

abbrev pub device_online : Text
device_online = codes "Online"

abbrev pub device_offline : Text
device_offline = codes "Offline"

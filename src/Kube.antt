-- ===== src/Kube.antt =====
-- The objects of Kubernetes that the operator reads and writes, with the fields that its code sets or
-- looks at.
use topolvm_operator.Base.{ℕ, Bool, Option, List}
use topolvm_operator.Base.Text.{Text}
use topolvm_operator.Base.Maps.{Map}

-- `metav1.OwnerReference`
pub record Owner : Type 0 where
  pub api_version : Text
  pub kind : Text
  pub name : Text
  pub uid : Text

-- An environment variable: its value, or the path of the field of the pod that it is taken from.
pub record EnvVar : Type 0 where
  pub name : Text
  pub value : Text
  pub field_path : Text

-- The name of a volume and the path where it is mounted.
pub record VolumeMount : Type 0 where
  pub name : Text
  pub mount_path : Text

-- Where a volume comes from.
pub data VolumeSource : Type 0 where
  host_path : Text → VolumeSource
  config_map : Text → VolumeSource
  secret : Text → VolumeSource
  empty_dir : VolumeSource

pub record Volume : Type 0 where
  pub name : Text
  pub source : VolumeSource

pub record Container : Type 0 where
  pub name : Text
  pub image : Text
  pub command : List Text
  pub env : List EnvVar
  pub mounts : List VolumeMount

-- The template of a pod, with its labels. `node` is what the selector asks of the host's name, empty for none.
pub record PodSpec : Type 0 where
  pub labels : Map Text
  pub init_containers : List Container
  pub containers : List Container
  pub volumes : List Volume
  pub service_account : Text
  pub node : Text

pub record Deployment : Type 0 where
  pub name : Text
  pub owners : List Owner
  pub labels : Map Text
  pub replicas : ℕ
  pub selector : Map Text
  pub pod : PodSpec

-- Annotations are an `Option` because the code assigns into the map, which panics where it is nil.
pub record DaemonSet : Type 0 where
  pub name : Text
  pub owners : List Owner
  pub annotations : Option (Map Text)
  pub selector : Map Text
  pub pod : PodSpec

pub record Job : Type 0 where
  pub name : Text
  pub owners : List Owner
  pub labels : Map Text
  pub pod : PodSpec
  pub indexed : Bool
  pub active : ℕ
  pub failed : ℕ
  pub succeeded : ℕ

pub record Node : Type 0 where
  pub name : Text
  pub annotations : Map Text

-- The kinds of object that are asked for by a name or listed.
pub data Kind : Type 0 where
  topolvm_cluster : Kind
  deployment : Kind
  daemon_set : Kind
  job : Kind
  node : Kind
  pod : Kind
  secret_kind : Kind
  csi_driver : Kind
  pod_security_policy : Kind

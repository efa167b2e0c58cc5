-- ===== src/Discover/Stored.antt =====
-- What `updateDeviceCM` of pkg/operator/discover/discover.go leaves in the ConfigMap of the node.
use topolvm_operator.Base.{◌≡◌, ◌≢◌, ◌⊎◌, Bool, none, some, List, [], ◌∷◌, ◌++◌, if◌then◌else◌}
use topolvm_operator.Base.Text.{Text, codes}
use topolvm_operator.Base.Maps.{lookup, get_or}
use topolvm_operator.Cluster.{local_disk_cm_data, lvmd_annotations_node_key}
use topolvm_operator.Env.{
  Env, Trace, Result, ok, ConfigMap, Error, not_found, new, message, M, pure, fail, ◌>>=◌, Outcome,
  value, error, attempt, api_get_config_map, api_write, get_config_map, create_config_map,
  patch_config_map,
}
use topolvm_operator.Sys.Device.{LocalDiskAppendInfo}
use topolvm_operator.Sys.Disks.{get_all_devices}
use topolvm_operator.Discover.Devices.{device_config_map}

-- The ConfigMap `cm` with the text for the devices, and with all else that it had.
pub record HasText (text : Text) (cm cm' : ConfigMap) : Type 0 where
  pub devices : lookup local_disk_cm_data cm'.data_map ≡ some text
  pub others :
      (key : Text) → key ≢ local_disk_cm_data → lookup key cm'.data_map ≡ lookup key cm.data_map
  pub same_name : cm'.name ≡ cm.name
  pub same_namespace : cm'.namespace ≡ cm.namespace
  pub same_labels : cm'.labels ≡ cm.labels
  pub same_annotations : cm'.annotations ≡ cm.annotations

-- A new ConfigMap with the text for the devices of the node, and nothing else in it.
pub record IsNew (name namespace node text : Text) (cm : ConfigMap) : Type 0 where
  pub its_name : cm.name ≡ name
  pub its_namespace : cm.namespace ≡ namespace
  pub its_node : lookup lvmd_annotations_node_key cm.annotations ≡ some node
  pub devices : lookup local_disk_cm_data cm.data_map ≡ some text
  pub others : (key : Text) → key ≢ local_disk_cm_data → lookup key cm.data_map ≡ none

-- Between two traces, by what the look for the ConfigMap gave: the one that was found has the text
-- and nothing is done, or it has another text and is patched; or there was none and one is created.
abbrev pub Stores : Text → Text → Text → Outcome ConfigMap → Text → Trace → Trace → Type 0
Stores name namespace node (value cm) text t u =
    ((get_or [] local_disk_cm_data cm.data_map ≡ text) × (u ≡ t))
    ⊎ ((get_or [] local_disk_cm_data cm.data_map ≢ text)
        × ((cm' : ConfigMap) × HasText text cm cm' × (u ≡ t ++ patch_config_map cm.name cm' ∷ [])))
Stores name namespace node (error x) text t u =
    (x ≡ not_found)
    × ((cm : ConfigMap) × IsNew name namespace node text cm × (u ≡ t ++ create_config_map cm ∷ []))

module _ (name namespace node text : Text) (e : Env) (t : Trace) where
  -- What follows the creation of the ConfigMap: no further action.
  abbrev after_creation : Outcome (Unit {0}) → M (Unit {0})
  after_creation (value u) = pure tt
  after_creation (error y) =
      fail (new (codes "failed to create local device map " ++ name ++ codes ": " ++ message y))

  -- An error of the API that is not about a missing ConfigMap is returned.
  abbrev missing : Bool → Error → M (Unit {0})
  missing b x =
      if b
      then attempt (api_write (create_config_map (device_config_map name namespace node text)))
        >>= after_creation
      else fail x

-- The devices that were listed after one trace are what the ConfigMap was left with in the other.
abbrev pub IsStored :
    (List LocalDiskAppendInfo → Result Text) → Text → Text → Text → Env → Trace → Trace → Type 0
IsStored marshal name namespace node e t u =
    (devices : List LocalDiskAppendInfo) × (text : Text) × (o : Outcome ConfigMap)
    × ((get_all_devices e t).0 ≡ ok devices)
    × (marshal devices ≡ ok text)
    × ((attempt (api_get_config_map name) e (get_all_devices e t).1).0 ≡ ok o)
    × Stores name namespace node o text ((get_all_devices e t).1 ++ get_config_map name ∷ []) u

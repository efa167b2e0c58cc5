-- ===== src/Discover/Devices.antt =====
-- pkg/operator/discover/discover.go: `updateDeviceCM`, which writes the devices of the node into its
-- ConfigMap, and the loop devices that are set up again after a restart. `marshal` is `json.Marshal`
-- on a list of devices.
use topolvm_operator.Base.{
  ℕ, zero, suc, Bool, true, false, none, some, List, [], ◌∷◌, ◌++◌, if◌then◌else◌,
}
use topolvm_operator.Base.Text.{Text, codes, same}
use topolvm_operator.Base.Maps.{lookup, insert, get_or}
use topolvm_operator.Api.{LoopState}
use topolvm_operator.Cluster.{
  local_disk_cm_data, vg_status_config_map_key, lvmd_annotations_node_key,
  lvmd_config_map_label_key, lvmd_config_map_label_value, loop_create_successful,
}
use topolvm_operator.Env.{
  M, Result, ConfigMap, pure, fail, lift, asks_result, ◌>>=◌, Outcome, value, error, attempt, new,
  message, api_get_config_map, api_write, create_config_map,
}
use topolvm_operator.Client.{is_not_found}
use topolvm_operator.ConfigMaps.{patch}
use topolvm_operator.Sys.Device.{LocalDiskAppendInfo}
use topolvm_operator.Sys.Disks.{get_all_devices}
use topolvm_operator.Sys.Loop.{re_setup_loop}

-- The ConfigMap that is made where there is none.
unfoldable pub device_config_map : Text → Text → Text → Text → ConfigMap
device_config_map name namespace node text = record {
  name = name;
  namespace = namespace;
  labels = (lvmd_config_map_label_key, lvmd_config_map_label_value) ∷ [];
  annotations = (lvmd_annotations_node_key, node) ∷ [];
  owners = none;
  data_map = (local_disk_cm_data, text) ∷ [];
}

unfoldable pub store_devices : Text → Text → Text → Text → Outcome ConfigMap → M (Unit {0})
store_devices name namespace node text (value cm) =
    if same (get_or [] local_disk_cm_data cm.data_map) text
    then pure tt
    else patch cm (record cm { data_map = insert local_disk_cm_data text cm.data_map })
store_devices name namespace node text (error x) =
    if is_not_found x
    then (do
      r ← attempt (api_write (create_config_map (device_config_map name namespace node text)))
      elim r [
        | value u ↦ pure tt
        | error y ↦
            fail
              (new (codes "failed to create local device map " ++ name ++ codes ": " ++ message y))
      ])
    else fail x

-- `updateDeviceCM`
unfoldable pub update_device_cm :
    (List LocalDiskAppendInfo → Result Text) → Text → Text → Text → M (Unit {0})
update_device_cm marshal name namespace node = do
  devices ← get_all_devices
  text ← lift (marshal devices)
  r ← attempt (api_get_config_map name)
  store_devices name namespace node text r

-- The loop over the loop devices: whether one of them failed.
pub set_up_loops : List LoopState → M Bool
set_up_loops [] = pure false
set_up_loops (l ∷ ls) =
    if same l.status loop_create_successful
    then (do
      r ← attempt (re_setup_loop l.file l.device_name)
      rest ← set_up_loops ls
      elim r [ value u ↦ pure rest | error x ↦ pure true ])
    else set_up_loops ls

-- `checkLoopDevice`
unfoldable pub check_loop_device : Text → M (Unit {0})
check_loop_device name = do
  r ← attempt (api_get_config_map name)
  elim r [
    | error x ↦ if is_not_found x then pure tt else fail x
    | value cm ↦ elim (lookup vg_status_config_map_key cm.data_map) [
      | none ↦ pure tt
      | some text ↦ (do
        state ← asks_result (λ e. e.unmarshal_state text)
        failed ← set_up_loops state.loops
        if failed then fail (new (codes "some loop device resetup failed")) else pure tt)
    ]
  ]

-- `retryLoopDevice`, for at most so many checks: it gives whether it returned by then.
unfoldable pub retry_loop_device : Text → ℕ → M Bool
retry_loop_device name zero = pure false
retry_loop_device name (suc n) = do
  r ← attempt (check_loop_device name)
  elim r [ value u ↦ pure true | error x ↦ retry_loop_device name n ]

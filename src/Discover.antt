-- ===== src/Discover.antt =====
-- pkg/operator/discover/discover.go: `checkDeviceClass`, which the daemon of a node runs now and
-- then to see whether the devices of the ready classes are still there.
pub mod Classes
pub mod Quiet
pub mod Devices
pub mod Udev
pub mod Retry
pub mod Stored
mod Tests
use topolvm_operator.Base.{Bool, true, false, not, List, [], ◌∷◌, any, map, if◌then◌else◌}
use topolvm_operator.Base.Text.{Text, same}
use topolvm_operator.Base.Maps.{Map, insert, get_or, has_key}
use topolvm_operator.Api.{
  DeviceState, ClassState, NodeStorageState, class_ready, class_un_ready, device_offline,
}
use topolvm_operator.Cluster.{vg_status_config_map_key}
use topolvm_operator.Env.{
  M, pure, asks_result, ConfigMap, ◌>>=◌, ◌>>◌, Outcome, value, error, attempt, api_get_config_map,
}
use topolvm_operator.ConfigMaps.{patch}
use topolvm_operator.Sys.Lvm.{get_physical_volume}

unfoldable pub mark_device : Map Text → DeviceState → DeviceState
mark_device pvs d = if has_key d.name pvs then d else record d { state = device_offline }

unfoldable pub all_there : Map Text → List DeviceState → Bool
all_there pvs ds = not (any (λ (d : DeviceState). not (has_key d.name pvs)) ds)

-- The body of the loop over the classes.
unfoldable pub mark_class : Map Text → ClassState → ClassState
unfolding mark_device all_there
mark_class pvs c = record c {
  state = if all_there pvs c.device_states then class_ready else class_un_ready;
  device_states = map (mark_device pvs) c.device_states;
}

pub mark_classes : List ClassState → M (List ClassState)
mark_classes [] = pure []
mark_classes (c ∷ cs) = do
  pvs ← get_physical_volume c.vg_name
  rest ← mark_classes cs
  pure (mark_class pvs c ∷ rest)

pub write_state : ConfigMap → NodeStorageState → M (Unit {0})
write_state cm state = do
  text ← asks_result (λ e. e.marshal_state state)
  patch cm (record cm { data_map = insert vg_status_config_map_key text cm.data_map })

pub check_status : ConfigMap → Text → M (Unit {0})
check_status cm status = if same status [] then pure tt else do
  state ← asks_result (λ e. e.unmarshal_state status)
  classes ← mark_classes state.success_classes
  write_state cm (record state { success_classes = classes })

pub check_config_map : Outcome ConfigMap → M (Unit {0})
check_config_map (value cm) = check_status cm (get_or [] vg_status_config_map_key cm.data_map)
check_config_map (error x) = pure tt

pub check_device_class : Text → M (Unit {0})
check_device_class name = do r ← attempt (api_get_config_map name); check_config_map r

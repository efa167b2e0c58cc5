-- ===== src/PrepareVg/Conf.antt =====
-- `updateLvmdConf`, `createLvmdConf`, `convertConfig` and `updateVgStatus`: what the job writes into
-- the ConfigMap of its node.
pub mod Written
pub mod Status
mod Tests
use topolvm_operator.Base.{
  Bool, true, false, not, ◌&&◌, Option, none, some, List, [], ◌∷◌, ◌++◌, any, select, map,
  if◌then◌else◌,
}
use topolvm_operator.Base.Text.{Text, same}
use topolvm_operator.Base.Maps.{Map, lookup, insert}
use topolvm_operator.Api
use topolvm_operator.Api.{LoopState, ClassState, NodeStorageState}
use topolvm_operator.Cluster
use topolvm_operator.Cluster.{
  LmvdConf, lvmd_config_map_key, lvmd_socket_path, vg_status_config_map_key,
}
use topolvm_operator.Env.{M, pure, asks_result, ConfigMap, ◌>>=◌, range}
use topolvm_operator.PrepareVg.{Classes}

abbrev pub put_data : Text → Text → ConfigMap → ConfigMap
put_data key v cm = record cm { data_map = insert key v cm.data_map }

pub convert_config : Api.DeviceClass → M Cluster.DeviceClass
convert_config dev = do
  text ← asks_result (λ e. e.marshal_class dev)
  asks_result (λ e. e.unmarshal_class text)

pub convert_all : List Api.DeviceClass → M (List Cluster.DeviceClass)
convert_all [] = pure []
convert_all (d ∷ ds) = do c ← convert_config d; rest ← convert_all ds; pure (c ∷ rest)

pub create_lvmd_conf : ConfigMap → List Api.DeviceClass → M ConfigMap
create_lvmd_conf cm [] = pure cm
create_lvmd_conf cm (d ∷ ds) = do
  classes ← convert_all (d ∷ ds)
  text ←
      asks_result
        (λ e. e.marshal_conf (record { socket_name = lvmd_socket_path; device_classes = classes }))
  pure (put_data lvmd_config_map_key text cm)

abbrev bool_same : Bool → Bool → Bool
bool_same true b = b
bool_same false b = not b

set_default : Api.DeviceClass → Cluster.DeviceClass → Cluster.DeviceClass
set_default dev ele =
    if same ele.name dev.class_name && not (bool_same ele.default dev.default)
    then record ele { default = dev.default }
    else ele

unfoldable pub set_defaults :
    List Api.DeviceClass → List Cluster.DeviceClass → List Cluster.DeviceClass
unfolding set_default
set_defaults [] classes = classes
set_defaults (dev ∷ devs) classes = set_defaults devs (map (set_default dev) classes)

-- Whether a class of that name succeeded: the order of the map does not show.
unfoldable pub succeeded : Map ClassState → Text → Bool
succeeded suc name = any (λ (kv : Text × ClassState). same name kv.1.name) suc

-- The loop with `index--` keeps the classes that succeeded.
unfoldable pub keep_succeeded : Map ClassState → List Cluster.DeviceClass → List Cluster.DeviceClass
unfolding succeeded
keep_succeeded suc classes = select (λ (c : Cluster.DeviceClass). succeeded suc c.name) classes

unfoldable pub updated_classes :
    List Api.DeviceClass
    → Map ClassState
    → List Cluster.DeviceClass
    → List Cluster.DeviceClass
    → List Cluster.DeviceClass
unfolding set_defaults keep_succeeded
updated_classes specified suc added old = keep_succeeded suc (set_defaults specified old ++ added)

conf_found :
    List Api.DeviceClass
    → ConfigMap
    → List Api.DeviceClass
    → Map ClassState
    → Option Text
    → M ConfigMap
conf_found specified cm new_vgs suc none = create_lvmd_conf cm new_vgs
conf_found specified cm new_vgs suc (some text) = do
  conf ← asks_result (λ e. e.unmarshal_conf text)
  added ← convert_all new_vgs
  written ← asks_result (λ e.
      e.marshal_conf
        (record conf { device_classes = updated_classes specified suc added conf.device_classes }))
  pure (put_data lvmd_config_map_key written cm)

pub update_lvmd_conf :
    List Api.DeviceClass → ConfigMap → List Api.DeviceClass → Map ClassState → M ConfigMap
unfolding conf_found
update_lvmd_conf specified cm new_vgs suc =
    conf_found specified cm new_vgs suc (lookup lvmd_config_map_key cm.data_map)

-- `for _, dev := range m`: the values in the order in which Go visits the keys.
abbrev cons_found : {V : Type 0} → Option V → List V → List V
cons_found none vs = vs
cons_found (some v) vs = v ∷ vs

unfoldable pub values_at : {V : Type 0} → Map V → List Text → List V
values_at m [] = []
values_at m (k ∷ ks) = cons_found (lookup k m) (values_at m ks)

unfoldable pub update_vg_status :
    ConfigMap → NodeStorageState → Classes → List LoopState → M (ConfigMap × NodeStorageState)
update_vg_status cm state cs loops = do
  sucs ← range cs.suc
  fails ← range cs.failed
  let state' : NodeStorageState = record state {
    fail_classes = values_at cs.failed fails;
    success_classes = values_at cs.suc sucs;
    loops = loops;
  }
  text ← asks_result (λ e. e.marshal_state state')
  pure (put_data vg_status_config_map_key text cm, state')

-- ===== src/PrepareVg/Conf/Tests.antt =====
-- One class that succeeded, and what is written of it.
use topolvm_operator.Base.{none, ◌≡◌, refl, true, false, some, [], ◌∷◌}
use topolvm_operator.Base.Text.{Text, codes, same}
use topolvm_operator.Base.Maps.{lookup, insert, keys}
use topolvm_operator.Api
use topolvm_operator.Api.{ClassState, LoopState, NodeStorageState}
use topolvm_operator.Cluster
use topolvm_operator.Cluster.{lvmd_config_map_key, vg_status_config_map_key}
use topolvm_operator.Env.{Env, ok, ConfigMap, range}
use topolvm_operator.Env.World.{lvm_node}
use topolvm_operator.PrepareVg.{Classes}
use topolvm_operator.PrepareVg.Conf.{
  values_at, succeeded, updated_classes, update_lvmd_conf, update_vg_status,
}
use topolvm_operator.PrepareVg.Conf.Written.{IsUpdated, update_lvmd_conf-IsUpdated}
use topolvm_operator.PrepareVg.Conf.Status.{IsListing, update_vg_status-IsListing}

abbrev hdd : ClassState
hdd = record {
  name = codes "hdd";
  vg_name = codes "vg1";
  state = codes "Ready";
  message = [];
  device_states = [];
}

abbrev states : Classes
states = record { suc = (codes "vg1", hdd) ∷ []; failed = [] }

abbrev lvmd_class : Text → Cluster.DeviceClass
lvmd_class name = record {
  name = name;
  volume_group = codes "vg1";
  spare_gb = 0;
  default = false;
  stripe = 0;
  stripe_size = [];
}

abbrev specified_class : Api.DeviceClass
specified_class = record {
  class_name = codes "hdd";
  vg_name = codes "vg1";
  device = [];
  default = true;
  spare_gb = 0;
  stripe = 0;
  stripe_size = [];
}

-- The class that failed goes, and the default flag is renewed.
renewed_class :
    updated_classes
      (specified_class ∷ [])
      states.suc
      []
      (lvmd_class (codes "ssd") ∷ lvmd_class (codes "hdd") ∷ [])
    ≡ record (lvmd_class (codes "hdd")) { default = true } ∷ []
unfolding updated_classes succeeded same
renewed_class = refl

abbrev empty_map : ConfigMap
empty_map = record {
  name = codes "lvmdconfig-n1";
  namespace = codes "ns";
  labels = [];
  annotations = [];
  owners = none;
  data_map = [];
}

-- A ConfigMap with a configuration of lvmd that has the two classes, and the node that reads it.
abbrev lvmd_map : ConfigMap
lvmd_map = record empty_map { data_map = (lvmd_config_map_key, codes "conf") ∷ [] }

abbrev lvmd_node : Env
lvmd_node = record lvm_node {
  unmarshal_conf = λ text. ok (record {
    socket_name = codes "socket";
    device_classes = lvmd_class (codes "ssd") ∷ lvmd_class (codes "hdd") ∷ [];
  });
}

abbrev updated_map : ConfigMap
updated_map = record empty_map { data_map = (lvmd_config_map_key, codes "socket") ∷ [] }

found : lookup lvmd_config_map_key lvmd_map.data_map ≡ some (codes "conf")
unfolding lookup same
found = refl

updated :
    (update_lvmd_conf (specified_class ∷ []) lvmd_map [] states.suc lvmd_node []).0 ≡ ok updated_map
unfolding update_lvmd_conf lookup same insert topolvm_operator.PrepareVg.Conf.convert_all
updated = refl

update_lvmd_conf-IsUpdated_example :
    IsUpdated (specified_class ∷ []) [] states.suc (codes "conf") lvmd_node [] updated_map
update_lvmd_conf-IsUpdated_example =
    update_lvmd_conf-IsUpdated (specified_class ∷ []) [] lvmd_map states.suc (codes "conf")
      lvmd_node [] updated_map found updated

abbrev blank : NodeStorageState
blank = record {
  node = codes "n1";
  phase = [];
  fail_classes = [];
  success_classes = [];
  loops = [];
}

abbrev written_state : NodeStorageState
written_state = record blank { success_classes = hdd ∷ [] }

abbrev written_map : ConfigMap
written_map = record empty_map { data_map = (vg_status_config_map_key, codes "n1") ∷ [] }

status_written :
    (update_vg_status empty_map blank states [] lvm_node []).0 ≡ ok (written_map, written_state)
unfolding update_vg_status range keys values_at lookup insert same
status_written = refl

update_vg_status-IsListing_example :
    IsListing states.suc written_state.success_classes
    × IsListing states.failed written_state.fail_classes
    × (written_state.loops ≡ [])
    × (written_state.node ≡ blank.node)
    × ((text : Text) × (lvm_node.marshal_state written_state ≡ ok text)
        × (lookup vg_status_config_map_key written_map.data_map ≡ some text))
update_vg_status-IsListing_example =
    update_vg_status-IsListing empty_map blank states [] lvm_node [] written_map written_state
      (λ t ks k h. h) status_written

-- ===== src/PrepareVg/Provision.antt =====
-- `provision`, `provisionFirst` and `provisionWithNodeStatus`.
pub mod First
mod Tests
pub mod Existing
pub mod Covered
use topolvm_operator.Base.{
  Bool, true, false, Option, none, some, List, [], ◌∷◌, ◌++◌, if◌then◌else◌,
}
use topolvm_operator.Base.Text.{Text, codes, same}
use topolvm_operator.Base.Maps.{Map, lookup, insert, has_key}
use topolvm_operator.Api.{
  Disk, DeviceClass, NodeDevices, Storage, LoopState, ClassState, NodeStorageState, TopolvmCluster,
  class_un_ready,
}
use topolvm_operator.Cluster.{
  lvmd_config_map_prefix, lvmd_config_map_label_key, lvmd_config_map_label_value,
  lvmd_annotations_node_key, vg_status_config_map_key,
}
use topolvm_operator.Env.{
  M, pure, fail, asks, asks_result, ConfigMap, not_found, ◌>>=◌, wrap, Outcome, value, error,
  attempt, range, api_get_config_map,
}
use topolvm_operator.ConfigMaps.{truncate_node_name, patch, create_or_patch}
use topolvm_operator.Sys.Device.{LocalDisk}
use topolvm_operator.Sys.Disks.{get_available_devices}
use topolvm_operator.Sys.Lvm.{get_volume_groups}
use topolvm_operator.PrepareVg.{PrePareVg, Classes, class_create_fail}
use topolvm_operator.PrepareVg.Loops.{Loops, check_loop_device}
use topolvm_operator.PrepareVg.Create.{Created, create_vg, create_vg_retry}
use topolvm_operator.PrepareVg.Resize.{check_vg_if_expand, check_vg_if_shrink, check_vg_if_delete}
use topolvm_operator.PrepareVg.Conf.{create_lvmd_conf, update_lvmd_conf, update_vg_status}

-- `getVgNameMap`: the states are overwritten as a whole later, so the pointers do not show.
unfoldable pub get_vg_name_map : List ClassState → Map ClassState → Map ClassState
get_vg_name_map [] m = m
get_vg_name_map (c ∷ cs) m = get_vg_name_map cs (insert c.vg_name c m)

-- What the loops over the classes carry: the maps, and the classes whose group was just made.
pub record Progress : Type 0 where
  pub classes : Classes
  pub suc_vgs : List DeviceClass

abbrev pub add_created : Progress → Created → Progress
add_created p c = record {
  classes = c.classes;
  suc_vgs = if c.success then p.suc_vgs ++ c.class ∷ [] else p.suc_vgs;
}

-- A group of that name is there already: the state is kept under its name, and has none itself.
unfoldable pub existing : DeviceClass → ClassState
existing class = record {
  name = class.class_name;
  vg_name = [];
  state = class_un_ready;
  message = class_create_fail ++ codes " vg existing";
  device_states = [];
}

module _ (loop_map : Map LoopState) (disks : Map LocalDisk) where
  -- One round of the loop of `provisionFirst`.
  pub first_class : Map Text → DeviceClass → Progress → M Progress
  first_class vgs class p =
      if has_key class.vg_name vgs
      then pure (record p {
        classes = record p.classes {
          failed = insert class.vg_name (existing class) p.classes.failed;
        };
      })
      else (do c ← create_vg loop_map disks class p.classes; pure (add_created p c))

  pub first_classes : Map Text → List DeviceClass → Progress → M Progress
  first_classes vgs [] p = pure p
  first_classes vgs (c ∷ cs) p = do p' ← first_class vgs c p; first_classes vgs cs p'

  -- One round of the loop of `provisionWithNodeStatus`; the errors of the two checks are logged.
  resize : DeviceClass → Progress → M Progress
  resize class p = do
    r ← check_vg_if_expand loop_map class p.classes.suc
    r' ← check_vg_if_shrink class r.0
    pure (record p { classes = record p.classes { suc = r'.0 } })

  pub next_class : DeviceClass → Progress → M Progress
  unfolding resize
  next_class class p =
      if has_key class.vg_name p.classes.suc
      then resize class p
      else if has_key class.vg_name p.classes.failed
      then (do c ← create_vg_retry loop_map disks class p.classes; pure (add_created p c))
      else (do c ← create_vg loop_map disks class p.classes; pure (add_created p c))

  pub next_classes : List DeviceClass → Progress → M Progress
  next_classes [] p = pure p
  next_classes (c ∷ cs) p = do p' ← next_class c p; next_classes cs p'

unfoldable pub config_map_name : (Text → Text) → Text → Text
config_map_name hash node = truncate_node_name hash lvmd_config_map_prefix node

fresh_config_map : PrePareVg → (Text → Text) → ConfigMap
fresh_config_map c hash = record {
  name = config_map_name hash c.node_devices.node_name;
  namespace = c.namespace;
  labels = (lvmd_config_map_label_key, lvmd_config_map_label_value) ∷ [];
  annotations = (lvmd_annotations_node_key, c.node_name) ∷ [];
  owners = none;
  data_map = [];
}

start_config_map : PrePareVg → (Text → Text) → Option ConfigMap → ConfigMap
start_config_map c hash none = fresh_config_map c hash
start_config_map c hash (some cm) = cm

write_first : Option ConfigMap → ConfigMap → M (Unit {0})
write_first none new = create_or_patch new
write_first (some old) new = wrap (codes "patch configmap failed") (patch old new)

abbrev no_classes : Classes
no_classes = record { suc = []; failed = [] }

abbrev blank_state : Text → NodeStorageState
blank_state node = record {
  node = node;
  phase = [];
  fail_classes = [];
  success_classes = [];
  loops = [];
}

pub provision_first : PrePareVg → Map LocalDisk → Option ConfigMap → M (Unit {0})
unfolding fresh_config_map start_config_map write_first
provision_first c disks cm = do
  vgs ← get_volume_groups
  p ←
      first_classes c.loop_map disks vgs c.node_devices.device_classes
        (record { classes = no_classes; suc_vgs = [] })
  hash ← asks (λ e t. e.hash)
  r ← wrap (codes "create vg status failed") (
      update_vg_status (start_config_map c hash cm) (blank_state c.node_name) p.classes
        c.loops_state)
  new ← wrap (codes "create lvmd conf failed") (create_lvmd_conf r.0 p.suc_vgs)
  write_first cm new

pub provision_with_node_status : PrePareVg → ConfigMap → Text → Map LocalDisk → M (Unit {0})
provision_with_node_status c cm status disks = do
  state ← asks_result (λ e. e.unmarshal_state status)
  p ← next_classes c.loop_map disks c.node_devices.device_classes (record {
    classes = record {
      suc = get_vg_name_map state.success_classes [];
      failed = get_vg_name_map state.fail_classes [];
    };
    suc_vgs = [];
  })
  cs ← check_vg_if_delete c.node_devices.device_classes p.classes
  conf ←
      wrap (codes "update lvmd conf failed")
        (update_lvmd_conf c.node_devices.device_classes cm p.suc_vgs cs.suc)
  r ← wrap (codes "update vg status failed") (update_vg_status conf state cs c.loops_state)
  wrap (codes "patch configmap failed") (patch cm r.0)

-- The loops of the node, from the status of the cluster: the last entry of the node wins.
unfoldable pub loops_of : Text → List NodeStorageState → List LoopState → List LoopState
loops_of node [] ls = ls
loops_of node (s ∷ ss) ls = loops_of node ss (if same s.node node then s.loops else ls)

unfoldable pub devices_of : Text → List NodeDevices → NodeDevices → NodeDevices
devices_of node [] d = d
devices_of node (n ∷ ns) d = devices_of node ns (if same n.node_name node then n else d)

abbrev whole_class : Storage → List Disk → DeviceClass
whole_class s disks = record {
  class_name = s.class_name;
  vg_name = s.volume_group_name;
  device = disks;
  default = true;
  spare_gb = 0;
  stripe = 0;
  stripe_size = [];
}

abbrev one_class : Text → Storage → List Disk → NodeDevices
one_class node s disks = record { node_name = node; device_classes = whole_class s disks ∷ [] }

unfoldable pub available_disks : Map LocalDisk → List Text → List Disk
available_disks disks [] = []
available_disks disks (k ∷ ks) =
    let rest = available_disks disks ks in
    elim (lookup k disks) [
      | none ↦ rest
      | some d ↦ record { name = k; type = d.type; auto = false; path = []; size = 0 } ∷ rest
    ]

abbrev set_loops : Loops → PrePareVg → PrePareVg
set_loops ls c = record c { loops_state = ls.states; loop_map = ls.by_name }

-- `checkLoopDevice` and a second listing of the disks, where the specification uses loop devices.
loops_and_disks :
    Bool → List (List Disk) → PrePareVg → Map LocalDisk → M (PrePareVg × Map LocalDisk)
loops_and_disks false lists c disks = pure (c, disks)
loops_and_disks true [] c disks = do disks' ← get_available_devices; pure (c, disks')
loops_and_disks true (l ∷ lists) c disks = do
  ls ← check_loop_device l (record { states = c.loops_state; by_name = c.loop_map })
  loops_and_disks true lists (set_loops ls c) disks

device_lists : List DeviceClass → List (List Disk)
device_lists [] = []
device_lists (c ∷ cs) = c.device ∷ device_lists cs

for_device_classes :
    Storage → PrePareVg → Map LocalDisk → Option (List NodeDevices) → M (PrePareVg × Map LocalDisk)
unfolding loops_and_disks device_lists
for_device_classes s c disks none = pure (c, disks)
for_device_classes s c disks (some nodes) =
    let devices = devices_of c.node_name nodes c.node_devices in
    loops_and_disks s.use_loop (device_lists devices.device_classes)
      (record c { node_devices = devices }) disks

for_devices :
    Storage → PrePareVg → Map LocalDisk → Option (List Disk) → M (PrePareVg × Map LocalDisk)
unfolding for_device_classes
for_devices s c disks none = for_device_classes s c disks s.device_classes
for_devices s c disks (some given) =
    loops_and_disks s.use_loop (given ∷ [])
      (record c { node_devices = one_class c.node_name s given }) disks

-- The classes of the node, its loop devices, and the free disks.
pub node_classes : Storage → PrePareVg → Map LocalDisk → M (PrePareVg × Map LocalDisk)
unfolding for_devices
node_classes s c disks =
    if s.use_all_devices
    then (do
      keys ← range disks
      let all = available_disks disks keys
      loops_and_disks s.use_loop (all ∷ [])
          (record c { node_devices = one_class c.node_name s all }) disks)
    else for_devices s c disks s.devices

status_or_first : PrePareVg → ConfigMap → Map LocalDisk → Option Text → M (Unit {0})
status_or_first c cm disks (some status) = provision_with_node_status c cm status disks
status_or_first c cm disks none = provision_first c disks (some cm)

config_map_found : PrePareVg → Map LocalDisk → Outcome ConfigMap → M (Unit {0})
unfolding status_or_first
config_map_found c disks (value cm) =
    status_or_first c cm disks (lookup vg_status_config_map_key cm.data_map)
config_map_found c disks (error not_found) = provision_first c disks none
config_map_found c disks (error x) = fail x

pub provision : PrePareVg → TopolvmCluster → M (Unit {0})
unfolding config_map_found
provision c cluster = do
  let c' = record c {
    loops_state = loops_of c.node_name cluster.status.node_storage_status c.loops_state;
  }
  disks ← get_available_devices
  r ← node_classes cluster.spec.storage c' disks
  hash ← asks (λ e t. e.hash)
  found ← attempt (api_get_config_map (config_map_name hash (r.0).node_devices.node_name))
  config_map_found r.0 r.1 found

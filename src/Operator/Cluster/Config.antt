-- ===== src/Operator/Cluster/Config.antt =====
-- `reflect.DeepEqual` on the storage of a specification, and `checkStorageConfig` of
-- controllers/topolvmcluster_controller.go.
use topolvm_operator.Base.{
  Bool, true, false, not, ◌&&◌, ◌||◌, Option, none, some, List, [], ◌∷◌, ◌==◌, is_some,
  if◌then◌else◌,
}
use topolvm_operator.Base.Text.{Text, codes, same}
use topolvm_operator.Api.{Disk, DeviceClass, NodeDevices, Storage}

abbrev pub same_bool : Bool → Bool → Bool
same_bool true b = b
same_bool false b = not b

module _ {A : Type 0} (test : A → A → Bool) where
  unfoldable pub same_list : List A → List A → Bool
  same_list [] [] = true
  same_list (x ∷ xs) (y ∷ ys) = test x y && same_list xs ys
  same_list xs ys = false

  unfoldable pub same_option : Option (List A) → Option (List A) → Bool
  unfolding same_list
  same_option none none = true
  same_option (some xs) (some ys) = same_list xs ys
  same_option a b = false

unfoldable pub same_disk : Disk → Disk → Bool
same_disk a b =
    same a.name b.name
    && same a.type b.type
    && same_bool a.auto b.auto
    && same a.path b.path
    && a.size == b.size

unfoldable pub same_class : DeviceClass → DeviceClass → Bool
same_class a b =
    same a.class_name b.class_name
    && same a.vg_name b.vg_name
    && same_list same_disk a.device b.device
    && same_bool a.default b.default
    && a.spare_gb == b.spare_gb
    && a.stripe == b.stripe
    && same a.stripe_size b.stripe_size

unfoldable pub same_node : NodeDevices → NodeDevices → Bool
same_node a b =
    same a.node_name b.node_name && same_list same_class a.device_classes b.device_classes

unfoldable pub same_storage : Storage → Storage → Bool
same_storage a b =
    same_option same_node a.device_classes b.device_classes
    && same_bool a.use_all_nodes b.use_all_nodes
    && same_bool a.use_all_devices b.use_all_devices
    && same_option same_disk a.devices b.devices
    && same a.volume_group_name b.volume_group_name
    && same a.class_name b.class_name
    && same_bool a.use_loop b.use_loop

-- `checkStorageConfig`: the message of its error.
unfoldable pub check_storage_config : Storage → Option Text
check_storage_config s =
    if s.use_all_nodes && is_some s.device_classes
    then some (codes "should not both config use all node and deviceclasses ")
    else if not s.use_all_nodes && s.use_all_devices
    then some (codes "should not config useAllNodes false but useAllDevice true")
    else if s.use_all_devices && is_some s.devices
    then some (codes "should not config useAllNodes true but config storage.devices")
    else if s.use_all_nodes && (same s.volume_group_name [] || same s.class_name [])
    then some (codes "if use all nodes ,volumeGroupName and className must be define")
    else none

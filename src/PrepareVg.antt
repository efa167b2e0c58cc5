-- ===== src/PrepareVg.antt =====
-- controllers/preparevg_controller.go: the job that runs on a node and makes its volume groups what
-- the specification of the cluster says.
pub mod Loops
pub mod Create
pub mod Resize
pub mod Conf
pub mod Provision
use topolvm_operator.Base.{Bool, ◌&&◌, Option, none, some, List, [], if◌then◌else◌}
use topolvm_operator.Base.Text.{Text, codes, same}
use topolvm_operator.Base.Maps.{Map, lookup}
use topolvm_operator.Api.{Disk, NodeDevices, LoopState, ClassState}

abbrev pub class_expand_waring : Text
class_expand_waring = codes "expand warning"

abbrev pub class_expand_error : Text
class_expand_error = codes "expand error"

abbrev pub class_shrink_error : Text
class_shrink_error = codes "shrink error"

abbrev pub class_delete_error : Text
class_delete_error = codes "delete error"

abbrev pub class_create_successful : Text
class_create_successful = codes "create successful"

abbrev pub class_create_fail : Text
class_create_fail = codes "create failed"

abbrev pub device_state_error : Text
device_state_error = codes "error"

abbrev pub loop_create_failed : Text
loop_create_failed = codes "failed"

abbrev pub loop : Text
loop = codes "loop"

pub record PrePareVg : Type 0 where
  pub node_name : Text
  pub namespace : Text
  pub node_devices : NodeDevices
  pub loops_state : List LoopState
  pub loop_map : Map LoopState

-- `sucClass` and `failClass`, by the names of their volume groups.
pub record Classes : Type 0 where
  pub suc : Map ClassState
  pub failed : Map ClassState

abbrev device_name_or : Option LoopState → Text
device_name_or none = []
device_name_or (some l) = l.device_name

unfoldable pub get_device_name : Map LoopState → Text → Text
get_device_name loop_map name = device_name_or (lookup name loop_map)

-- The head of the loops over `class.Device`: a loop device that the operator made goes by the name
-- of its device. `none` is the `continue` where there is no such name.
unfoldable pub resolve : Map LoopState → Disk → Option Disk
unfolding get_device_name
resolve loop_map disk =
    if same disk.type loop && disk.auto
    then (let name = get_device_name loop_map disk.name in
        if same name [] then none else some (record disk { name = name }))
    else some disk

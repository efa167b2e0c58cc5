-- ===== src/PrepareVg/Create.antt =====
-- `createVg` and `createVgRetry`: a volume group for a device class whose disks are all free.
pub mod Checks
pub mod Records
pub mod Makes
mod Tests
use topolvm_operator.Base.{
  ℕ, Bool, true, false, ◌&&◌, Option, none, some, List, [], ◌∷◌, ◌++◌, map, any, if◌then◌else◌,
}
use topolvm_operator.Base.Text.{Text, codes, same}
use topolvm_operator.Base.Maps.{Map, lookup, insert, delete, has_key}
use topolvm_operator.Api.{
  Disk, DeviceClass, LoopState, DeviceState, ClassState, class_ready, class_un_ready, device_online,
  device_offline,
}
use topolvm_operator.Env.{M, pure, crash, ◌>>=◌, ◌>>◌, Outcome, value, error, attempt}
use topolvm_operator.Sys.Device.{LocalDisk}
use topolvm_operator.Sys.Lvm.{create_volume_group}
use topolvm_operator.PrepareVg.{Classes, resolve, class_create_fail, class_create_successful}

abbrev pub not_available : Text
not_available = codes "disk may has filesystem or is not raw disk please check"

-- What the loop over the disks leaves: the disks under their devices' names, the names that are not
-- available, in order.
pub record Checked : Type 0 where
  pub devices : List Disk
  pub missing : List Text

add_missing : Map LocalDisk → Disk → List Text → List Text
add_missing disks d names = if has_key d.name disks then names else d.name ∷ names

module _ (loop_map : Map LoopState) (disks : Map LocalDisk) where
  checked_disk : Disk → Option Disk → Checked → Checked
  unfolding add_missing
  checked_disk disk none rest = record rest { devices = disk ∷ rest.devices }
  checked_disk disk (some d) rest = record {
    devices = d ∷ rest.devices;
    missing = add_missing disks d rest.missing;
  }

  pub check_disks : List Disk → Checked
  unfolding checked_disk
  check_disks [] = record { devices = []; missing = [] }
  check_disks (d ∷ ds) = checked_disk d (resolve loop_map d) (check_disks ds)

-- The result of both: whether the group was made, the class with its disks renamed in place, and
-- the maps.
pub record Created : Type 0 where
  pub success : Bool
  pub class : DeviceClass
  pub classes : Classes

unfoldable pub offline : Text → DeviceState
offline name = record { name = name; state = device_offline; message = not_available }

unfoldable pub online : Text → DeviceState
online name = record { name = name; state = device_online; message = [] }

abbrev class_state : DeviceClass → Text → Text → List DeviceState → ClassState
class_state class state text states = record {
  name = class.class_name;
  vg_name = class.vg_name;
  state = state;
  message = text;
  device_states = states;
}

abbrev add_suc : DeviceClass → ClassState → Classes → Classes
add_suc class s cs = record cs { suc = insert class.vg_name s cs.suc }

abbrev add_failed : DeviceClass → ClassState → Classes → Classes
add_failed class s cs = record cs { failed = insert class.vg_name s cs.failed }

abbrev disk_states : DeviceClass → List DeviceState
disk_states class = map (λ (d : Disk). online d.name) class.device

created : DeviceClass → Classes → Outcome (Unit {0}) → Created
created class cs (value u) = record {
  success = true;
  class = class;
  classes =
      add_suc class (class_state class class_ready class_create_successful (disk_states class)) cs;
}
created class cs (error x) = record {
  success = false;
  class = class;
  classes = add_failed class (class_state class class_un_ready class_create_fail []) cs;
}

create_checked : DeviceClass → Classes → List Text → M Created
unfolding created
create_checked class cs [] = do
  r ← attempt (create_volume_group class.device class.vg_name)
  pure (created class cs r)
create_checked class cs (n ∷ names) = pure (record {
  success = false;
  class = class;
  classes = add_failed class (class_state class [] [] (map offline (n ∷ names))) cs;
})

pub create_vg : Map LoopState → Map LocalDisk → DeviceClass → Classes → M Created
unfolding create_checked
create_vg loop_map disks class cs =
    let c = check_disks loop_map disks class.device in
    create_checked (record class { device = c.devices }) cs c.missing

-- `checkDeviceStatusIsExisting` finds the first state of the name; it is overwritten, and a new one
-- goes to the end.
unfoldable pub put_device_state : DeviceState → List DeviceState → List DeviceState
put_device_state s [] = s ∷ []
put_device_state s (d ∷ ds) = if same d.name s.name then s ∷ ds else d ∷ put_device_state s ds

unfoldable pub unavailable : Text → DeviceState
unavailable name = record { name = name; state = []; message = not_available }

unfoldable pub put_all : List Text → List DeviceState → List DeviceState
unfolding unavailable
put_all [] ds = ds
put_all (n ∷ names) ds = put_all names (put_device_state (unavailable n) ds)

noted : DeviceClass → List Text → Classes → Option ClassState → M Created
noted class names cs none = crash
noted class names cs (some s) = pure (record {
  success = false;
  class = class;
  classes = add_failed class (record s { device_states = put_all names s.device_states }) cs;
})

retried : DeviceClass → Classes → Outcome (Unit {0}) → Created
retried class cs (value u) = record {
  success = true;
  class = class;
  classes = record {
    suc = insert class.vg_name (class_state class class_ready class_create_successful []) cs.suc;
    failed = delete class.vg_name cs.failed;
  };
}
retried class cs (error x) = record { success = false; class = class; classes = cs }

retry_checked : DeviceClass → Classes → List Text → M Created
unfolding noted retried
retry_checked class cs [] = do
  r ← attempt (create_volume_group class.device class.vg_name)
  pure (retried class cs r)
retry_checked class cs (n ∷ names) = noted class (n ∷ names) cs (lookup class.vg_name cs.failed)

pub create_vg_retry : Map LoopState → Map LocalDisk → DeviceClass → Classes → M Created
unfolding retry_checked
create_vg_retry loop_map disks class cs =
    let c = check_disks loop_map disks class.device in
    retry_checked (record class { device = c.devices }) cs c.missing

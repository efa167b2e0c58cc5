-- ===== src/Sys/Disks/Tests.antt =====
-- The listings of disks on a node with one free disk, and the update of the devices in its ConfigMap.
use topolvm_operator.Base.{◌≡◌, refl, true, false, some, List, [], ◌∷◌, ◌++◌, All, Has}
use topolvm_operator.Base.Text.{Text, codes, same}
use topolvm_operator.Base.Maps.{insert, lookup}
use topolvm_operator.Go.Strings.{split, trim_space, trim}
use topolvm_operator.Go.Numbers.{parse_uint}
use topolvm_operator.Go.Paths.{base}
use topolvm_operator.Env.{
  Result, ok, execute_command_with_output, execute_command_with_status, run_command_with_output,
  assert_error_type,
}
use topolvm_operator.Env.World.{disk_node}
use topolvm_operator.Sys.Parse.{parse_key_value_pair_string, parse_udev_info}
use topolvm_operator.Sys.Device.{
  LocalDisk, LocalDiskAppendInfo, list_devices, get_device_properties,
  get_device_properties_from_path, get_disk_uuid, get_udev_info, list_devices_child,
}
use topolvm_operator.Sys.Disks.{
  discover_devices, get_available_devices, get_all_devices, disk_prefix, supported_device_type,
  populate_device_info, populate_typed, populate_device_udev_info, fill_properties, fill_udev,
  probe, probe_populated, probe_all, has_child, unusable, add_available, info_all, info_of, blank,
  uuid_of,
}
use topolvm_operator.Sys.Disks.Available.{IsUsable, get_available_devices-exact}
use topolvm_operator.Sys.Disks.Discover.{IsDevice, discover_devices-returns}

abbrev sdb : LocalDisk
sdb = record {
  name = codes "sdb";
  parent = [];
  has_children = false;
  dev_links = [];
  size = 10737418240;
  uuid = codes "sgdiskNotFound";
  serial = codes "QM1";
  type = codes "disk";
  rotational = false;
  readonly = false;
  partitions = [];
  filesystem = [];
  vendor = [];
  model = [];
  wwn = [];
  wwn_vendor_extension = [];
  empty = false;
  real_path = codes "/dev/sdb";
  mount_point = [];
  kernel_name = codes "sdb";
  encrypted = false;
}

listed : (list_devices disk_node []).0 ≡ ok (codes "sdb" ∷ [])
unfolding list_devices execute_command_with_output execute_command_with_status
    run_command_with_output assert_error_type trim_space trim split same
listed = refl

available : (get_available_devices disk_node []).0 ≡ ok ((codes "/dev/sdb", sdb) ∷ [])
unfolding get_available_devices discover_devices list_devices probe_all probe populate_device_info
    get_device_properties get_device_properties_from_path populate_typed blank uuid_of get_disk_uuid
    populate_device_udev_info get_udev_info has_child list_devices_child fill_properties fill_udev
    parse_key_value_pair_string parse_udev_info parse_uint base split supported_device_type
    add_available unusable insert same probe_populated execute_command_with_output
    execute_command_with_status run_command_with_output assert_error_type trim_space trim lookup
    topolvm_operator.Sys.Device.device_path topolvm_operator.Go.Strings.remove_byte
available = refl

all :
    (get_all_devices disk_node []).0
    ≡ ok (record { local_disk = sdb; available = true; message = [] } ∷ [])
unfolding get_all_devices info_all info_of discover_devices list_devices probe_all probe
    populate_device_info get_device_properties get_device_properties_from_path populate_typed blank
    uuid_of get_disk_uuid populate_device_udev_info get_udev_info has_child list_devices_child
    fill_properties fill_udev parse_key_value_pair_string parse_udev_info parse_uint base split
    supported_device_type unusable insert same probe_populated execute_command_with_output
    execute_command_with_status run_command_with_output assert_error_type trim_space trim lookup
    topolvm_operator.Sys.Device.device_path topolvm_operator.Go.Strings.remove_byte
all = refl

get_available_devices-exact_example :
    (ds : List LocalDisk) × ((discover_devices false disk_node []).0 ≡ ok ds)
    × ((k : Text) (d : LocalDisk)
        → lookup k ((codes "/dev/sdb", sdb) ∷ []) ≡ some d
        → Has d ds × IsUsable d × (k ≡ disk_prefix ++ d.name))
    × ((d : LocalDisk)
        → Has d ds
        → IsUsable d
        → (d' : LocalDisk) × (lookup (disk_prefix ++ d.name) ((codes "/dev/sdb", sdb) ∷ [])
            ≡ some d'))
get_available_devices-exact_example =
    get_available_devices-exact disk_node [] ((codes "/dev/sdb", sdb) ∷ []) available

discover_devices-returns_example :
    (disks : List LocalDisk) × ((discover_devices true disk_node []).0 ≡ ok disks)
    × All (IsDevice (codes "sdb" ∷ [])) disks
discover_devices-returns_example =
    discover_devices-returns true disk_node [] (codes "sdb" ∷ []) listed

-- The devices of the node go into its ConfigMap, with one text for each list of devices.
abbrev marshal : List LocalDiskAppendInfo → Result Text
marshal devices = ok (codes "[]")

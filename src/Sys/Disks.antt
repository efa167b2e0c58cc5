-- ===== src/Sys/Disks.antt =====
-- pkg/util/sys/disks.go: the disks of a node, which of them are free, and why the others are not.
pub mod Available
pub mod Discover
pub mod All
pub mod Quiet
mod Tests
use topolvm_operator.Base.{
  ℕ, ◌*◌, ◌^◌, ◌<◌, Bool, true, false, not, ◌&&◌, ◌||◌, Option, none, some, List, [], ◌∷◌, ◌++◌,
  length, ltb, if◌then◌else◌,
}
use topolvm_operator.Base.Text.{Text, codes, same}
use topolvm_operator.Base.Maps.{Map, lookup, insert}
use topolvm_operator.Go.Numbers.{parse_uint, parse_bool}
use topolvm_operator.Go.Paths.{base}
use topolvm_operator.Env.{M, pure, fail, new, ◌>>=◌, ◌>>◌, Outcome, value, error, attempt}
use topolvm_operator.Sys.Device.{
  LocalDisk, LocalDiskAppendInfo, disk_type, ssd_type, part_type, crypt_type, multi_path,
  linear_type, loop_type, list_devices, get_device_properties, get_disk_uuid, get_udev_info,
  list_devices_child,
}

unfoldable pub supported_device_type : Text → Bool
supported_device_type t =
    same t disk_type
    || same t ssd_type
    || same t crypt_type
    || same t multi_path
    || same t part_type
    || same t linear_type
    || same t loop_type

-- A device of which only the name and the identifier are known.
blank : Text → Text → LocalDisk
blank name uuid = record {
  name = name;
  parent = [];
  has_children = false;
  dev_links = [];
  size = 0;
  uuid = uuid;
  serial = [];
  type = [];
  rotational = false;
  readonly = false;
  partitions = [];
  filesystem = [];
  vendor = [];
  model = [];
  wwn = [];
  wwn_vendor_extension = [];
  empty = false;
  real_path = [];
  mount_point = [];
  kernel_name = [];
  encrypted = false;
}

-- The assignments under `if val, ok := diskProps[...]; ok`.
abbrev text_or : Text → Option Text → Text
text_or d none = d
text_or d (some v) = v

abbrev size_or : Option Text → ℕ
size_or none = 0
size_or (some v) = elim (parse_uint v) [ none ↦ 0 | some n ↦ n ]

abbrev bool_or : Option Text → Bool
bool_or none = false
bool_or (some v) = elim (parse_bool v) [ none ↦ false | some b ↦ b ]

abbrev base_or : Option Text → Text
base_or none = []
base_or (some v) = if same v [] then [] else base v

abbrev kernel_or : Option Text → Text
kernel_or none = []
kernel_or (some v) = base v

unfoldable pub fill_properties : Map Text → LocalDisk → LocalDisk
fill_properties props disk = record disk {
  type = text_or disk.type (lookup (codes "TYPE") props);
  size = size_or (lookup (codes "SIZE") props);
  rotational = bool_or (lookup (codes "ROTA") props);
  readonly = bool_or (lookup (codes "RO") props);
  parent = base_or (lookup (codes "PKNAME") props);
  real_path = text_or disk.real_path (lookup (codes "NAME") props);
  kernel_name = kernel_or (lookup (codes "KNAME") props);
  mount_point = base_or (lookup (codes "MOUNTPOINT") props);
}

uuid_of : Text → Text → M Text
uuid_of d disk_type = if same disk_type part_type then pure [] else get_disk_uuid d

pub populate_typed : Text → Map Text → Option Text → M LocalDisk
unfolding uuid_of blank
populate_typed d props none = fail (new (codes "diskType is empty"))
populate_typed d props (some disk_type) =
    if supported_device_type disk_type
    then (do uuid ← uuid_of d disk_type; pure (fill_properties props (blank d uuid)))
    else fail (new (codes "unsupported diskType " ++ disk_type))

pub populate_device_info : Text → M LocalDisk
populate_device_info d = do
  props ← get_device_properties d
  populate_typed d props (lookup (codes "TYPE") props)

unfoldable pub fill_udev : Map Text → LocalDisk → LocalDisk
fill_udev info disk = record disk {
  dev_links = text_or disk.dev_links (lookup (codes "DEVLINKS") info);
  filesystem = text_or disk.filesystem (lookup (codes "ID_FS_TYPE") info);
  serial = text_or disk.serial (lookup (codes "ID_SERIAL") info);
  vendor = text_or disk.vendor (lookup (codes "ID_VENDOR") info);
  model = text_or disk.model (lookup (codes "ID_MODEL") info);
  wwn_vendor_extension =
      text_or disk.wwn_vendor_extension (lookup (codes "ID_WWN_WITH_EXTENSION") info);
  wwn = text_or disk.wwn (lookup (codes "ID_WWN") info);
}

-- The caller goes on with the disk as it was where udev fails.
abbrev udev_or : LocalDisk → Outcome (Map Text) → LocalDisk
udev_or disk (value info) = fill_udev info disk
udev_or disk (error x) = disk

pub populate_device_udev_info : Text → LocalDisk → M LocalDisk
populate_device_udev_info d disk = do info ← attempt (get_udev_info d); pure (udev_or disk info)

-- `assuming they are none`
abbrev children_or : Outcome (List Text) → List Text
children_or (value ls) = ls
children_or (error x) = []

-- Whether `lsblk` lists more than the device itself; only a device of type `disk` is asked.
pub has_child : Text → Text → M Bool
has_child d type =
    if same type disk_type
    then (do r ← attempt (list_devices_child d); pure (ltb 1 (length (children_or r))))
    else pure false

abbrev keep_unless : Bool → LocalDisk → List LocalDisk
keep_unless true disk = []
keep_unless false disk = disk ∷ []

probe_populated : Text → Bool → Outcome LocalDisk → M (List LocalDisk)
probe_populated d list_parent (error x) = pure []
probe_populated d list_parent (value disk) = do
  disk' ← populate_device_udev_info d disk
  child ← has_child d disk'.type
  pure (keep_unless (not list_parent && child) disk')

-- One round of the loop of `DiscoverDevices`: the disk that it appends, if any.
pub probe : Text → Bool → M (List LocalDisk)
unfolding probe_populated
probe d list_parent = do r ← attempt (populate_device_info d); probe_populated d list_parent r

pub probe_all : List Text → Bool → M (List LocalDisk)
probe_all [] list_parent = pure []
probe_all (d ∷ ds) list_parent = do
  found ← probe d list_parent
  rest ← probe_all ds list_parent
  pure (found ++ rest)

pub discover_devices : Bool → M (List LocalDisk)
discover_devices list_parent = do devices ← list_devices; probe_all devices list_parent

abbrev pub min_size : ℕ
min_size = 2 * 2 ^ 30

abbrev pub disk_prefix : Text
disk_prefix = codes "/dev/"

-- The three tests that both listings make, in their order.
unfoldable pub unusable : LocalDisk → Option Text
unusable disk =
    if ltb disk.size min_size
    then some (codes "size less than 2G")
    else if not (same disk.filesystem [])
    then some (codes "containe a filesystem " ++ disk.filesystem)
    else if not (same disk.mount_point [])
    then some (codes "has a mount point " ++ disk.mount_point)
    else none

unfoldable pub add_available : List LocalDisk → Map LocalDisk → Map LocalDisk
add_available [] m = m
add_available (d ∷ ds) m =
    add_available ds
      (elim (unusable d) [ none ↦ insert (disk_prefix ++ d.name) d m | some text ↦ m ])

pub get_available_devices : M (Map LocalDisk)
get_available_devices = do disks ← discover_devices false; pure (add_available disks [])

abbrev refused : LocalDisk → Text → LocalDiskAppendInfo
refused disk text = record { local_disk = disk; available = false; message = text }

abbrev child_info : LocalDisk → Bool → LocalDiskAppendInfo
child_info disk true = refused disk (codes "has child")
child_info disk false = record { local_disk = disk; available = true; message = [] }

pub info_of : LocalDisk → Option Text → M LocalDiskAppendInfo
info_of disk (some text) = pure (refused disk text)
info_of disk none = do child ← has_child disk.kernel_name disk.type; pure (child_info disk child)

pub info_all : List LocalDisk → M (List LocalDiskAppendInfo)
unfolding info_of
info_all [] = pure []
info_all (d ∷ ds) = do i ← info_of d (unusable d); rest ← info_all ds; pure (i ∷ rest)

pub get_all_devices : M (List LocalDiskAppendInfo)
get_all_devices = do disks ← discover_devices true; info_all disks

-- ===== src/Sys/Device.antt =====
-- pkg/util/sys/device.go: what `lsblk`, `udevadm`, `sgdisk` and `dmsetup` say of a block device.
pub mod Reads
use topolvm_operator.Base.{
  ℕ, ◌+◌, ◌-◌, ◌%◌, ◌<◌, Bool, true, false, ◌&&◌, Option, none, some, List, [], ◌∷◌, ◌++◌, length,
  ltb, ◌==◌, if◌then◌else◌,
}
use topolvm_operator.Base.Text.{Text, codes, same}
use topolvm_operator.Base.Maps.{Map, lookup, get_or}
use topolvm_operator.Go.Strings.{split, contains}
use topolvm_operator.Go.Numbers.{u64_mod, parse_uint}
use topolvm_operator.Env.{
  M, pure, fail, lift, Result, ok, err, asks, Error, exited, unstarted, not_found, new, message,
  ◌>>=◌, ◌>>◌, wrap, execute_command_with_status, execute_command_with_output,
}
use topolvm_operator.Sys.Parse.{parse_key_value_pair_string, parse_udev_info, parse_fs, parse_uuid}

pub record Partition : Type 0 where
  pub name : Text
  pub size : ℕ
  pub label : Text
  pub filesystem : Text

pub record LocalDisk : Type 0 where
  pub name : Text
  pub parent : Text
  pub has_children : Bool
  pub dev_links : Text
  pub size : ℕ
  pub uuid : Text
  pub serial : Text
  pub type : Text
  pub rotational : Bool
  pub readonly : Bool
  pub partitions : List Partition
  pub filesystem : Text
  pub vendor : Text
  pub model : Text
  pub wwn : Text
  pub wwn_vendor_extension : Text
  pub empty : Bool
  pub real_path : Text
  pub mount_point : Text
  pub kernel_name : Text
  pub encrypted : Bool

pub record LocalDiskAppendInfo : Type 0 where
  pub local_disk : LocalDisk
  pub available : Bool
  pub message : Text

abbrev pub disk_type : Text
disk_type = codes "disk"

abbrev pub ssd_type : Text
ssd_type = codes "ssd"

abbrev pub part_type : Text
part_type = codes "part"

abbrev pub crypt_type : Text
crypt_type = codes "crypt"

abbrev pub lvm_type : Text
lvm_type = codes "lvm"

abbrev pub multi_path : Text
multi_path = codes "mpath"

abbrev pub linear_type : Text
linear_type = codes "linear"

abbrev pub loop_type : Text
loop_type = codes "loop"

unfoldable pub list_devices : M (List Text)
list_devices = do
  devices ← wrap (codes "failed to list all devices") (
      execute_command_with_output (
        codes "lsblk"
        ∷ codes "--all"
        ∷ codes "--noheadings"
        ∷ codes "--list"
        ∷ codes "--output"
        ∷ codes "KNAME"
        ∷ []))
  pure (split devices b'\n')

-- A name without a slash stands for a device under /dev.
unfoldable pub device_path : Text → Text
device_path device = if length (split device b'/') == 1 then codes "/dev/" ++ device else device

unfoldable pub get_udev_info : Text → M (Map Text)
get_udev_info device = do
  out ←
      execute_command_with_output
        (codes "udevadm" ∷ codes "info" ∷ codes "--query=property" ∷ (codes "/dev/" ++ device) ∷ [])
  pure (parse_udev_info out)

-- The label and the file system that the udev properties give a partition: the later `if` wins.
abbrev or_else : Option Text → Text → Text
or_else none d = d
or_else (some v) d = v

partition_of : Text → ℕ → Map Text → Partition
partition_of name size info = record {
  name = name;
  size = size;
  label =
      or_else (lookup (codes "ID_PART_ENTRY_NAME") info)
        (or_else (lookup (codes "PARTNAME") info) []);
  filesystem = or_else (lookup (codes "ID_FS_TYPE") info) [];
}

-- What the loop of `GetDevicePartitions` carries.
pub record Scan : Type 0 where
  pub found : List Partition
  pub device_size : ℕ
  pub total : ℕ

abbrev need_size : Text → Option ℕ → M ℕ
need_size text none = fail (new text)
need_size text (some n) = pure n

scan_line : Text → Map Text → Scan → M Scan
unfolding partition_of
scan_line device props s =
    let name = get_or [] (codes "NAME") props in
    let size = parse_uint (get_or [] (codes "SIZE") props) in
    if same name device
    then (do
      n ← need_size (codes "failed to get device size") size
      pure (record s { device_size = n }))
    else if same (get_or [] (codes "PKNAME") props) device
        && same (get_or [] (codes "TYPE") props) part_type
    then (do
      n ← need_size (codes "failed to get partition size") size
      info ← get_udev_info name
      pure (record s {
        found = s.found ++ partition_of name n info ∷ [];
        total = (s.total + n) % u64_mod;
      }))
    else pure s

scan_lines : Text → List Text → Scan → M Scan
unfolding scan_line
scan_lines device [] s = pure s
scan_lines device (l ∷ ls) s = do
  s' ← scan_line device (parse_key_value_pair_string l) s
  scan_lines device ls s'

-- `deviceSize - totalPartitionSize` of uint64 wraps around.
unfoldable pub unused_space : Scan → ℕ
unused_space s = if ltb 0 s.device_size then (s.device_size + u64_mod - s.total) % u64_mod else 0

pub get_device_partitions : Text → M (List Partition × ℕ)
unfolding scan_lines
get_device_partitions device = do
  out ← wrap (codes "failed to get device partitions") (
      execute_command_with_output (
        codes "lsblk"
        ∷ device_path device
        ∷ codes "--bytes"
        ∷ codes "--pairs"
        ∷ codes "--output"
        ∷ codes "NAME,SIZE,TYPE,PKNAME"
        ∷ []))
  s ← scan_lines device (split out b'\n') (record { found = []; device_size = 0; total = 0 })
  pure (s.found, unused_space s)

-- `exec.ExitStatus(err)` is there and is 32.
abbrev exited_with_32 : Error → Bool
exited_with_32 (exited n m) = n == 32
exited_with_32 _ = false

properties_of : Text × Option Error → Result (Map Text)
properties_of (out, none) = ok (parse_key_value_pair_string out)
properties_of (out, some x) =
    if contains out (codes "not a block device")
    then err x
    else if exited_with_32 x
    then ok []
    else err x

unfoldable pub get_device_properties_from_path : Text → M (Map Text)
unfolding properties_of
get_device_properties_from_path path = do
  r ← execute_command_with_status (
      codes "lsblk"
      ∷ path
      ∷ codes "--bytes"
      ∷ codes "--nodeps"
      ∷ codes "--pairs"
      ∷ codes "--paths"
      ∷ codes "--output"
      ∷ codes "SIZE,ROTA,RO,TYPE,PKNAME,NAME,KNAME,MOUNTPOINT"
      ∷ [])
  lift (properties_of r)

unfoldable pub get_device_properties : Text → M (Map Text)
get_device_properties device = get_device_properties_from_path (device_path device)

type_is_lv : Text → Option Text → M Bool
type_is_lv path none = fail (new (codes "TYPE property is not found for " ++ path))
type_is_lv path (some disk_type) = pure (same disk_type lvm_type)

pub is_lv : Text → M Bool
unfolding type_is_lv
is_lv path = do
  props ←
      wrap (codes "failed to get device properties for " ++ path)
        (get_device_properties_from_path path)
  type_is_lv path (lookup (codes "TYPE") props)

pub get_device_filesystems : Text → M Text
get_device_filesystems device = do
  out ←
      execute_command_with_output
        (codes "udevadm" ∷ codes "info" ∷ codes "--query=property" ∷ device_path device ∷ [])
  pure (parse_fs out)

found_uuid : Text → Option Text → M Text
found_uuid device none = fail (new (codes "uuid not found for device " ++ device))
found_uuid device (some u) = pure u

unfoldable pub get_disk_uuid : Text → M Text
unfolding found_uuid
get_disk_uuid device = do
  there ← asks (λ e t. e.in_path t (codes "sgdisk"))
  if there
      then (do
        out ←
            execute_command_with_output (codes "sgdisk" ∷ codes "--print" ∷ device_path device ∷ [])
        read ← asks (λ e t. e.parse_uuid)
        found_uuid device (parse_uuid read out))
      else pure (codes "sgdiskNotFound")

lv_name_of : Text → List Text → M Text
lv_name_of out (vg ∷ lv ∷ rest) = pure (vg ++ b'/' ∷ lv)
lv_name_of out _ = fail (new (codes "dmsetup splitname returned unexpected result: " ++ out))

pub get_lv_name : Text → M Text
unfolding lv_name_of
get_lv_name path = do
  info ← wrap (codes "failed to execute dmsetup info for " ++ path) (
      execute_command_with_output (
        codes "dmsetup"
        ∷ codes "info"
        ∷ codes "-c"
        ∷ codes "--noheadings"
        ∷ codes "-o"
        ∷ codes "name"
        ∷ path
        ∷ []))
  out ← wrap (codes "failed to execute dmsetup splitname for " ++ info) (
      execute_command_with_output
        (codes "dmsetup" ∷ codes "splitname" ∷ codes "--noheadings" ∷ info ∷ []))
  lv_name_of out (split out b':')

-- `path.Join("/dev", device)` at a device name: one part of a path, or nothing.
abbrev pub below_dev : Text → Text
below_dev device = if same device [] then codes "/dev" else codes "/dev/" ++ device

unfoldable pub list_devices_child : Text → M (List Text)
list_devices_child device = do
  out ← wrap (codes "failed to list child devices of " ++ device) (
      execute_command_with_output
        (codes "lsblk" ∷ codes "--noheadings" ∷ codes "--pairs" ∷ below_dev device ∷ []))
  pure (split out b'\n')

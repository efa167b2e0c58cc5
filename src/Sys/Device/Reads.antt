-- ===== src/Sys/Device/Reads.antt =====
-- What the queries about a device put on the trace, and how they end.
use topolvm_operator.Base.{◌≢◌, Option, none, some, arith}
use topolvm_operator.Base.Text.{Text}
use topolvm_operator.Env.{lift, Error}
use topolvm_operator.Env.{panic}
use topolvm_operator.Env.Emits.{Emits, emits_rules}
use topolvm_operator.Env.Safe.{IsSafe, IsSafe-bind, IsSafe-status, IsSafe-lift, safe_rules}
use topolvm_operator.Sys.Lvm.Quiet.{Quiet}
use topolvm_operator.Sys.Device.{
  list_devices, get_udev_info, properties_of, get_device_properties,
  get_device_properties_from_path, found_uuid, get_disk_uuid, list_devices_child,
}

properties-safe : (r : Text × Option Error) → properties_of r ≢ panic
unfolding properties_of
properties-safe r h = ground arith

pub get_device_properties-IsSafe : (d : Text) → IsSafe (get_device_properties d)
unfolding get_device_properties get_device_properties_from_path
get_device_properties-IsSafe d =
    IsSafe-bind _ (λ r. lift (properties_of r)) (IsSafe-status _)
      (λ r. IsSafe-lift (properties_of r) (properties-safe r))

found_uuid-IsSafe : (d : Text) (o : Option Text) → IsSafe (found_uuid d o)
unfolding found_uuid
found_uuid-IsSafe d none = search safe_rules
found_uuid-IsSafe d (some u) = search safe_rules

pub get_disk_uuid-IsSafe : (d : Text) → IsSafe (get_disk_uuid d)
unfolding get_disk_uuid
get_disk_uuid-IsSafe d = search (safe_rules, found_uuid-IsSafe) depth 8

pub get_udev_info-IsSafe : (d : Text) → IsSafe (get_udev_info d)
unfolding get_udev_info
get_udev_info-IsSafe d = search safe_rules

pub list_devices_child-IsSafe : (d : Text) → IsSafe (list_devices_child d)
unfolding list_devices_child
list_devices_child-IsSafe d = search safe_rules

pub list_devices-Quiet : Emits Quiet list_devices
unfolding list_devices
list_devices-Quiet = search emits_rules

pub get_device_properties-Quiet : (d : Text) → Emits Quiet (get_device_properties d)
unfolding get_device_properties get_device_properties_from_path
get_device_properties-Quiet d = search emits_rules

found_uuid-Quiet : (d : Text) (o : Option Text) → Emits Quiet (found_uuid d o)
unfolding found_uuid
found_uuid-Quiet d none = search emits_rules
found_uuid-Quiet d (some u) = search emits_rules

pub get_disk_uuid-Quiet : (d : Text) → Emits Quiet (get_disk_uuid d)
unfolding get_disk_uuid
get_disk_uuid-Quiet d = search (emits_rules, found_uuid-Quiet) depth 8

pub get_udev_info-Quiet : (d : Text) → Emits Quiet (get_udev_info d)
unfolding get_udev_info
get_udev_info-Quiet d = search emits_rules

pub list_devices_child-Quiet : (d : Text) → Emits Quiet (list_devices_child d)
unfolding list_devices_child
list_devices_child-Quiet d = search emits_rules

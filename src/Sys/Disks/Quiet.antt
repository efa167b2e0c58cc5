-- ===== src/Sys/Disks/Quiet.antt =====
-- What listing the disks puts on the trace.
use topolvm_operator.Base.{Bool, Option, none, some, List, [], ◌∷◌, ◌++◌}
use topolvm_operator.Base.Text.{Text}
use topolvm_operator.Base.Maps.{Map}
use topolvm_operator.Env.{pure, Outcome, value, error, ◌>>=◌}
use topolvm_operator.Env.Emits.{Emits, Emits-bind, Emits-pure, emits_rules}
use topolvm_operator.Sys.Device.{LocalDisk}
use topolvm_operator.Sys.Device.Reads.{
  list_devices-Quiet, get_device_properties-Quiet, get_disk_uuid-Quiet, get_udev_info-Quiet,
  list_devices_child-Quiet,
}
use topolvm_operator.Sys.Lvm.Quiet.{Quiet}
use topolvm_operator.Sys.Disks.{
  populate_typed, populate_device_info, populate_device_udev_info, has_child, probe_populated,
  probe, probe_all, discover_devices, uuid_of, get_available_devices, info_of, info_all,
  get_all_devices,
}

ruleset reads = (
  emits_rules, get_device_properties-Quiet, get_disk_uuid-Quiet, get_udev_info-Quiet,
  list_devices_child-Quiet,
)

uuid_of-Quiet : (d ty : Text) → Emits Quiet (uuid_of d ty)
unfolding uuid_of
uuid_of-Quiet d ty = search reads

populate_typed-Quiet :
    (d : Text) (props : Map Text) (o : Option Text) → Emits Quiet (populate_typed d props o)
unfolding populate_typed
populate_typed-Quiet d props none = search reads
populate_typed-Quiet d props (some ty) = search (reads, uuid_of-Quiet)

populate_device_info-Quiet : (d : Text) → Emits Quiet (populate_device_info d)
unfolding populate_device_info
populate_device_info-Quiet d = search (reads, populate_typed-Quiet)

udev-Quiet : (d : Text) (disk : LocalDisk) → Emits Quiet (populate_device_udev_info d disk)
unfolding populate_device_udev_info
udev-Quiet d disk = search reads

pub has_child-Quiet : (d ty : Text) → Emits Quiet (has_child d ty)
unfolding has_child
has_child-Quiet d ty = search reads depth 8

probe_populated-Quiet :
    (d : Text) (lp : Bool) (o : Outcome LocalDisk) → Emits Quiet (probe_populated d lp o)
unfolding probe_populated
probe_populated-Quiet d lp (value disk) = search (reads, udev-Quiet, has_child-Quiet)
probe_populated-Quiet d lp (error x) = search reads

probe-Quiet : (d : Text) (lp : Bool) → Emits Quiet (probe d lp)
unfolding probe
probe-Quiet d lp = search (reads, populate_device_info-Quiet, probe_populated-Quiet)

probe_all-Quiet : (ds : List Text) (lp : Bool) → Emits Quiet (probe_all ds lp)
unfolding probe_all
probe_all-Quiet [] lp = search reads
probe_all-Quiet (d ∷ ds) lp =
    Emits-bind (probe d lp) (λ f. probe_all ds lp >>= λ rest. pure (f ++ rest)) (probe-Quiet d lp)
      λ f.
        Emits-bind (probe_all ds lp) (λ rest. pure (f ++ rest)) (probe_all-Quiet ds lp)
          λ rest. Emits-pure (f ++ rest)

pub discover_devices-Quiet : (lp : Bool) → Emits Quiet (discover_devices lp)
unfolding discover_devices
discover_devices-Quiet lp = search (emits_rules, list_devices-Quiet, probe_all-Quiet)

pub get_available_devices-Quiet : Emits Quiet get_available_devices
unfolding get_available_devices
get_available_devices-Quiet = search (emits_rules, discover_devices-Quiet)

info_of-Quiet : (d : LocalDisk) (o : Option Text) → Emits Quiet (info_of d o)
unfolding info_of
info_of-Quiet d none = search (emits_rules, has_child-Quiet)
info_of-Quiet d (some text) = search emits_rules

info_all-Quiet : (ds : List LocalDisk) → Emits Quiet (info_all ds)
unfolding info_all
info_all-Quiet [] = search emits_rules
info_all-Quiet (d ∷ ds) =
    Emits-bind _ _ (info_of-Quiet d _)
      λ i. Emits-bind (info_all ds) _ (info_all-Quiet ds) λ rest. Emits-pure (i ∷ rest)

pub get_all_devices-Quiet : Emits Quiet get_all_devices
unfolding get_all_devices
get_all_devices-Quiet = search (emits_rules, discover_devices-Quiet, info_all-Quiet)

-- Whatever the node answers, discovering the disks, listing those that are free and listing all of
-- them run no command but queries.
pub listing-Quiet :
    ((lp : Bool) → Emits Quiet (discover_devices lp))
    × Emits Quiet get_available_devices
    × Emits Quiet get_all_devices
listing-Quiet = (discover_devices-Quiet, get_available_devices-Quiet, get_all_devices-Quiet)

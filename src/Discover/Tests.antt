-- ===== src/Discover/Tests.antt =====
-- A check on a node whose reports name the volume /dev/sdb.
use topolvm_operator.Base.{true, ◌≢◌, ◌≡◌, refl, List, [], ◌∷◌}
use topolvm_operator.Base.Text.{Text, codes, same}
use topolvm_operator.Base.Maps.{lookup, insert}
use topolvm_operator.Go.Strings.{split, trim_space, trim, to_lower}
use topolvm_operator.Api.{
  DeviceState, ClassState, class_ready, class_un_ready, device_online, device_offline,
}
use topolvm_operator.Env.{
  Env, Trace, ok, err, panic, conflict, not_found, get_config_map, execute_command_with_output,
  execute_command_with_status, run_command_with_output, assert_error_type,
}
use topolvm_operator.Env.World.{lvm_node}
use topolvm_operator.Sys.Parse.{parse_lines, parse_one_line}
use topolvm_operator.Sys.Lvm.{
  get_physical_volume, parse_output, wrap_exec_command_with_output, collect,
}
use topolvm_operator.Discover.{mark_classes, mark_class}
use topolvm_operator.Discover.Devices.{check_loop_device, retry_loop_device}
use topolvm_operator.Discover.Retry.{StopsAtFirst, retry_loop_device-StopsAtFirst}
use topolvm_operator.Discover.Udev.{total, match_udev_event, match_udev_event-exact}
use topolvm_operator.Discover.Classes.{AllChecked, mark_classes-AllChecked}

abbrev device : Text → Text → DeviceState
device name state = record { name = name; state = state; message = [] }

abbrev class_of : Text → List DeviceState → ClassState
class_of state devices = record {
  name = codes "hdd";
  vg_name = codes "vg1";
  state = state;
  message = [];
  device_states = devices;
}

abbrev before : List ClassState
before =
    class_of class_ready
      (device (codes "/dev/sdb") device_online ∷ device (codes "/dev/sdc") device_online ∷ [])
    ∷ []

abbrev after : List ClassState
after =
    class_of class_un_ready
      (device (codes "/dev/sdb") device_online ∷ device (codes "/dev/sdc") device_offline ∷ [])
    ∷ []

marked : (mark_classes before lvm_node []).0 ≡ ok after
unfolding mark_classes mark_class get_physical_volume parse_output wrap_exec_command_with_output
    execute_command_with_output execute_command_with_status run_command_with_output
    assert_error_type parse_lines parse_one_line split trim_space trim to_lower insert lookup same
    collect topolvm_operator.Sys.Lvm.nsenter topolvm_operator.Sys.Lvm.report
marked = refl

mark_classes-AllChecked_example : AllChecked lvm_node [] before after
mark_classes-AllChecked_example = mark_classes-AllChecked before lvm_node [] after marked

-- A node where the first look for the ConfigMap is in conflict, and the second finds none.
abbrev late_node : Env
late_node = record lvm_node {
  found_config_map = λ t name. elim t [ [] ↦ err conflict | a ∷ u ↦ err not_found ];
}

checks_safe : (u : Trace) → (check_loop_device (codes "m1") late_node u).0 ≢ panic
unfolding check_loop_device topolvm_operator.Env.api_get_config_map
checks_safe [] h = cc
checks_safe (a ∷ u) h = cc

-- The loop makes two checks of three.
second_check :
    retry_loop_device (codes "m1") 3 late_node []
    ≡ (ok true, get_config_map (codes "m1") ∷ get_config_map (codes "m1") ∷ [])
unfolding retry_loop_device check_loop_device topolvm_operator.Env.api_get_config_map
second_check = refl

retry_loop_device-StopsAtFirst_example :
    StopsAtFirst (codes "m1") late_node 3 [] (retry_loop_device (codes "m1") 3 late_node [])
retry_loop_device-StopsAtFirst_example =
    retry_loop_device-StopsAtFirst (codes "m1") late_node 3 [] checks_safe

-- Expressions that match the texts that they are equal to.
match_udev_event-exact_example :
    match_udev_event (total same) (codes "add") (codes "add" ∷ []) (codes "dm-0" ∷ []) ≡ ok true
unfolding same
match_udev_event-exact_example =
    match_udev_event-exact same (codes "add") (codes "add" ∷ []) (codes "dm-0" ∷ [])

-- ===== src/PrepareVg/Resize/Tests.antt =====
-- Resizing the groups of a node whose reports name the volume /dev/sdb.
use topolvm_operator.Base.{Has, ◌↔◌, ◌≡◌, ◌<◌, refl, true, none, List, [], ◌∷◌, length}
use topolvm_operator.Base.Text.{Text, codes, same}
use topolvm_operator.Base.Maps.{Map, lookup, insert, delete, keys}
use topolvm_operator.Go.Strings.{split, trim_space, trim, to_lower}
use topolvm_operator.Api.{Disk, DeviceClass, ClassState}
use topolvm_operator.Env.{
  ok, execute_command_with_output, execute_command_with_status, run_command_with_output,
  assert_error_type, range,
}
use topolvm_operator.Env.World.{lvm_node, broken_node}
use topolvm_operator.Sys.Parse.{parse_lines}
use topolvm_operator.Sys.Lvm.{get_physical_volume, remove_volume_group, shrink_volume_group}
use topolvm_operator.Base.{some}
use topolvm_operator.Api.{LoopState}
use topolvm_operator.PrepareVg.Resize.Named.{IsNamed}
use topolvm_operator.PrepareVg.Resize.Shrink.{pvs_at}
use topolvm_operator.PrepareVg.{Classes, resolve, get_device_name, loop}
use topolvm_operator.PrepareVg.Resize.{check_vg_if_expand}
use topolvm_operator.Base.{All, false, ◌++◌}
use topolvm_operator.Env.{Trace}
use topolvm_operator.PrepareVg.Resize.Expand.{Extends, check_vg_if_expand-Extends}
use topolvm_operator.PrepareVg.Resize.Loops.{expand_then_shrink-removes}
use topolvm_operator.PrepareVg.Resize.{
  check_vg_if_shrink, check_vg_if_delete, delete_groups, specified, forget_failed,
}
use topolvm_operator.PrepareVg.Resize.Delete.{
  VisitsAll, IsRestricted, check_vg_if_delete-IsRestricted,
}
use topolvm_operator.PrepareVg.Resize.Shrink.{here, check_vg_if_shrink-runs}

abbrev class_of : List Disk → DeviceClass
class_of ds = record {
  class_name = codes "hdd";
  vg_name = codes "vg1";
  device = ds;
  default = true;
  spare_gb = 0;
  stripe = 0;
  stripe_size = [];
}

abbrev state : ClassState
state = record {
  name = codes "hdd";
  vg_name = codes "vg1";
  state = [];
  message = [];
  device_states = [];
}

abbrev before : Classes
before = record { suc = (codes "vg1", state) ∷ []; failed = (codes "vg2", state) ∷ [] }

abbrev after : Classes
after = record { suc = (codes "vg1", state) ∷ []; failed = [] }

visits : VisitsAll broken_node
visits t ks k h = h

kept : (check_vg_if_delete (class_of [] ∷ []) before broken_node []).0 ≡ ok after
unfolding check_vg_if_delete delete_groups specified forget_failed range keys same delete
kept = refl

check_vg_if_delete-IsRestricted_example :
    IsRestricted (class_of [] ∷ []) before.suc after.suc
    × IsRestricted (class_of [] ∷ []) before.failed after.failed
check_vg_if_delete-IsRestricted_example =
    check_vg_if_delete-IsRestricted (class_of [] ∷ []) before broken_node [] after visits kept

abbrev volumes : Map Text
volumes = (codes "/dev/sdb", codes "/dev/sdb") ∷ []

listed : (get_physical_volume (codes "vg1") lvm_node []).0 ≡ ok volumes
unfolding get_physical_volume topolvm_operator.Sys.Lvm.parse_output
    topolvm_operator.Sys.Lvm.wrap_exec_command_with_output execute_command_with_output
    execute_command_with_status run_command_with_output assert_error_type parse_lines
    topolvm_operator.Sys.Parse.parse_one_line split trim_space trim to_lower insert same
    topolvm_operator.Sys.Lvm.collect topolvm_operator.Sys.Lvm.nsenter
    topolvm_operator.Sys.Lvm.report lookup
listed = refl

one_volume : pvs_at (codes "vg1") lvm_node [] volumes ≡ codes "/dev/sdb" ∷ []
unfolding keys
one_volume = refl

check_vg_if_shrink-runs_example :
    (All (IsNamed []) (here (class_of []) before.suc lvm_node [] volumes)
      → check_vg_if_shrink (class_of []) before.suc lvm_node []
        ≡ (ok (before.suc, none), (get_physical_volume (codes "vg1") lvm_node []).1))
    × (All (λ pv. ¬ IsNamed [] pv) (here (class_of []) before.suc lvm_node [] volumes)
        → 0 < length (here (class_of []) before.suc lvm_node [] volumes)
        → (check_vg_if_shrink (class_of []) before.suc lvm_node []).1
          ≡ (remove_volume_group
              (codes "vg1")
              lvm_node
              (get_physical_volume (codes "vg1") lvm_node []).1).1)
    × ((kept gone : Text)
        → Has kept (here (class_of []) before.suc lvm_node [] volumes) × IsNamed [] kept
        → Has gone (here (class_of []) before.suc lvm_node [] volumes) × ¬ IsNamed [] gone
        → (names : List Text) × ((pv : Text)
            → Has pv names
              ↔ (Has pv (here (class_of []) before.suc lvm_node [] volumes) × ¬ IsNamed [] pv))
          × ((check_vg_if_shrink (class_of []) before.suc lvm_node []).1
              ≡ (shrink_volume_group
                  (codes "vg1")
                  names
                  lvm_node
                  (get_physical_volume (codes "vg1") lvm_node []).1).1))
check_vg_if_shrink-runs_example =
    check_vg_if_shrink-runs (class_of []) before.suc lvm_node [] volumes listed

abbrev loop_disk : Disk
loop_disk = record {
  name = codes "loop1";
  type = loop;
  auto = true;
  path = codes "/data";
  size = 10;
}

abbrev device_disk : Disk
device_disk = record loop_disk { name = codes "/dev/sdb" }

abbrev made_loop : Map LoopState
made_loop =
    (
      codes "loop1",
      record {
        name = codes "loop1";
        file = codes "/data/file1";
        device_name = codes "/dev/sdb";
        status = codes "successful";
        message = [];
      },
    )
    ∷ []

resolved : resolve made_loop loop_disk ≡ some device_disk
unfolding resolve get_device_name lookup same
resolved = refl

expand_then_shrink-removes_example :
    (check_vg_if_expand made_loop (class_of (loop_disk ∷ [])) before.suc lvm_node []
      ≡ (ok (before.suc, none), (get_physical_volume (codes "vg1") lvm_node []).1))
    × ((check_vg_if_shrink (class_of (loop_disk ∷ [])) before.suc lvm_node []).1
        ≡ (remove_volume_group
            (codes "vg1")
            lvm_node
            (get_physical_volume (codes "vg1") lvm_node []).1).1)
expand_then_shrink-removes_example =
    expand_then_shrink-removes made_loop (class_of (loop_disk ∷ [])) before.suc loop_disk
      device_disk lvm_node [] refl resolved (λ h. cc) listed one_volume

abbrev sdc : Disk
sdc = record { name = codes "/dev/sdc"; type = codes "disk"; auto = false; path = []; size = 0 }

check_vg_if_expand-Extends_example :
    (acts : Trace) × ((check_vg_if_expand [] (class_of (sdc ∷ [])) before.suc lvm_node []).1
      ≡ (get_physical_volume (codes "vg1") lvm_node []).1 ++ acts)
    × All (Extends (codes "vg1") volumes) acts
check_vg_if_expand-Extends_example =
    check_vg_if_expand-Extends [] (class_of (sdc ∷ [])) before.suc volumes lvm_node [] listed
